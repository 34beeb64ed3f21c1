-- ===== src/CircuitBreaker/Tests.antt =====
-- Witnesses for the circuit breaker, with its default options.
use solana_snake_arena.Base.{◌≡◌, ◌<◌, ◌++◌, length, refl, true, false, [], ◌∷◌, arith}
use solana_snake_arena.CircuitBreaker.{
  CircuitBreaker, on_failure, recent, opened, half_open, default_breaker, new_breaker, admit,
  admit_probe, execute,
}
use solana_snake_arena.CircuitBreaker.States.{
  here, call_asks, call_fails, admit_one_probe, IsValid, execute-IsValid,
}

abbrev tripped : CircuitBreaker
tripped = record {
  state = opened;
  failures = 1 ∷ 2 ∷ 3 ∷ 4 ∷ 5 ∷ [];
  opened_at_ms = 5;
  probe_successes = 0;
  probe_in_flight = false;
}

abbrev probing : CircuitBreaker
probing = record tripped { state = half_open }

abbrev probe_out : CircuitBreaker
probe_out = record tripped { state = half_open; probe_in_flight = true }

probing_admitted : (admit default_breaker 20000 probing).1.probe ≡ true
unfolding admit admit_probe
probing_admitted = refl

abbrev probe_sent : CircuitBreaker
probe_sent = (admit default_breaker 20000 probing).0

-- Another call asks, and an ordinary one from before fails.
abbrev still_out : CircuitBreaker
still_out = on_failure default_breaker 60000 false (admit default_breaker 30000 probe_sent).0

still_few :
    length (
      recent default_breaker 60000
        ((admit default_breaker 30000 probe_sent).0.failures ++ 60000 ∷ []))
    < 5
unfolding admit admit_probe
still_few = omega arith

admit_one_probe_example :
    ((admit default_breaker 90000 still_out).1.allowed ≡ false)
    × ((admit default_breaker 90000 still_out).0 ≡ still_out)
admit_one_probe_example =
    admit_one_probe default_breaker 20000 90000 probing still_out probing_admitted
      (call_fails 60000 (call_asks 30000 here) still_few)

execute-IsValid_example : IsValid default_breaker (execute default_breaker 7 false new_breaker).0
execute-IsValid_example = execute-IsValid default_breaker 7 false new_breaker (omega arith) refl
