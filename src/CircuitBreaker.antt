-- ===== src/CircuitBreaker.antt =====
-- The circuit breaker for RPC calls (packages/solana/src/tx/circuit-breaker.ts). `execute` is its
-- two halves, `admit` before the call and `on_success` or `on_failure` when it returns, since other
-- calls run in between. Times are milliseconds; `now - at < limit` is `now < at + limit`.
pub mod States
pub mod Tests
use solana_snake_arena.Base.{
  ℕ, ◌+◌, ◌-◌, Bool, true, false, List, [], ◌∷◌, ◌++◌, ltb, leb, if◌then◌else◌, filter, length,
}

pub data CircuitState : Type 0 where
  closed opened half_open : CircuitState

pub record CircuitBreakerOptions : Type 0 where
  pub failure_threshold : ℕ
  pub window_ms : ℕ
  pub cooldown_ms : ℕ
  pub success_threshold : ℕ

abbrev pub default_breaker : CircuitBreakerOptions
default_breaker = record {
  failure_threshold = 5;
  window_ms = 30000;
  cooldown_ms = 10000;
  success_threshold = 2;
}

pub record CircuitBreaker : Type 0 where
  pub state : CircuitState
  pub failures : List ℕ
  pub opened_at_ms : ℕ
  pub probe_successes : ℕ
  pub probe_in_flight : Bool

pub record Decision : Type 0 where
  pub allowed : Bool
  pub probe : Bool
  pub retry_after_ms : ℕ

abbrev pub new_breaker : CircuitBreaker
new_breaker = record {
  state = closed;
  failures = [];
  opened_at_ms = 0;
  probe_successes = 0;
  probe_in_flight = false;
}

-- The end of `admit`, in the half-open state.
pub admit_probe : CircuitBreakerOptions → CircuitBreaker → CircuitBreaker × Decision
admit_probe o b =
    if b.probe_in_flight
    then (b, record { allowed = false; probe = false; retry_after_ms = o.cooldown_ms })
    else (
      record b { probe_in_flight = true },
      record { allowed = true; probe = true; retry_after_ms = 0 },
    )

abbrev pub to_half_open : CircuitBreaker → CircuitBreaker
to_half_open b = record b { state = half_open; probe_successes = 0; probe_in_flight = false }

pub admit : CircuitBreakerOptions → ℕ → CircuitBreaker → CircuitBreaker × Decision
admit o now b = elim b.state [
  | closed ↦ (b, record { allowed = true; probe = false; retry_after_ms = 0 })
  | opened ↦
      if ltb now (b.opened_at_ms + o.cooldown_ms)
      then (
        b,
        record {
          allowed = false;
          probe = false;
          retry_after_ms = b.opened_at_ms + o.cooldown_ms - now;
        },
      )
      else admit_probe o (to_half_open b)
  | half_open ↦ admit_probe o b
]

abbrev pub is_closed : CircuitState → Bool
is_closed closed = true
is_closed _ = false

pub on_success : CircuitBreakerOptions → Bool → CircuitBreaker → CircuitBreaker
on_success o true b =
    let probed : CircuitBreaker = record b {
      probe_in_flight = false;
      probe_successes = b.probe_successes + 1;
    } in
    if leb o.success_threshold probed.probe_successes
    then record probed { state = closed; failures = []; probe_successes = 0 }
    else probed
on_success o false b = if is_closed b.state then record b { failures = [] } else b

abbrev pub recent : CircuitBreakerOptions → ℕ → List ℕ → List ℕ
recent o now = filter (λ at. ltb now (at + o.window_ms))

pub on_failure : CircuitBreakerOptions → ℕ → Bool → CircuitBreaker → CircuitBreaker
on_failure o now true b = record b { probe_in_flight = false; state = opened; opened_at_ms = now }
on_failure o now false b =
    let kept = recent o now (b.failures ++ now ∷ []) in
    if leb o.failure_threshold (length kept)
    then record b { failures = kept; state = opened; opened_at_ms = now }
    else record b { failures = kept }

-- A call that returns before any other is made: `none` is a call that was not let through.
pub execute : CircuitBreakerOptions → ℕ → Bool → CircuitBreaker → CircuitBreaker × Decision
execute o now succeeds b =
    let decision = admit o now b in
    (
      if decision.1.allowed
          then (if succeeds
              then on_success o decision.1.probe decision.0
              else on_failure o now decision.1.probe decision.0)
          else decision.0,
      decision.1,
    )

pub reset : CircuitBreaker → CircuitBreaker
reset b = record b { state = closed; failures = []; probe_successes = 0; probe_in_flight = false }
