-- ===== src/CircuitBreaker/States.antt =====
-- The states of the circuit breaker over its calls (packages/solana/src/tx/circuit-breaker.ts).
use solana_snake_arena.Base.{
  ℕ, zero, suc, ◌+◌, ◌≤◌, ◌<◌, ◌≡◌, sym, subst, Bool, true, false, not, ◌&&◌, ◌||◌, [], ◌∷◌, ◌++◌,
  leb, if◌then◌else◌, length, arith,
}
use solana_snake_arena.CircuitBreaker.{
  CircuitState, closed, opened, half_open, CircuitBreakerOptions, CircuitBreaker, admit_probe,
  admit, is_closed, on_success, recent, on_failure, execute,
}

abbrev pub is_open : CircuitState → Bool
is_open opened = true
is_open _ = false

-- A call is let through exactly when the circuit is closed, or open for at least the cooldown, or
-- half-open with no probe in flight; it is then a probe exactly when the circuit is not closed.
pub admit-allowed :
    (o : CircuitBreakerOptions) (now : ℕ) (b : CircuitBreaker)
    → ((admit o now b).1.allowed ≡ (
        is_closed b.state
        || (if is_open b.state
            then leb (b.opened_at_ms + o.cooldown_ms) now
            else not b.probe_in_flight)))
      × ((admit o now b).1.probe ≡ ((admit o now b).1.allowed && not (is_closed b.state)))
unfolding admit admit_probe
admit-allowed o now b = ground arith

-- What may happen to a circuit, by steps, before a probe returns: calls ask to be let through, and
-- ordinary calls from before return. The failures of those stay below the threshold.
pub data Meanwhile (o : CircuitBreakerOptions) (b : CircuitBreaker) : CircuitBreaker → Type 0 where
  here : Meanwhile o b b
  call_asks : {c : CircuitBreaker} (now : ℕ) → Meanwhile o b c → Meanwhile o b (admit o now c).0
  call_succeeds : {c : CircuitBreaker} → Meanwhile o b c → Meanwhile o b (on_success o false c)
  call_fails :
      {c : CircuitBreaker} (now : ℕ)
      → Meanwhile o b c
      → length (recent o now (c.failures ++ now ∷ [])) < o.failure_threshold
      → Meanwhile o b (on_failure o now false c)

record IsProbing (b : CircuitBreaker) : Type 0 where
  trying : b.state ≡ half_open
  loose : b.probe_in_flight ≡ true

admit-IsProbing :
    (o : CircuitBreakerOptions) (now : ℕ) (b : CircuitBreaker)
    → (admit o now b).1.probe ≡ true
    → IsProbing (admit o now b).0
unfolding admit admit_probe
admit-IsProbing o now b h = record { trying = ground arith; loose = ground arith }

-- A call that asks during a probe is refused, and changes nothing.
admit_during :
    (o : CircuitBreakerOptions) (now : ℕ) (b : CircuitBreaker)
    → IsProbing b
    → ((admit o now b).1.allowed ≡ false) × ((admit o now b).0 ≡ b)
unfolding admit admit_probe
admit_during o now b p = (ground (arith, p.trying, p.loose), ground (arith, p.trying, p.loose))

succeeds_during :
    (o : CircuitBreakerOptions) (b : CircuitBreaker)
    → IsProbing b
    → IsProbing (on_success o false b)
unfolding on_success
succeeds_during o b p = record {
  trying = ground (arith, p.trying);
  loose = ground (arith, p.trying, p.loose);
}

fails_during :
    (o : CircuitBreakerOptions) (now : ℕ) (b : CircuitBreaker)
    → length (recent o now (b.failures ++ now ∷ [])) < o.failure_threshold
    → IsProbing b
    → IsProbing (on_failure o now false b)
unfolding on_failure
fails_during o now b few p = record {
  trying = ground (arith, few, p.trying);
  loose = ground (arith, few, p.loose);
}

Meanwhile-IsProbing :
    (o : CircuitBreakerOptions) (b c : CircuitBreaker) → Meanwhile o b c → IsProbing b → IsProbing c
Meanwhile-IsProbing o b _ here p = p
Meanwhile-IsProbing o b _ (call_asks {c} now before) p =
    let q = Meanwhile-IsProbing o b c before p in subst IsProbing (sym (admit_during o now c q).1) q
Meanwhile-IsProbing o b _ (call_succeeds {c} before) p =
    succeeds_during o c (Meanwhile-IsProbing o b c before p)
Meanwhile-IsProbing o b _ (call_fails {c} now before few) p =
    fails_during o now c few (Meanwhile-IsProbing o b c before p)

-- After a probe was let through and before it returns, however many calls ask and however many
-- ordinary calls from before return, as long as their failures in the window stay below the
-- threshold, no call is let through, at any time, and one that asks changes nothing.
pub admit_one_probe :
    (o : CircuitBreakerOptions) (now later : ℕ) (b c : CircuitBreaker)
    → (admit o now b).1.probe ≡ true
    → Meanwhile o (admit o now b).0 c
    → ((admit o later c).1.allowed ≡ false) × ((admit o later c).0 ≡ c)
admit_one_probe o now later b c h before =
    admit_during o later c
      (Meanwhile-IsProbing o (admit o now b).0 c before (admit-IsProbing o now b h))

-- A closed circuit holds fewer failures than the threshold.
abbrev pub IsValid : CircuitBreakerOptions → CircuitBreaker → Type 0
IsValid o b = (is_closed b.state && leb o.failure_threshold (length b.failures)) ≡ false

-- With a positive threshold, a closed circuit holds fewer failures than the threshold after every
-- complete call, whatever its result, if it did before.
pub execute-IsValid :
    (o : CircuitBreakerOptions) (now : ℕ) (succeeds : Bool) (b : CircuitBreaker)
    → 0 < o.failure_threshold
    → IsValid o b
    → IsValid o (execute o now succeeds b).0
unfolding execute admit admit_probe on_success on_failure
execute-IsValid o now succeeds b h v = ground arith

-- `n` complete calls in a row that succeed, at one time.
pub successes : ℕ → CircuitBreakerOptions → ℕ → CircuitBreaker → CircuitBreaker
successes zero o now b = b
successes (suc n) o now b = (execute o now true (successes n o now b)).0

-- A half-open circuit with `n` probes behind it and none in flight.
abbrev pub HasProbed : ℕ → CircuitBreaker → Type 0
HasProbed n b = (b.state ≡ half_open) × (b.probe_in_flight ≡ false) × (b.probe_successes ≡ n)

-- `n` times a call that fails and one that succeeds, each pair at its own time.
pub alternating : ℕ → CircuitBreakerOptions → ℕ → CircuitBreaker → CircuitBreaker
alternating zero o now b = b
alternating (suc n) o now b = (execute o now true (execute o now false (alternating n o now b)).0).0

abbrev pub IsIdle : CircuitBreaker → Type 0
IsIdle b = (b.state ≡ closed) × (b.failures ≡ [])

alternating_step :
    (o : CircuitBreakerOptions) (now : ℕ) (b : CircuitBreaker)
    → 1 < o.failure_threshold
    → IsIdle b
    → IsIdle (execute o now true (execute o now false b).0).0
unfolding execute admit on_success on_failure
alternating_step o now b h (s, f) = ground arith

-- With a failure threshold above one, a closed circuit without failures never opens when every
-- other call fails, however long that goes on: a success clears the history.
pub alternating_stays_closed :
    (n : ℕ) (o : CircuitBreakerOptions) (now : ℕ) (b : CircuitBreaker)
    → 1 < o.failure_threshold
    → IsIdle b
    → ((alternating n o now b).state ≡ closed) × ((alternating n o now b).failures ≡ [])
unfolding alternating
alternating_stays_closed zero o now b h p = p
alternating_stays_closed (suc n) o now b h p =
    alternating_step o now (alternating n o now b) h (alternating_stays_closed n o now b h p)

-- When an ordinary call from before the circuit opened fails while a probe is in flight, and the
-- failures in the window reach the threshold, then from one cooldown later on a second probe is let
-- through although the first one has not returned.
pub stale_failure_second_probe :
    (o : CircuitBreakerOptions) (now later : ℕ) (b : CircuitBreaker)
    → b.state ≡ half_open
    → b.probe_in_flight ≡ true
    → o.failure_threshold ≤ length (recent o now (b.failures ++ now ∷ []))
    → now + o.cooldown_ms ≤ later
    → (admit o later (on_failure o now false b)).1.probe ≡ true
unfolding admit admit_probe on_failure
stale_failure_second_probe o now later b s p full h = ground arith
