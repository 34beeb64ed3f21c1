-- ===== src/Anticheat/Rate.antt =====
-- How much a budget lets through (apps/realtime/src/anticheat/validators.ts: `consumeInputBudget`, and the
-- guards that work the same way).
use solana_snake_arena.Base.{
  ℕ, subst, ◌+◌, ◌-◌, ◌*◌, ◌≤◌, ◌≡◌, refl, ltb, List, [], ◌∷◌, if◌then◌else◌, arith, Bool-cases,
  inl, inr,
}
use solana_snake_arena.Anticheat.{Limit, Bucket, new_bucket, refilled, consume_input_budget}

-- Calls at these times: how many were let through, and the bucket at the end.
unfoldable pub consume_all : Limit → List ℕ → Bucket → ℕ × Bucket
consume_all limit [] b = (0, b)
consume_all limit (t ∷ times) b =
    let r = consume_input_budget limit t b in
    let rest = consume_all limit times r.1 in ((if r.0 then 1 else 0) + rest.0, rest.1)

-- Times that do not go back.
abbrev pub Forward : ℕ → List ℕ → Type 0
Forward start [] = Unit
Forward start (t ∷ times) = (start ≤ t) × Forward t times

abbrev pub last_of : ℕ → List ℕ → ℕ
last_of start [] = start
last_of start (t ∷ times) = last_of t times

Forward-le : (start : ℕ) (times : List ℕ) → Forward start times → start ≤ last_of start times
Forward-le start [] h = omega arith
Forward-le start (t ∷ times) h = omega (arith, Forward-le t times h.1)

consume_le :
    (limit : Limit) (t : ℕ) (b : Bucket)
    → ((if (consume_input_budget limit t b).0 then 1 else 0) * limit.parts_per_token
          + (consume_input_budget limit t b).1.tokens
        ≤ b.tokens + (t - b.last_refill_ms) * limit.parts_per_ms)
      × ((consume_input_budget limit t b).1.last_refill_ms ≡ t)
unfolding consume_input_budget
consume_le limit t b = elim (Bool-cases (ltb (refilled limit t b) limit.parts_per_token)) [
  | inl dry ↦ rw dry (ground arith, refl)
  | inr wet ↦ rw wet (ground arith, refl)
]

spans : (a b c r : ℕ) → a ≤ b → b ≤ c → (b - a) * r + (c - b) * r ≡ (c - a) * r
spans a b c r h k = grind arith

times_plus : (a b p : ℕ) → (a + b) * p ≡ a * p + b * p
times_plus a b p = grind arith

consume_all_le :
    (limit : Limit) (times : List ℕ) (b : Bucket)
    → Forward b.last_refill_ms times
    → (consume_all limit times b).0 * limit.parts_per_token
      ≤ b.tokens + (last_of b.last_refill_ms times - b.last_refill_ms) * limit.parts_per_ms
unfolding consume_all
consume_all_le limit [] b h = omega arith
consume_all_le limit (t ∷ times) b h =
    let r = consume_input_budget limit t b in
    let step = consume_le limit t b in
    let rest = consume_all_le limit times r.1 (rw (step.1) h.1) in
    let later =
      subst
        (λ (s : ℕ).
          (consume_all limit times r.1).0 * limit.parts_per_token
          ≤ r.1.tokens + (last_of s times - s) * limit.parts_per_ms)
        step.1 rest in
    omega (
      arith,
      step.0,
      later,
      spans b.last_refill_ms t (last_of t times) limit.parts_per_ms h.0 (Forward-le t times h.1),
      times_plus (if r.0 then 1 else 0) (consume_all limit times r.1).0 limit.parts_per_token,
    )

-- However calls are spread over time, the clock not going back, a bucket that was full lets through no more
-- than its burst and what came back since: the number let through, in parts, is at most the full bucket and
-- the time that passed by the rate.
pub consume_all_bounded :
    (limit : Limit) (start : ℕ) (times : List ℕ)
    → Forward start times
    → (consume_all limit times (new_bucket limit start)).0 * limit.parts_per_token
      ≤ limit.burst * limit.parts_per_token + (last_of start times - start) * limit.parts_per_ms
consume_all_bounded limit start times h = consume_all_le limit times (new_bucket limit start) h
