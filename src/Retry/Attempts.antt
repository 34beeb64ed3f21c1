-- ===== src/Retry/Attempts.antt =====
-- How often a call is tried, and what comes of it (packages/solana/src/tx/retry.ts).
use solana_snake_arena.Base.{
  ℕ, zero, suc, ◌+◌, ◌≤◌, ◌<◌, ◌≡◌, refl, Bool, true, false, not, ◌&&◌, List, [], ◌∷◌, length,
  arith, ap, ◌∙◌,
}
use solana_snake_arena.Retry.{
  Result, done, threw, Run, RetryOptions, after_attempt, stops, attempt_once, retry_from,
  with_retry,
}

-- `n` attempts in order, the first of them given.
abbrev pub count_from : ℕ → ℕ → List ℕ
count_from zero first = []
count_from (suc n) first = first ∷ count_from n (first + 1)

module _ {ℓ κ} {E : Type ℓ} {T : Type κ} (o : RetryOptions E) (fn : ℕ → Result E T) where
  -- The attempt fails with an error that is worth a retry, and is not aborted.
  abbrev pub is_transient : ℕ → Bool
  is_transient attempt =
      not (o.aborted attempt) && elim (fn attempt) [ done a ↦ false | threw e ↦ o.should_retry e ]

  abbrev pub all_transient : ℕ → ℕ → Bool
  all_transient zero first = true
  all_transient (suc n) first = is_transient first && all_transient n (first + 1)

  length-retry_from :
      (left attempt : ℕ) (last : E) → length (retry_from o fn left attempt last).attempts ≤ left
  unfolding retry_from
  length-retry_from zero attempt last = omega arith
  length-retry_from (suc left) attempt last = ground (
    arith,
    length-retry_from left (attempt + 1) (elim (fn attempt) [ done a ↦ last | threw e ↦ e ]),
  )

  -- The call is made at most as often as the options say.
  pub with_retry_bounded : (unset : E) → length (with_retry o fn unset).attempts ≤ o.max_attempts
  unfolding with_retry
  with_retry_bounded unset = length-retry_from o.max_attempts 1 unset

  now_done :
      (left attempt : ℕ) (last : E) (a : T)
      → o.aborted attempt ≡ false
      → fn attempt ≡ done a
      → retry_from o fn (suc left) attempt last ≡ stops o fn attempt (done a)
  unfolding retry_from
  now_done left attempt last a go r = rw (go, r, attempt_once) refl

  once_transient :
      (attempt : ℕ) (later : Run E T) (r : Result E T)
      → fn attempt ≡ r
      → attempt < o.max_attempts
      → is_transient attempt ≡ true
      → attempt_once o fn attempt later ≡ after_attempt o fn attempt later
  once_transient attempt later (done a) is within h = ground (arith, is)
  once_transient attempt later (threw e) is within h = ground (arith, is)

  later_done :
      (attempt n : ℕ) (later run : Run E T) (a : T)
      → run ≡ after_attempt o fn attempt later
      → later.result ≡ done a
      → later.attempts ≡ count_from n (attempt + 1)
      → (run.result ≡ done a) × (run.attempts ≡ count_from (suc n) attempt)
  later_done attempt n later run a e h k =
      (ap (λ r. r.result) e ∙ h, ap (λ r. r.attempts) e ∙ ap (λ xs. attempt ∷ xs) k)

  retry_from-done :
      (n left attempt : ℕ) (last : E) (a : T) (k : ℕ)
      → k ≡ attempt + n
      → k ≤ o.max_attempts
      → n < left
      → all_transient n attempt ≡ true
      → o.aborted k ≡ false
      → fn k ≡ done a
      → ((retry_from o fn left attempt last).result ≡ done a)
        × ((retry_from o fn left attempt last).attempts ≡ count_from (suc n) attempt)
  unfolding retry_from
  retry_from-done n zero attempt last a k e within h t go r = absurd (omega arith)
  retry_from-done zero (suc left) attempt last a k e within h t go r =
      let same : attempt ≡ k = omega arith in
      let run = now_done left attempt last a (ap o.aborted same ∙ go) (ap fn same ∙ r) in
      (ap (λ x. x.result) run, ap (λ x. x.attempts) run)
  retry_from-done (suc n) (suc left) attempt last a k e within h t go r =
      let next : E = elim (fn attempt) [ done b ↦ last | threw x ↦ x ] in
      let first : is_transient attempt ≡ true = ground arith in
      let others : all_transient n (attempt + 1) ≡ true = ground arith in
      let ih =
        retry_from-done n left (attempt + 1) next a k (omega arith) within (omega arith) others go
          r in
      later_done attempt (suc n) (retry_from o fn left (attempt + 1) next) _ a
        (once_transient attempt (retry_from o fn left (attempt + 1) next) (fn attempt) refl
          (omega arith) first)
        ih.0 ih.1

  -- When the call succeeds at attempt `k`, within the limit, is not aborted there, and fails before
  -- that only with errors worth a retry, it is made exactly `k` times and its value is the result.
  pub with_retry-done :
      (unset : E) (n : ℕ) (a : T)
      → 1 + n ≤ o.max_attempts
      → all_transient n 1 ≡ true
      → o.aborted (1 + n) ≡ false
      → fn (1 + n) ≡ done a
      → ((with_retry o fn unset).result ≡ done a)
        × ((with_retry o fn unset).attempts ≡ count_from (suc n) 1)
  unfolding with_retry
  with_retry-done unset n a within t go r =
      retry_from-done n o.max_attempts 1 unset a (1 + n) refl within (omega arith) t go r
