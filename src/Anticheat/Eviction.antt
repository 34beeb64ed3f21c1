-- ===== src/Anticheat/Eviction.antt =====
-- Dropping idle buckets (apps/realtime/src/io/middleware/connection-guard.ts: `sweep`).
use solana_snake_arena.Base.{
  ℕ, ◌-◌, ◌*◌, ◌≤◌, ◌≡◌, refl, Bool, true, ◌==◌, Option, none, some, if◌then◌else◌, if_elim, arith,
  ==_refl, ◌∙◌, sym, ap,
}
use solana_snake_arena.Anticheat.{Limit, Bucket, full, new_bucket, refilled, consume_input_budget}
use solana_snake_arena.Anticheat.Connections.{
  Budgets, ConnectionGuardOptions, limit_of, bucket_or_new, try_consume, is_evicted, sweep,
}

waits_more : (now later last r : ℕ) → now ≤ later → (now - last) * r ≤ (later - last) * r
waits_more now later last r h = let longer : now - last ≤ later - last = omega arith in grind arith

refilled_later :
    (o : ConnectionGuardOptions) (now later : ℕ) (b : Bucket)
    → now ≤ later
    → is_evicted o now b ≡ true
    → refilled (limit_of o) later b ≡ full (limit_of o)
refilled_later o now later b h evicted =
    let more = waits_more now later b.last_refill_ms o.rate_per_second h in ground arith

-- A full bucket is as good as a new one.
same_as_new :
    (limit : Limit) (later : ℕ) (b : Bucket)
    → refilled limit later b ≡ full limit
    → consume_input_budget limit later b ≡ consume_input_budget limit later (new_bucket limit later)
unfolding consume_input_budget
same_as_new limit later b h =
    let fresh : refilled limit later (new_bucket limit later) ≡ full limit = ground arith in
    rw h (rw fresh refl)

-- What a sweep leaves of one entry.
abbrev kept_entry : ConnectionGuardOptions → ℕ → Option Bucket → Option Bucket
kept_entry o now entry = elim entry [
  | none ↦ none
  | some b ↦ if is_evicted o now b then none else some b
]

kept_entry-same :
    (o : ConnectionGuardOptions) (now later : ℕ) (entry : Option Bucket)
    → now ≤ later
    → consume_input_budget
        (limit_of o)
        later
        (bucket_or_new (limit_of o) later (kept_entry o now entry))
      ≡ consume_input_budget (limit_of o) later (bucket_or_new (limit_of o) later entry)
kept_entry-same o now later none h = refl
kept_entry-same o now later (some b) h =
    if_elim
      (λ (e : Option Bucket).
        consume_input_budget (limit_of o) later (bucket_or_new (limit_of o) later e)
        ≡ consume_input_budget (limit_of o) later b)
      (is_evicted o now b)
      (λ evicted. sym (same_as_new (limit_of o) later b (refilled_later o now later b h evicted)))
      (λ kept. refl)

-- Sweeping out idle buckets gives nobody credit: whatever the address, its next attempt at any later time is
-- decided as if nothing had been swept, and leaves it the same bucket.
pub sweep_harmless :
    (o : ConnectionGuardOptions) (now later address : ℕ) (buckets : Budgets)
    → now ≤ later
    → ((try_consume o address later (sweep o now buckets)).0
        ≡ (try_consume o address later buckets).0)
      × ((try_consume o address later (sweep o now buckets)).1 address
          ≡ (try_consume o address later buckets).1 address)
unfolding try_consume sweep
sweep_harmless o now later address buckets h =
    let same = kept_entry-same o now later (buckets address) h in
    (
      ap (λ (r : Bool × Bucket). r.0) same,
      ap
            (λ (r : Bool × Bucket).
              if address == address then some r.1 else sweep o now buckets address)
            same
          ∙ rw (==_refl address) refl,
    )
