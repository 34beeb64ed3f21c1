-- ===== src/Settlement/Payout/Shares.antt =====
-- Who is paid what (apps/worker/src/settlement/payout.ts).
use solana_snake_arena.Base.{
  ℕ, zero, suc, ◌*◌, ◌/◌, ◌≤◌, ◌≡◌, sym, ap, ◌∙◌, inl, inr, Bool-cases, true, false, List, [], ◌∷◌,
  arith, filter, length,
}
use solana_snake_arena.Base.Int.{
  ℤ, pos, negsuc, ◌+ℤ◌, ◌-ℤ◌, ◌<ℤ◌, ◌≤ℤ◌, ltb_ℤ, leb_ℤ, int_eq, int_eq→eq, sub_zero, int_laws,
}
use solana_snake_arena.Settlement.Standing.{
  ReportedStanding, placement_of, by_placement, sort_by-sorted, sort_by-IsSorted,
}
use solana_snake_arena.Settlement.Verify.{MatchResultReport, VerificationContext, verify_result}
use solana_snake_arena.Settlement.Verify.Winner.{HasWinner, verified_winner, verified-standings}
use solana_snake_arena.Settlement.Payout.{
  PayoutShare, table_for, allot, total_from, total_payout, give_remainder, compute_payouts,
  split_pot, within_transaction_limit,
}

-- The whole prize to one standing.
abbrev pub sole_payout : ReportedStanding → ℤ → List PayoutShare
sole_payout s prize =
    record { player_id = s.player_id; placement = s.placement; lamports = prize } ∷ []

pays_first :
    (w : ReportedStanding) (others : List ReportedStanding) (n : ℕ)
    → filter
        (λ p. ltb_ℤ (pos 0) p.lamports)
        (give_remainder
          (pos (suc n)
            -ℤ total_payout (allot (suc n) (w ∷ others) (table_for (length (w ∷ others)))))
          (allot (suc n) (w ∷ others) (table_for (length (w ∷ others)))))
      ≡ sole_payout w (pos (suc n))
unfolding allot table_for total_payout give_remainder ◌-ℤ◌ ◌+ℤ◌
pays_first w [] n = ground arith
pays_first w (o ∷ os) n = ground arith

-- Of standings in order, the first takes the whole prize, whatever its size, and nobody else is
-- paid.
compute_payouts-sorted :
    (w : ReportedStanding) (others : List ReportedStanding) (prize : ℤ)
    → pos 0 <ℤ prize
    → by_placement (w ∷ others) ≡ w ∷ others
    → compute_payouts (w ∷ others) prize ≡ sole_payout w prize
unfolding compute_payouts
compute_payouts-sorted w others (pos zero) h sorted = absurd (omega arith)
compute_payouts-sorted w others (pos (suc n)) h sorted =
    let positive : leb_ℤ (pos (suc n)) (pos 0) ≡ false = ground arith in
    rw (sorted, positive) (pays_first w others n)
compute_payouts-sorted w others (negsuc n) h sorted = absurd (omega arith)

-- A verified result pays the whole prize, to the lamport, to its winner, who is placed 1 and has
-- paid to enter; the payouts fit one transaction.
pub verified_payout :
    (report : MatchResultReport) (context : VerificationContext) (prize : ℤ)
    → (verify_result report context).ok ≡ true
    → pos 0 <ℤ prize
    → (w : HasWinner context (verify_result report context)) × (compute_payouts
          (verify_result report context).standings
          prize
        ≡ sole_payout w.winner prize)
      × (within_transaction_limit (compute_payouts (verify_result report context).standings prize)
          ≡ true)
unfolding within_transaction_limit by_placement
verified_payout report context prize ok h =
    let w : HasWinner context (verify_result report context) = verified_winner report context ok in
    let s : List ReportedStanding = report.standings in
    let is : w.winner ∷ w.others ≡ by_placement s =
      sym w.ranked ∙ verified-standings report context ok in
    let same : by_placement (w.winner ∷ w.others) ≡ w.winner ∷ w.others =
      ap by_placement is
      ∙ sort_by-sorted placement_of (by_placement s) (sort_by-IsSorted placement_of s)
      ∙ sym is in
    let paid : compute_payouts (verify_result report context).standings prize
        ≡ sole_payout w.winner prize =
      rw w.ranked (compute_payouts-sorted w.winner w.others prize h same) in
    (w, paid, rw paid)

total_from_add :
    (sum : ℤ) (ps : List PayoutShare) → total_from sum ps ≡ sum +ℤ total_from (pos 0) ps
unfolding total_from
total_from_add sum [] = omega int_laws
total_from_add sum (p ∷ ps) =
    rw (total_from_add (sum +ℤ p.lamports) ps)
      (rw (total_from_add (pos 0 +ℤ p.lamports) ps) (omega int_laws))

total_payout-cons :
    (p : PayoutShare) (ps : List PayoutShare)
    → total_payout (p ∷ ps) ≡ p.lamports +ℤ total_from (pos 0) ps
unfolding total_payout total_from
total_payout-cons p ps = rw (total_from_add (pos 0 +ℤ p.lamports) ps) (omega int_laws)

-- Handing the remainder to the first share makes any payouts add up to the prize, whatever the
-- table they came from rounded away.
pub give_remainder_exact :
    (prize : ℤ) (p : PayoutShare) (ps : List PayoutShare)
    → total_payout (give_remainder (prize -ℤ total_payout (p ∷ ps)) (p ∷ ps)) ≡ prize
unfolding give_remainder
give_remainder_exact prize p ps =
    let rest : ℤ = prize -ℤ total_payout (p ∷ ps) in
    elim (Bool-cases (int_eq rest (pos 0))) [
      | inl nothing ↦
          rw (nothing) (sub_zero prize (total_payout (p ∷ ps)) (int_eq→eq rest (pos 0) nothing))
      | inr some_left ↦
          rw some_left (rw (total_payout-cons _ ps) (rw (total_payout-cons p ps) (omega int_laws)))
    ]

-- The pot is split without loss: with a rake of at most the whole, the prize pool is not negative,
-- and prize pool and rake are the pot.
pub split_pot_exact :
    (pot rake_bps : ℕ)
    → rake_bps ≤ 10_000
    → (pos 0 ≤ℤ (split_pot pot rake_bps).0)
      × ((split_pot pot rake_bps).0 +ℤ pos (split_pot pot rake_bps).1 ≡ pos pot)
unfolding split_pot
split_pot_exact pot rake_bps h =
    let bound : pot * rake_bps ≤ pot * 10_000 = grind arith in
    let small : pot * rake_bps / 10_000 ≤ pot = omega (arith, bound) in
    (omega int_laws, omega int_laws)
