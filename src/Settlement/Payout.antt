-- ===== src/Settlement/Payout.antt =====
-- Splitting the pot and the prize (apps/worker/src/settlement/payout.ts). Pots are never negative;
-- a prize pool may be, where the rake exceeds the pot, so it and the shares are integers.
pub mod Shares
use solana_snake_arena.Base.{
  ℕ, ◌*◌, ◌/◌, Bool, not, ◌&&◌, ◌||◌, List, [], ◌∷◌, if◌then◌else◌, filter, length, leb,
}
use solana_snake_arena.Base.Int.{ℤ, pos, pos_part, ◌+ℤ◌, ◌-ℤ◌, ltb_ℤ, leb_ℤ, int_eq}
use solana_snake_arena.Settlement.Standing.{ReportedStanding, by_placement}
use solana_snake_arena.Settlement.Verify.{is_empty}

pub record PayoutShare : Type 0 where
  pub player_id : ℕ
  pub placement : ℤ
  pub lamports : ℤ

abbrev pub winner_share_bps : ℕ
winner_share_bps = 10_000

abbrev pub bps_denominator : ℕ
bps_denominator = 10_000

pub table_for : ℕ → List ℕ
table_for player_count = winner_share_bps ∷ []

-- The loop over the paid places: `ordered.slice(0, shares.length)` against the table. The prize is
-- positive here, so the division of `bigint`s is that of naturals.
pub allot : ℕ → List ReportedStanding → List ℕ → List PayoutShare
allot prize [] shares = []
allot prize (s ∷ ss) [] = []
allot prize (s ∷ ss) (bps ∷ shares) =
    record {
      player_id = s.player_id;
      placement = s.placement;
      lamports = pos (prize * bps / bps_denominator);
    }
    ∷ allot prize ss shares

pub total_from : ℤ → List PayoutShare → ℤ
total_from sum [] = sum
total_from sum (p ∷ ps) = total_from (sum +ℤ p.lamports) ps

pub total_payout : List PayoutShare → ℤ
unfolding total_from
total_payout = total_from (pos 0)

-- `payouts[0].lamports += remainder`
pub give_remainder : ℤ → List PayoutShare → List PayoutShare
give_remainder remainder [] = []
give_remainder remainder (p ∷ ps) =
    if int_eq remainder (pos 0)
    then p ∷ ps
    else record p { lamports = p.lamports +ℤ remainder } ∷ ps

pub compute_payouts : List ReportedStanding → ℤ → List PayoutShare
compute_payouts standings prize =
    if is_empty standings || leb_ℤ prize (pos 0)
    then []
    else (let ordered = by_placement standings in
        let payouts = allot (pos_part prize) ordered (table_for (length ordered)) in
        filter (λ p. ltb_ℤ (pos 0) p.lamports)
          (give_remainder (prize -ℤ total_payout payouts) payouts))

-- The prize pool and the rake.
pub split_pot : ℕ → ℕ → ℤ × ℕ
split_pot pot rake_bps = let rake = pot * rake_bps / bps_denominator in (pos pot -ℤ pos rake, rake)

abbrev pub max_winners_per_tx : ℕ
max_winners_per_tx = 8

pub within_transaction_limit : List PayoutShare → Bool
within_transaction_limit payouts = leb (length payouts) max_winners_per_tx
