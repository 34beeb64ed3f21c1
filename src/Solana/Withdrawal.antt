-- ===== src/Solana/Withdrawal.antt =====
-- The fee of a withdrawal (packages/solana/src/instructions.ts: `splitWithdrawal`).
use solana_snake_arena.Base.{
  ℕ, ◌+◌, ◌*◌, ◌/◌, ◌≤◌, ◌<◌, ◌≡◌, refl, Bool, false, ◌&&◌, ◌||◌, arith, if_elim,
}
use solana_snake_arena.Base.Int.{ℤ, pos, pos_part, ◌+ℤ◌, ltb_ℤ, leb_ℤ, ◌≤ℤ◌, int_laws}
use solana_snake_arena.Solana.Encode.{JsNumber, whole, fraction}
use solana_snake_arena.Solana.RoundTrip.{Succeeds}
use solana_snake_arena.Solana.Payouts.{WithdrawalSplit, split_withdrawal}
use solana_snake_arena.Solana.Distribution.{is_built}

-- A split of so much at a rate in basis points.
pub record IsSplit (gross bps : ℕ) (s : WithdrawalSplit) : Type 0 where
  pub gross_is : s.gross ≡ pos gross
  pub adds_up : s.fee +ℤ s.net ≡ pos gross
  pub net_left : pos 0 ≤ℤ s.net
  pub at_most : pos_part s.fee * 10_000 ≤ gross * bps
  pub rounded : gross * bps < pos_part s.fee * 10_000 + 10_000

-- A withdrawal of an amount that is not negative, at a rate of at most 200 basis points, is split into a
-- net payout, not negative, and a fee that together are the amount; the fee is the amount's share rounded
-- down.
pub split_withdrawal-IsSplit :
    (gross bps : ℕ)
    → bps ≤ 200
    → Succeeds (IsSplit gross bps) (split_withdrawal (pos gross) (whole (pos bps)))
unfolding split_withdrawal
split_withdrawal-IsSplit gross bps low =
    let bound : gross * bps ≤ gross * 200 = grind arith in
    let small : gross * bps / 10_000 ≤ gross = omega (arith, bound) in
    if_elim (Succeeds (IsSplit gross bps)) (ltb_ℤ (pos gross) (pos 0)) (λ negative. ground arith)
      (λ positive.
        if_elim (Succeeds (IsSplit gross bps))
          (ltb_ℤ (pos bps) (pos 0) || ltb_ℤ (pos 200) (pos bps)) (λ high. ground arith)
          (λ fair. record {
            gross_is = refl;
            adds_up = omega (int_laws);
            net_left = omega (int_laws);
            at_most = omega arith;
            rounded = omega arith;
          }))

abbrev pub is_rate : JsNumber → Bool
is_rate (whole bps) = leb_ℤ (pos 0) bps && leb_ℤ bps (pos 200)
is_rate fraction = false

-- A split is refused exactly when the amount is negative or the rate is not an integer between 0 and 200.
pub split_withdrawal_built :
    (gross : ℤ) (rate : JsNumber)
    → is_built (split_withdrawal gross rate) ≡ (leb_ℤ (pos 0) gross && is_rate rate)
unfolding split_withdrawal
split_withdrawal_built gross (whole bps) = ground arith
split_withdrawal_built gross fraction = ground arith
