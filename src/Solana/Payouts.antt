-- ===== src/Solana/Payouts.antt =====
-- Payouts and fees of the client (packages/solana/src/instructions.ts: `createDistributeWinningsInstruction`,
-- `splitWithdrawal`). Two keys are one when their bytes are: base 58 is one to one.
use solana_snake_arena.Base.{
  ℕ, ◌*◌, ◌/◌, Bool, true, false, ◌&&◌, ◌||◌, ltb, List, [], ◌∷◌, length, any, map, ◌==◌,
  if◌then◌else◌,
}
use solana_snake_arena.Base.Int.{ℤ, pos, pos_part, ◌-ℤ◌, leb_ℤ, ltb_ℤ}
use solana_snake_arena.Solana.Encode.{
  Bytes, PublicKey, Web3, Outcome, JsNumber, whole, fraction, built, throws, ◌>>=◌, no_winners,
  too_many_winners, duplicate_winner, zero_payout, negative_withdrawal, bad_withdrawal_fee,
  encode_u64, encode_vec, encode_instruction,
}
use solana_snake_arena.Solana.Pda.{
  normalize_room_id, find_config_pda, find_pool_pda, find_treasury_pda, find_player_pda,
  find_room_pda, find_room_vault_pda, find_room_player_pda,
}
use solana_snake_arena.Solana.Instructions.{
  AccountMeta, TransactionInstruction, readonly, writable, signer,
}

pub record WinnerPayout : Type 0 where
  pub player : PublicKey
  pub lamports : ℤ

abbrev pub max_winners_per_distribution : ℕ
max_winners_per_distribution = 8

unfoldable pub same_key : PublicKey → PublicKey → Bool
same_key [] [] = true
same_key (a ∷ xs) (b ∷ ys) = a == b && same_key xs ys
same_key _ _ = false

-- The loop over the winners; `seen` holds the players met so far.
unfoldable pub check_winners : List PublicKey → List WinnerPayout → Outcome (Unit {0})
check_winners seen [] = built tt
check_winners seen (w ∷ winners) =
    let rest = check_winners (w.player ∷ seen) winners in
    if any (same_key w.player) seen
    then throws duplicate_winner
    else if leb_ℤ w.lamports (pos 0)
    then throws zero_payout
    else rest

abbrev pub validate_winners : List WinnerPayout → Outcome (Unit {0})
validate_winners winners =
    if length winners == 0
    then throws no_winners
    else if ltb max_winners_per_distribution (length winners)
    then throws too_many_winners
    else check_winners [] winners

module _ (web3 : Web3) (program_id : PublicKey) where
  unfoldable pub winner_accounts : PublicKey → List WinnerPayout → List AccountMeta
  winner_accounts room [] = []
  winner_accounts room (w ∷ winners) =
      writable (find_room_player_pda web3 program_id room w.player).address
      ∷ writable (find_player_pda web3 program_id w.player).address
      ∷ winner_accounts room winners

  unfoldable pub create_distribute_winnings_instruction :
      PublicKey → Bytes → List WinnerPayout → Outcome TransactionInstruction
  create_distribute_winnings_instruction settlement_authority room_id winners = do
    checked ← validate_winners winners
    id ← normalize_room_id room_id
    room ← find_room_pda web3 program_id id
    room_vault ← find_room_vault_pda web3 program_id id
    payouts ← encode_vec encode_u64 (map (λ (w : WinnerPayout). w.lamports) winners)
    built (record {
      program_id = program_id;
      keys =
          readonly (find_config_pda web3 program_id).address
          ∷ writable room.address
          ∷ writable room_vault.address
          ∷ writable (find_pool_pda web3 program_id).address
          ∷ writable (find_treasury_pda web3 program_id).address
          ∷ signer settlement_authority false
          ∷ readonly web3.system_program
          ∷ winner_accounts room.address winners;
      bytes = encode_instruction web3 "distribute_winnings" payouts;
    })

pub record WithdrawalSplit : Type 0 where
  pub gross : ℤ
  pub fee : ℤ
  pub net : ℤ

abbrev pub bps_denominator : ℕ
bps_denominator = 10_000

abbrev pub max_withdrawal_fee_bps : ℕ
max_withdrawal_fee_bps = 200

-- A fraction is refused by the check of the range or, within it, by `BigInt`: `bad_withdrawal_fee` is both.
unfoldable pub split_withdrawal : ℤ → JsNumber → Outcome WithdrawalSplit
split_withdrawal gross_lamports fraction =
    if ltb_ℤ gross_lamports (pos 0) then throws negative_withdrawal else throws bad_withdrawal_fee
split_withdrawal gross_lamports (whole withdrawal_fee_bps) =
    if ltb_ℤ gross_lamports (pos 0)
    then throws negative_withdrawal
    else if ltb_ℤ withdrawal_fee_bps (pos 0)
        || ltb_ℤ (pos max_withdrawal_fee_bps) withdrawal_fee_bps
    then throws bad_withdrawal_fee
    else (let fee = pos (pos_part gross_lamports * pos_part withdrawal_fee_bps / bps_denominator) in
        built (record { gross = gross_lamports; fee = fee; net = gross_lamports -ℤ fee }))
