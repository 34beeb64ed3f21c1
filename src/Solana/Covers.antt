-- ===== src/Solana/Covers.antt =====
-- The accounts of every instruction of the client (packages/solana/src/instructions.ts) against those that
-- the program declares.
use solana_snake_arena.Base.{
  ◌≤◌, ◌≡◌, refl, ◌∙◌, map, true, not, List, [], ◌∷◌, length, arith, if_elim, ◌==◌,
}
use solana_snake_arena.Solana.Encode.{
  Bytes, PublicKey, Pda, Web3, Outcome, ◌>>=◌, encode_u64, encode_u16, encode_fixed_bytes,
  encode_vec, encode_option, encode_pubkey, encode_bool,
}
use solana_snake_arena.Solana.Pda.{
  normalize_room_id, room_id_len, find_room_pda, find_room_vault_pda,
}
use solana_snake_arena.Solana.Reader.{read_word, read_vec}
use solana_snake_arena.Solana.RoundTrip.{
  Reads, Succeeds, Succeeds-bind, encode_u64-Reads, encode_u16-Reads,
}
use solana_snake_arena.Solana.Arguments.{Optional-u16, Optional-key, Optional-bool}
use solana_snake_arena.Solana.Distribution.{
  normalize_room_id-Succeeds, is_built-Succeeds, validate_winners_built, amounts, amounts-Reads,
  find_room_pda-Succeeds, find_room_vault_pda-Succeeds,
}
use solana_snake_arena.Solana.Instructions.{
  TransactionInstruction, create_deposit_instruction, create_withdraw_instruction,
  create_initialize_instruction, create_update_config_instruction,
  create_withdraw_treasury_instruction, create_join_room_instruction,
  create_lock_entry_fee_instruction, create_enter_room_instruction,
}
use solana_snake_arena.Solana.Payouts.{
  WinnerPayout, winner_accounts, validate_winners, create_distribute_winnings_instruction,
}
use solana_snake_arena.Solana.Rooms.{
  create_room_instruction, create_start_room_instruction, create_unlock_prize_instruction,
  create_cancel_room_instruction, create_claim_refund_instruction,
  create_settle_to_winner_instruction, create_close_room_instruction,
  create_close_room_player_instruction,
}
use solana_snake_arena.Solana.Declared.{
  covers, Call, deposit, withdraw, initialize, update_config, withdraw_treasury, create_room,
  join_room, lock_entry_fee, start_room, unlock_prize, cancel_room, claim_refund, settle_to_winner,
  enter_room, distribute_winnings, close_room, close_room_player, build, declared, IsFine, is_entry,
  winners_ask,
}

abbrev Covered : Call → TransactionInstruction → Type 0
Covered call ix = covers ix.keys (declared call) ≡ not (is_entry call)

with_room :
    (Q : TransactionInstruction → Type 0) (web3 : Web3) (program_id : PublicKey) (room_id : Bytes)
    (k : Bytes → Pda → Outcome TransactionInstruction)
    → length room_id ≤ 16
    → ((id : Bytes) (room : Pda) → length id ≡ 16 → Succeeds Q (k id room))
    → Succeeds Q (normalize_room_id room_id >>= λ id. find_room_pda web3 program_id id >>= k id)
with_room Q web3 program_id room_id k short next =
    Succeeds-bind (λ (id : Bytes). length id ≡ 16) Q (normalize_room_id room_id) _
      (normalize_room_id-Succeeds room_id short)
      (λ id fits.
        Succeeds-bind (λ (p : Pda). Unit) Q (find_room_pda web3 program_id id) (k id)
          (find_room_pda-Succeeds web3 program_id id fits) (λ room u. next id room fits))

fixed-Succeeds :
    (id : Bytes)
    → length id ≡ 16
    → Succeeds (λ (raw : Bytes). Unit) (encode_fixed_bytes id room_id_len)
unfolding encode_fixed_bytes
fixed-Succeeds id exact =
    if_elim (Succeeds (λ (raw : Bytes). Unit)) (not (length id == room_id_len))
      (λ other. ground (arith, exact)) (λ same. tt)

with_vault :
    (Q : TransactionInstruction → Type 0) (web3 : Web3) (program_id : PublicKey) (id : Bytes)
    (k : Pda → Outcome TransactionInstruction)
    → length id ≡ 16
    → ((vault : Pda) → Succeeds Q (k vault))
    → Succeeds Q (find_room_vault_pda web3 program_id id >>= k)
with_vault Q web3 program_id id k short next =
    Succeeds-bind (λ (p : Pda). Unit) Q (find_room_vault_pda web3 program_id id) k
      (find_room_vault_pda-Succeeds web3 program_id id short) (λ vault u. next vault)

winners_covered :
    (web3 : Web3) (program_id room : PublicKey) (winners : List WinnerPayout)
    → covers (winner_accounts web3 program_id room winners) (winners_ask winners) ≡ true
unfolding covers winner_accounts winners_ask
winners_covered web3 program_id room [] = refl
winners_covered web3 program_id room (w ∷ winners) = winners_covered web3 program_id room winners

-- Whatever the call, of the seventeen that the client has, with a room id of at most 16 bytes and arguments
-- in their ranges (of a distribution, one to eight winners, none twice, with positive amounts), its
-- instruction is built. Except for the one that enters a room it has as many accounts as the program declares
-- for it, every account that must sign is a signer, and every account that is written to is writable; the one
-- that enters a room has accounts that fall short of this.
pub build-covers :
    (web3 : Web3) (program_id : PublicKey) (call : Call)
    → IsFine call
    → Succeeds
        (λ ix. covers ix.keys (declared call) ≡ not (is_entry call))
        (build web3 program_id call)
unfolding build declared covers create_deposit_instruction create_withdraw_instruction
    create_initialize_instruction create_update_config_instruction
    create_withdraw_treasury_instruction create_join_room_instruction
    create_lock_entry_fee_instruction create_room_instruction create_start_room_instruction
    create_unlock_prize_instruction create_cancel_room_instruction create_claim_refund_instruction
    create_settle_to_winner_instruction create_close_room_instruction
    create_close_room_player_instruction create_enter_room_instruction
    create_distribute_winnings_instruction
build-covers web3 program_id (deposit player lamports) h =
    Succeeds-bind _ (Covered (deposit player lamports)) (encode_u64 lamports) _
      (encode_u64-Reads lamports h) (λ amount reads. refl)
build-covers web3 program_id (withdraw player lamports) h =
    Succeeds-bind _ (Covered (withdraw player lamports)) (encode_u64 lamports) _
      (encode_u64-Reads lamports h) (λ amount reads. refl)
build-covers web3 program_id
      (initialize admin settlement_authority fee_destination fee_bps withdrawal_fee_bps) h =
    Succeeds-bind _
      (Covered (initialize admin settlement_authority fee_destination fee_bps withdrawal_fee_bps))
      (encode_u16 fee_bps) _ (encode_u16-Reads fee_bps h.0)
      (λ fee r.
        Succeeds-bind _
          (Covered
            (initialize admin settlement_authority fee_destination fee_bps withdrawal_fee_bps))
          (encode_u16 withdrawal_fee_bps) _ (encode_u16-Reads withdrawal_fee_bps h.1)
          (λ withdrawal_fee s. refl))
build-covers web3 program_id (update_config admin update) h =
    Succeeds-bind _ (Covered (update_config admin update)) (encode_option encode_u16 update.fee_bps)
      _ (Optional-u16 update.fee_bps h.fee)
      (λ a ra.
        Succeeds-bind _ (Covered (update_config admin update))
          (encode_option encode_u16 update.withdrawal_fee_bps) _
          (Optional-u16 update.withdrawal_fee_bps h.withdrawal_fee)
          (λ b rb.
            Succeeds-bind _ (Covered (update_config admin update))
              (encode_option encode_pubkey update.settlement_authority) _
              (Optional-key update.settlement_authority h.authority)
              (λ c rc.
                Succeeds-bind _ (Covered (update_config admin update))
                  (encode_option encode_pubkey update.fee_destination) _
                  (Optional-key update.fee_destination h.destination)
                  (λ d rd.
                    Succeeds-bind _ (Covered (update_config admin update))
                      (encode_option encode_bool update.paused) _ (Optional-bool update.paused)
                      (λ e re. refl)))))
build-covers web3 program_id (withdraw_treasury admin destination lamports) h =
    Succeeds-bind _ (Covered (withdraw_treasury admin destination lamports)) (encode_u64 lamports) _
      (encode_u64-Reads lamports h) (λ amount reads. refl)
build-covers web3 program_id (create_room settlement_authority room_id entry_fee max_players) h =
    with_room (Covered (create_room settlement_authority room_id entry_fee max_players)) web3
      program_id room_id _ h.0
      (λ id room fits.
        with_vault (Covered (create_room settlement_authority room_id entry_fee max_players)) web3
          program_id id _ fits
          (λ vault.
            Succeeds-bind (λ (raw : Bytes). Unit)
              (Covered (create_room settlement_authority room_id entry_fee max_players))
              (encode_fixed_bytes id room_id_len) _ (fixed-Succeeds id fits)
              (λ raw u.
                Succeeds-bind _
                  (Covered (create_room settlement_authority room_id entry_fee max_players))
                  (encode_u64 entry_fee) _ (encode_u64-Reads entry_fee h.1)
                  (λ fee r.
                    Succeeds-bind _
                      (Covered (create_room settlement_authority room_id entry_fee max_players))
                      (encode_u16 max_players) _ (encode_u16-Reads max_players h.2)
                      (λ seats s. refl)))))
build-covers web3 program_id (join_room player room_id) h =
    with_room (Covered (join_room player room_id)) web3 program_id room_id _ h
      (λ id room fits. refl)
build-covers web3 program_id (lock_entry_fee player room_id) h =
    with_room (Covered (lock_entry_fee player room_id)) web3 program_id room_id _ h (λ id room fits.
      with_vault (Covered (lock_entry_fee player room_id)) web3 program_id id _ fits
        (λ vault. refl))
build-covers web3 program_id (start_room settlement_authority room_id) h =
    with_room (Covered (start_room settlement_authority room_id)) web3 program_id room_id _ h
      (λ id room fits. refl)
build-covers web3 program_id (unlock_prize settlement_authority room_id) h =
    with_room (Covered (unlock_prize settlement_authority room_id)) web3 program_id room_id _ h
      (λ id room fits. refl)
build-covers web3 program_id (cancel_room caller room_id) h =
    with_room (Covered (cancel_room caller room_id)) web3 program_id room_id _ h
      (λ id room fits. refl)
build-covers web3 program_id (claim_refund player claimant room_id) h =
    with_room (Covered (claim_refund player claimant room_id)) web3 program_id room_id _ h
      (λ id room fits.
        with_vault (Covered (claim_refund player claimant room_id)) web3 program_id id _ fits
          (λ vault. refl))
build-covers web3 program_id (settle_to_winner settlement_authority fee_destination winner room_id)
      h =
    with_room (Covered (settle_to_winner settlement_authority fee_destination winner room_id)) web3
      program_id room_id _ h
      (λ id room fits.
        with_vault (Covered (settle_to_winner settlement_authority fee_destination winner room_id))
          web3 program_id id _ fits (λ vault. refl))
build-covers web3 program_id (enter_room player room_id) h =
    with_room (Covered (enter_room player room_id)) web3 program_id room_id _ h (λ id room fits.
      with_vault (Covered (enter_room player room_id)) web3 program_id id _ fits (λ vault. refl))
build-covers web3 program_id (distribute_winnings settlement_authority room_id winners) h =
    let goal = Covered (distribute_winnings settlement_authority room_id winners) in
    Succeeds-bind (λ (u : Unit {0}). Unit) goal (validate_winners winners) _
      (is_built-Succeeds (validate_winners winners) (validate_winners_built winners ∙ h.1))
      (λ checked u. with_room goal web3 program_id room_id _ h.0 (λ id room fits.
        with_vault goal web3 program_id id _ fits (λ vault.
          Succeeds-bind (Reads (read_vec (read_word 8)) (amounts winners)) goal
            (encode_vec encode_u64 (map (λ (w : WinnerPayout). w.lamports) winners)) _
            (amounts-Reads winners h.1 h.2)
            (λ payouts reads. winners_covered web3 program_id room.address winners))))
build-covers web3 program_id (close_room settlement_authority room_id) h =
    with_room (Covered (close_room settlement_authority room_id)) web3 program_id room_id _ h
      (λ id room fits.
        with_vault (Covered (close_room settlement_authority room_id)) web3 program_id id _ fits
          (λ vault. refl))
build-covers web3 program_id (close_room_player player room_id) h =
    with_room (Covered (close_room_player player room_id)) web3 program_id room_id _ h
      (λ id room fits. refl)
