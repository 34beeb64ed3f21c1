-- ===== src/Solana/Declared.antt =====
-- The accounts that the program declares for each instruction (programs/programs/arena/src/instructions,
-- the fields of its `Accounts` structures in their order) against those that the client of
-- packages/solana/src/instructions.ts sends: the program takes them by position.
use solana_snake_arena.Base.{
  ◌≤◌, ◌≡◌, Bool, true, false, ◌&&◌, ◌||◌, not, List, [], ◌∷◌, length, map, All,
}
use solana_snake_arena.Base.Int.{ℤ}
use solana_snake_arena.Solana.Encode.{Bytes, PublicKey, Web3, Outcome, JsNumber}
use solana_snake_arena.Solana.RoundTrip.{fits_u64}
use solana_snake_arena.Solana.Arguments.{Fits, UpdateFits}
use solana_snake_arena.Solana.Instructions.{
  AccountMeta, TransactionInstruction, ConfigUpdate, create_deposit_instruction,
  create_withdraw_instruction, create_initialize_instruction, create_update_config_instruction,
  create_withdraw_treasury_instruction, create_join_room_instruction,
  create_lock_entry_fee_instruction, create_enter_room_instruction,
}
use solana_snake_arena.Solana.Payouts.{WinnerPayout, create_distribute_winnings_instruction}
use solana_snake_arena.Solana.Distribution.{is_payable}
use solana_snake_arena.Solana.Rooms.{
  create_room_instruction, create_start_room_instruction, create_unlock_prize_instruction,
  create_cancel_room_instruction, create_claim_refund_instruction,
  create_settle_to_winner_instruction, create_close_room_instruction,
  create_close_room_player_instruction,
}

-- What the program asks of an account: that it signs, and that it may be written.
pub record Asks : Type 0 where
  pub signs : Bool
  pub writes : Bool

abbrev pub plain : Asks
plain = record { signs = false; writes = false }

abbrev pub mutable : Asks
mutable = record { signs = false; writes = true }

abbrev pub signed_by : Asks
signed_by = record { signs = true; writes = false }

abbrev pub payer : Asks
payer = record { signs = true; writes = true }

abbrev pub allows : AccountMeta → Asks → Bool
allows meta asks = (not asks.signs || meta.is_signer) && (not asks.writes || meta.is_writable)

-- As many accounts, each with what the program asks of it.
unfoldable pub covers : List AccountMeta → List Asks → Bool
covers [] [] = true
covers (meta ∷ metas) (a ∷ asks) = allows meta a && covers metas asks
covers _ _ = false

pub data Call : Type 0 where
  deposit : (player : PublicKey) (lamports : ℤ) → Call
  withdraw : (player : PublicKey) (lamports : ℤ) → Call
  initialize :
      (admin settlement_authority fee_destination : PublicKey)
      (fee_bps withdrawal_fee_bps : JsNumber)
      → Call
  update_config : (admin : PublicKey) (update : ConfigUpdate) → Call
  withdraw_treasury : (admin destination : PublicKey) (lamports : ℤ) → Call
  create_room :
      (settlement_authority : PublicKey) (room_id : Bytes) (entry_fee : ℤ) (max_players : JsNumber)
      → Call
  join_room : (player : PublicKey) (room_id : Bytes) → Call
  lock_entry_fee : (player : PublicKey) (room_id : Bytes) → Call
  start_room : (settlement_authority : PublicKey) (room_id : Bytes) → Call
  unlock_prize : (settlement_authority : PublicKey) (room_id : Bytes) → Call
  cancel_room : (caller : PublicKey) (room_id : Bytes) → Call
  claim_refund : (player claimant : PublicKey) (room_id : Bytes) → Call
  settle_to_winner :
      (settlement_authority fee_destination winner : PublicKey) (room_id : Bytes) → Call
  enter_room : (player : PublicKey) (room_id : Bytes) → Call
  distribute_winnings :
      (settlement_authority : PublicKey) (room_id : Bytes) (winners : List WinnerPayout) → Call
  close_room : (settlement_authority : PublicKey) (room_id : Bytes) → Call
  close_room_player : (player : PublicKey) (room_id : Bytes) → Call

unfoldable pub build : Web3 → PublicKey → Call → Outcome TransactionInstruction
build web3 program_id (deposit player lamports) =
    create_deposit_instruction web3 program_id player lamports
build web3 program_id (withdraw player lamports) =
    create_withdraw_instruction web3 program_id player lamports
build web3 program_id
      (initialize admin settlement_authority fee_destination fee_bps withdrawal_fee_bps) =
    create_initialize_instruction web3 program_id admin settlement_authority fee_destination fee_bps
      withdrawal_fee_bps
build web3 program_id (update_config admin update) =
    create_update_config_instruction web3 program_id admin update
build web3 program_id (withdraw_treasury admin destination lamports) =
    create_withdraw_treasury_instruction web3 program_id admin destination lamports
build web3 program_id (create_room settlement_authority room_id entry_fee max_players) =
    create_room_instruction web3 program_id settlement_authority room_id entry_fee max_players
build web3 program_id (join_room player room_id) =
    create_join_room_instruction web3 program_id player room_id
build web3 program_id (lock_entry_fee player room_id) =
    create_lock_entry_fee_instruction web3 program_id player room_id
build web3 program_id (start_room settlement_authority room_id) =
    create_start_room_instruction web3 program_id settlement_authority room_id
build web3 program_id (unlock_prize settlement_authority room_id) =
    create_unlock_prize_instruction web3 program_id settlement_authority room_id
build web3 program_id (cancel_room caller room_id) =
    create_cancel_room_instruction web3 program_id caller room_id
build web3 program_id (claim_refund player claimant room_id) =
    create_claim_refund_instruction web3 program_id player claimant room_id
build web3 program_id (settle_to_winner settlement_authority fee_destination winner room_id) =
    create_settle_to_winner_instruction web3 program_id settlement_authority fee_destination winner
      room_id
build web3 program_id (enter_room player room_id) =
    create_enter_room_instruction web3 program_id player room_id
build web3 program_id (distribute_winnings settlement_authority room_id winners) =
    create_distribute_winnings_instruction web3 program_id settlement_authority room_id winners
build web3 program_id (close_room settlement_authority room_id) =
    create_close_room_instruction web3 program_id settlement_authority room_id
build web3 program_id (close_room_player player room_id) =
    create_close_room_player_instruction web3 program_id player room_id

-- After the accounts of its structure, a distribution takes two that it writes for each winner.
unfoldable pub winners_ask : List WinnerPayout → List Asks
winners_ask [] = []
winners_ask (w ∷ winners) = mutable ∷ mutable ∷ winners_ask winners

unfoldable pub declared : Call → List Asks
declared (deposit player lamports) = plain ∷ mutable ∷ mutable ∷ payer ∷ plain ∷ []
declared (withdraw player lamports) = plain ∷ mutable ∷ mutable ∷ mutable ∷ payer ∷ plain ∷ []
declared (initialize admin settlement_authority fee_destination fee_bps withdrawal_fee_bps) =
    mutable ∷ mutable ∷ mutable ∷ payer ∷ plain ∷ []
declared (update_config admin update) = mutable ∷ payer ∷ []
declared (withdraw_treasury admin destination lamports) =
    plain ∷ mutable ∷ mutable ∷ signed_by ∷ plain ∷ []
declared (create_room settlement_authority room_id entry_fee max_players) =
    mutable ∷ mutable ∷ mutable ∷ payer ∷ plain ∷ []
declared (join_room player room_id) = plain ∷ mutable ∷ mutable ∷ mutable ∷ payer ∷ plain ∷ []
declared (lock_entry_fee player room_id) =
    plain ∷ mutable ∷ mutable ∷ mutable ∷ mutable ∷ mutable ∷ signed_by ∷ plain ∷ []
declared (start_room settlement_authority room_id) = plain ∷ mutable ∷ signed_by ∷ []
declared (unlock_prize settlement_authority room_id) = plain ∷ mutable ∷ signed_by ∷ []
declared (cancel_room caller room_id) = plain ∷ mutable ∷ signed_by ∷ []
declared (claim_refund player claimant room_id) =
    plain ∷ mutable ∷ mutable ∷ mutable ∷ mutable ∷ mutable ∷ plain ∷ payer ∷ plain ∷ []
declared (settle_to_winner settlement_authority fee_destination winner room_id) =
    plain ∷ mutable ∷ mutable ∷ mutable ∷ mutable ∷ mutable ∷ signed_by ∷ plain ∷ []
declared (enter_room player room_id) = plain ∷ mutable ∷ mutable ∷ mutable ∷ payer ∷ plain ∷ []
declared (distribute_winnings settlement_authority room_id winners) =
    plain ∷ mutable ∷ mutable ∷ mutable ∷ mutable ∷ signed_by ∷ plain ∷ winners_ask winners
declared (close_room settlement_authority room_id) = plain ∷ mutable ∷ mutable ∷ mutable ∷ []
declared (close_room_player player room_id) = plain ∷ mutable ∷ mutable ∷ []

-- The calls that take a seat and pay for it at once.
abbrev pub is_entry : Call → Bool
is_entry (enter_room player room_id) = true
is_entry _ = false

-- Arguments in their ranges.
abbrev pub IsFine : Call → Type 0
IsFine (deposit player lamports) = fits_u64 lamports ≡ true
IsFine (withdraw player lamports) = fits_u64 lamports ≡ true
IsFine (initialize admin settlement_authority fee_destination fee_bps withdrawal_fee_bps) =
    (Fits fee_bps) × (Fits withdrawal_fee_bps)
IsFine (update_config admin update) = UpdateFits update
IsFine (withdraw_treasury admin destination lamports) = fits_u64 lamports ≡ true
IsFine (create_room settlement_authority room_id entry_fee max_players) =
    (length room_id ≤ 16) × (fits_u64 entry_fee ≡ true) × (Fits max_players)
IsFine (join_room player room_id) = length room_id ≤ 16
IsFine (lock_entry_fee player room_id) = length room_id ≤ 16
IsFine (start_room settlement_authority room_id) = length room_id ≤ 16
IsFine (unlock_prize settlement_authority room_id) = length room_id ≤ 16
IsFine (cancel_room caller room_id) = length room_id ≤ 16
IsFine (claim_refund player claimant room_id) = length room_id ≤ 16
IsFine (settle_to_winner settlement_authority fee_destination winner room_id) = length room_id ≤ 16
IsFine (enter_room player room_id) = length room_id ≤ 16
IsFine (distribute_winnings settlement_authority room_id winners) =
    (length room_id ≤ 16)
    × (is_payable winners ≡ true)
    × All (λ (z : ℤ). fits_u64 z ≡ true) (map (λ (w : WinnerPayout). w.lamports) winners)
IsFine (close_room settlement_authority room_id) = length room_id ≤ 16
IsFine (close_room_player player room_id) = length room_id ≤ 16
