-- ===== src/Solana/Rooms.antt =====
-- Instruction builders, those of a room up to its end (packages/solana/src/instructions.ts).
use solana_snake_arena.Base.{true, false, [], ◌∷◌, ◌++◌}
use solana_snake_arena.Base.Int.{ℤ}
use solana_snake_arena.Solana.Encode.{
  Bytes, PublicKey, Web3, Outcome, built, ◌>>=◌, JsNumber, encode_u64, encode_u16,
  encode_fixed_bytes, encode_instruction,
}
use solana_snake_arena.Solana.Pda.{
  normalize_room_id, room_id_len, find_config_pda, find_pool_pda, find_player_pda, find_room_pda,
  find_room_vault_pda, find_room_player_pda,
}
use solana_snake_arena.Solana.Instructions.{TransactionInstruction, readonly, writable, signer}

module _ (web3 : Web3) (program_id : PublicKey) where
  unfoldable pub create_room_instruction :
      PublicKey → Bytes → ℤ → JsNumber → Outcome TransactionInstruction
  create_room_instruction settlement_authority room_id entry_fee_lamports max_players = do
    id ← normalize_room_id room_id
    room ← find_room_pda web3 program_id id
    room_vault ← find_room_vault_pda web3 program_id id
    raw ← encode_fixed_bytes id room_id_len
    fee ← encode_u64 entry_fee_lamports
    seats ← encode_u16 max_players
    built (record {
      program_id = program_id;
      keys =
          writable (find_config_pda web3 program_id).address
          ∷ writable room.address
          ∷ writable room_vault.address
          ∷ signer settlement_authority true
          ∷ readonly web3.system_program
          ∷ [];
      bytes = encode_instruction web3 "create_room" (raw ++ (fee ++ seats));
    })

  unfoldable pub create_start_room_instruction : PublicKey → Bytes → Outcome TransactionInstruction
  create_start_room_instruction settlement_authority room_id = do
    id ← normalize_room_id room_id
    room ← find_room_pda web3 program_id id
    built (record {
      program_id = program_id;
      keys =
          readonly (find_config_pda web3 program_id).address
          ∷ writable room.address
          ∷ signer settlement_authority false
          ∷ [];
      bytes = encode_instruction web3 "start_room" [];
    })

  unfoldable pub create_unlock_prize_instruction :
      PublicKey → Bytes → Outcome TransactionInstruction
  create_unlock_prize_instruction settlement_authority room_id = do
    id ← normalize_room_id room_id
    room ← find_room_pda web3 program_id id
    built (record {
      program_id = program_id;
      keys =
          readonly (find_config_pda web3 program_id).address
          ∷ writable room.address
          ∷ signer settlement_authority false
          ∷ [];
      bytes = encode_instruction web3 "unlock_prize" [];
    })

  unfoldable pub create_cancel_room_instruction : PublicKey → Bytes → Outcome TransactionInstruction
  create_cancel_room_instruction caller room_id = do
    id ← normalize_room_id room_id
    room ← find_room_pda web3 program_id id
    built (record {
      program_id = program_id;
      keys =
          readonly (find_config_pda web3 program_id).address
          ∷ writable room.address
          ∷ signer caller false
          ∷ [];
      bytes = encode_instruction web3 "cancel_room" [];
    })

  unfoldable pub create_claim_refund_instruction :
      PublicKey → PublicKey → Bytes → Outcome TransactionInstruction
  create_claim_refund_instruction player claimant room_id = do
    id ← normalize_room_id room_id
    room ← find_room_pda web3 program_id id
    room_vault ← find_room_vault_pda web3 program_id id
    built (record {
      program_id = program_id;
      keys =
          readonly (find_config_pda web3 program_id).address
          ∷ writable room.address
          ∷ writable (find_room_player_pda web3 program_id room.address player).address
          ∷ writable (find_player_pda web3 program_id player).address
          ∷ writable room_vault.address
          ∷ writable (find_pool_pda web3 program_id).address
          ∷ readonly player
          ∷ signer claimant true
          ∷ readonly web3.system_program
          ∷ [];
      bytes = encode_instruction web3 "claim_refund" [];
    })

  unfoldable pub create_settle_to_winner_instruction :
      PublicKey → PublicKey → PublicKey → Bytes → Outcome TransactionInstruction
  create_settle_to_winner_instruction settlement_authority fee_destination winner room_id = do
    id ← normalize_room_id room_id
    room ← find_room_pda web3 program_id id
    room_vault ← find_room_vault_pda web3 program_id id
    built (record {
      program_id = program_id;
      keys =
          readonly (find_config_pda web3 program_id).address
          ∷ writable room.address
          ∷ writable room_vault.address
          ∷ writable (find_room_player_pda web3 program_id room.address winner).address
          ∷ writable winner
          ∷ writable fee_destination
          ∷ signer settlement_authority false
          ∷ readonly web3.system_program
          ∷ [];
      bytes = encode_instruction web3 "settle_to_winner" [];
    })

  unfoldable pub create_close_room_instruction : PublicKey → Bytes → Outcome TransactionInstruction
  create_close_room_instruction settlement_authority room_id = do
    id ← normalize_room_id room_id
    room ← find_room_pda web3 program_id id
    room_vault ← find_room_vault_pda web3 program_id id
    built (record {
      program_id = program_id;
      keys =
          readonly (find_config_pda web3 program_id).address
          ∷ writable room.address
          ∷ writable room_vault.address
          ∷ writable settlement_authority
          ∷ [];
      bytes = encode_instruction web3 "close_room" [];
    })

  unfoldable pub create_close_room_player_instruction :
      PublicKey → Bytes → Outcome TransactionInstruction
  create_close_room_player_instruction player room_id = do
    id ← normalize_room_id room_id
    room ← find_room_pda web3 program_id id
    built (record {
      program_id = program_id;
      keys =
          readonly room.address
          ∷ writable (find_room_player_pda web3 program_id room.address player).address
          ∷ writable player
          ∷ [];
      bytes = encode_instruction web3 "close_room_player" [];
    })
