-- ===== src/Solana/Instructions.antt =====
-- Instruction builders, those of a player and of the administrator (packages/solana/src/instructions.ts).
use solana_snake_arena.Base.{Bool, true, false, Option, List, [], ◌∷◌, ◌++◌}
use solana_snake_arena.Base.Int.{ℤ}
use solana_snake_arena.Solana.Encode.{
  Bytes, PublicKey, Web3, Outcome, built, ◌>>=◌, JsNumber, encode_u64, encode_u16, encode_bool,
  encode_pubkey, encode_option, encode_instruction,
}
use solana_snake_arena.Solana.Pda.{
  normalize_room_id, find_config_pda, find_pool_pda, find_treasury_pda, find_player_pda,
  find_room_pda, find_room_vault_pda, find_room_player_pda,
}

pub record AccountMeta : Type 0 where
  pub pubkey : PublicKey
  pub is_signer : Bool
  pub is_writable : Bool

pub record TransactionInstruction : Type 0 where
  pub program_id : PublicKey
  pub keys : List AccountMeta
  pub bytes : Bytes

abbrev pub readonly : PublicKey → AccountMeta
readonly key = record { pubkey = key; is_signer = false; is_writable = false }

abbrev pub writable : PublicKey → AccountMeta
writable key = record { pubkey = key; is_signer = false; is_writable = true }

abbrev pub signer : PublicKey → Bool → AccountMeta
signer key is_writable = record { pubkey = key; is_signer = true; is_writable = is_writable }

-- The optional fields of an update.
pub record ConfigUpdate : Type 0 where
  pub fee_bps : Option JsNumber
  pub withdrawal_fee_bps : Option JsNumber
  pub settlement_authority : Option PublicKey
  pub fee_destination : Option PublicKey
  pub paused : Option Bool

module _ (web3 : Web3) (program_id : PublicKey) where
  unfoldable pub create_deposit_instruction : PublicKey → ℤ → Outcome TransactionInstruction
  create_deposit_instruction player lamports = do
    amount ← encode_u64 lamports
    built (record {
      program_id = program_id;
      keys =
          readonly (find_config_pda web3 program_id).address
          ∷ writable (find_player_pda web3 program_id player).address
          ∷ writable (find_pool_pda web3 program_id).address
          ∷ signer player true
          ∷ readonly web3.system_program
          ∷ [];
      bytes = encode_instruction web3 "deposit" amount;
    })

  unfoldable pub create_withdraw_instruction : PublicKey → ℤ → Outcome TransactionInstruction
  create_withdraw_instruction player lamports = do
    amount ← encode_u64 lamports
    built (record {
      program_id = program_id;
      keys =
          readonly (find_config_pda web3 program_id).address
          ∷ writable (find_player_pda web3 program_id player).address
          ∷ writable (find_pool_pda web3 program_id).address
          ∷ writable (find_treasury_pda web3 program_id).address
          ∷ signer player true
          ∷ readonly web3.system_program
          ∷ [];
      bytes = encode_instruction web3 "withdraw" amount;
    })

  unfoldable pub create_initialize_instruction :
      PublicKey → PublicKey → PublicKey → JsNumber → JsNumber → Outcome TransactionInstruction
  create_initialize_instruction admin settlement_authority fee_destination fee_bps
        withdrawal_fee_bps =
      do
        fee ← encode_u16 fee_bps
        withdrawal_fee ← encode_u16 withdrawal_fee_bps
        built (record {
          program_id = program_id;
          keys =
              writable (find_config_pda web3 program_id).address
              ∷ writable (find_pool_pda web3 program_id).address
              ∷ writable (find_treasury_pda web3 program_id).address
              ∷ signer admin true
              ∷ readonly web3.system_program
              ∷ [];
          bytes =
              encode_instruction web3 "initialize"
                (settlement_authority ++ (fee_destination ++ (fee ++ withdrawal_fee)));
        })

  unfoldable pub create_update_config_instruction :
      PublicKey → ConfigUpdate → Outcome TransactionInstruction
  create_update_config_instruction admin update = do
    fee ← encode_option encode_u16 update.fee_bps
    withdrawal_fee ← encode_option encode_u16 update.withdrawal_fee_bps
    authority ← encode_option encode_pubkey update.settlement_authority
    destination ← encode_option encode_pubkey update.fee_destination
    paused ← encode_option encode_bool update.paused
    built (record {
      program_id = program_id;
      keys = writable (find_config_pda web3 program_id).address ∷ signer admin true ∷ [];
      bytes =
          encode_instruction web3 "update_config"
            (fee ++ (withdrawal_fee ++ (authority ++ (destination ++ paused))));
    })

  unfoldable pub create_join_room_instruction : PublicKey → Bytes → Outcome TransactionInstruction
  create_join_room_instruction player room_id = do
    id ← normalize_room_id room_id
    room ← find_room_pda web3 program_id id
    built (record {
      program_id = program_id;
      keys =
          readonly (find_config_pda web3 program_id).address
          ∷ writable room.address
          ∷ writable (find_room_player_pda web3 program_id room.address player).address
          ∷ writable (find_player_pda web3 program_id player).address
          ∷ signer player true
          ∷ readonly web3.system_program
          ∷ [];
      bytes = encode_instruction web3 "join_room" [];
    })

  unfoldable pub create_lock_entry_fee_instruction :
      PublicKey → Bytes → Outcome TransactionInstruction
  create_lock_entry_fee_instruction player room_id = do
    id ← normalize_room_id room_id
    room ← find_room_pda web3 program_id id
    room_vault ← find_room_vault_pda web3 program_id id
    built (record {
      program_id = program_id;
      keys =
          readonly (find_config_pda web3 program_id).address
          ∷ writable room.address
          ∷ writable (find_room_player_pda web3 program_id room.address player).address
          ∷ writable (find_player_pda web3 program_id player).address
          ∷ writable (find_pool_pda web3 program_id).address
          ∷ writable room_vault.address
          ∷ signer player false
          ∷ readonly web3.system_program
          ∷ [];
      bytes = encode_instruction web3 "lock_entry_fee" [];
    })

  unfoldable pub create_withdraw_treasury_instruction :
      PublicKey → PublicKey → ℤ → Outcome TransactionInstruction
  create_withdraw_treasury_instruction admin destination lamports = do
    amount ← encode_u64 lamports
    built (record {
      program_id = program_id;
      keys =
          readonly (find_config_pda web3 program_id).address
          ∷ writable (find_treasury_pda web3 program_id).address
          ∷ writable destination
          ∷ signer admin false
          ∷ readonly web3.system_program
          ∷ [];
      bytes = encode_instruction web3 "withdraw_treasury" amount;
    })

  unfoldable pub create_enter_room_instruction : PublicKey → Bytes → Outcome TransactionInstruction
  create_enter_room_instruction player room_id = do
    id ← normalize_room_id room_id
    room ← find_room_pda web3 program_id id
    room_vault ← find_room_vault_pda web3 program_id id
    built (record {
      program_id = program_id;
      keys =
          readonly (find_config_pda web3 program_id).address
          ∷ writable room.address
          ∷ writable (find_room_player_pda web3 program_id room.address player).address
          ∷ writable room_vault.address
          ∷ signer player false
          ∷ readonly web3.system_program
          ∷ [];
      bytes = encode_instruction web3 "enter_room" [];
    })
