-- ===== src/Solana/Pda.antt =====
-- Program-derived addresses and room ids (packages/solana/src/pda.ts). The text of a UUID is given by its
-- bytes, read elsewhere.
use solana_snake_arena.Base.{ℕ, ◌-◌, ltb, [], ◌∷◌, ◌++◌, length, replicate, if◌then◌else◌}
use solana_snake_arena.Solana.Encode.{
  Bytes, PublicKey, Pda, Web3, Outcome, built, throws, room_id_too_long, ◌>>=◌, codes,
}

abbrev pub room_id_len : ℕ
room_id_len = 16

abbrev pub config_seed : Bytes
config_seed = codes "config"

abbrev pub pool_seed : Bytes
pool_seed = codes "pool"

abbrev pub treasury_seed : Bytes
treasury_seed = codes "treasury"

abbrev pub player_seed : Bytes
player_seed = codes "player"

abbrev pub room_seed : Bytes
room_seed = codes "room"

abbrev pub room_vault_seed : Bytes
room_vault_seed = codes "room_vault"

abbrev pub room_player_seed : Bytes
room_player_seed = codes "room_player"

unfoldable pub normalize_room_id : Bytes → Outcome Bytes
normalize_room_id room_id =
    if ltb room_id_len (length room_id)
    then throws room_id_too_long
    else built (room_id ++ replicate (room_id_len - length room_id) 0)

module _ (web3 : Web3) (program_id : PublicKey) where
  abbrev pub find_config_pda : Pda
  find_config_pda = web3.find_program_address (config_seed ∷ []) program_id

  abbrev pub find_pool_pda : Pda
  find_pool_pda = web3.find_program_address (pool_seed ∷ []) program_id

  abbrev pub find_treasury_pda : Pda
  find_treasury_pda = web3.find_program_address (treasury_seed ∷ []) program_id

  abbrev pub find_player_pda : PublicKey → Pda
  find_player_pda owner = web3.find_program_address (player_seed ∷ owner ∷ []) program_id

  abbrev pub find_room_pda : Bytes → Outcome Pda
  find_room_pda room_id =
      normalize_room_id room_id
      >>= (λ id. built (web3.find_program_address (room_seed ∷ id ∷ []) program_id))

  abbrev pub find_room_vault_pda : Bytes → Outcome Pda
  find_room_vault_pda room_id =
      normalize_room_id room_id
      >>= (λ id. built (web3.find_program_address (room_vault_seed ∷ id ∷ []) program_id))

  abbrev pub find_room_player_pda : PublicKey → PublicKey → Pda
  find_room_player_pda room player =
      web3.find_program_address (room_player_seed ∷ room ∷ player ∷ []) program_id
