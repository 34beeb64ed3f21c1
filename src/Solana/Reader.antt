-- ===== src/Solana/Reader.antt =====
-- How a program reads its arguments: a description of Borsh that does not look at the encoder of
-- packages/solana/src/tx/encode.ts, whose readers the round trips are stated with.
unfoldable pub use solana_snake_arena.Wire.{
  Reader, bind_option, and_then, give, read_word, read_bytes, read_times,
}
use solana_snake_arena.Base.{
  Bool, true, false, Option, none, some, List, [], ◌∷◌, ◌==◌, if◌then◌else◌,
}

unfoldable pub read_bool : Reader Bool
read_bool [] = none
read_bool (b ∷ bytes) =
    if b == 0 then some (false, bytes) else if b == 1 then some (true, bytes) else none

unfoldable pub read_option {ℓ} : {A : Type ℓ} → Reader A → Reader (Option A)
read_option reader [] = none
read_option reader (b ∷ bytes) =
    if b == 0
    then some (none, bytes)
    else if b == 1
    then bind_option (reader bytes) (λ r. some (some r.0, r.1))
    else none

unfoldable pub read_vec {ℓ} : {A : Type ℓ} → Reader A → Reader (List A)
read_vec reader = and_then (read_word 4) (read_times reader)
