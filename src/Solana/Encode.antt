-- ===== src/Solana/Encode.antt =====
-- Instruction encoding (packages/solana/src/tx/encode.ts). The hash and the derivation of addresses are
-- third-party code, a parameter: `Web3`. A number that need not be an integer is a `JsNumber`.
unfoldable pub use solana_snake_arena.Wire.{Bytes, little_endian}
use solana_snake_arena.Base.{
  ℕ, Bool, ltb, Option, none, some, List, [], ◌∷◌, ◌++◌, length, if◌then◌else◌, String, take, not,
  ◌==◌,
}
use Prim.Native.Char.{code}
use solana_snake_arena.Base.Int.{ℤ, pos, negsuc}

abbrev pub PublicKey : Type 0
PublicKey = Bytes

pub record Pda : Type 0 where
  pub address : PublicKey
  pub bump : ℕ

pub record Web3 : Type 0 where
  pub sha256 : Bytes → Bytes
  pub find_program_address : List Bytes → PublicKey → Pda
  pub system_program : PublicKey

pub data SolanaError : Type 0 where
  u64_out_of_range u16_out_of_range u32_out_of_range wrong_length room_id_too_long : SolanaError
  negative_withdrawal bad_withdrawal_fee : SolanaError
  no_winners too_many_winners duplicate_winner zero_payout : SolanaError

pub data Outcome {ℓ} (A : Type ℓ) : Type ℓ where
  built : A → Outcome A
  throws : SolanaError → Outcome A

infixl 5 ◌>>=◌
abbrev pub ◌>>=◌ {ℓ κ} : {A : Type ℓ} {B : Type κ} → Outcome A → (A → Outcome B) → Outcome B
built a >>= f = f a
throws e >>= f = throws e

pub data JsNumber : Type 0 where
  whole : ℤ → JsNumber
  fraction : JsNumber

-- The bytes of an ASCII text.
abbrev pub codes : String → Bytes
codes String.[] = []
codes (String.◌∷◌ c s) = code c ∷ codes s

unfoldable pub instruction_discriminator : Web3 → String → Bytes
instruction_discriminator web3 name = take 8 (web3.sha256 (codes "global:" ++ codes name))

unfoldable pub account_discriminator : Web3 → String → Bytes
account_discriminator web3 name = take 8 (web3.sha256 (codes "account:" ++ codes name))

-- The most that a word of so many bits holds.
abbrev pub u16_max : ℕ
u16_max = 0xffff

abbrev pub u32_max : ℕ
u32_max = 0xffff_ffff

abbrev pub u64_max : ℕ
u64_max = 0xffff_ffff_ffff_ffff

unfoldable pub encode_u64 : ℤ → Outcome Bytes
encode_u64 (pos n) = if ltb u64_max n then throws u64_out_of_range else built (little_endian 8 n)
encode_u64 (negsuc n) = throws u64_out_of_range

unfoldable pub encode_u16 : JsNumber → Outcome Bytes
encode_u16 (whole (pos n)) =
    if ltb u16_max n then throws u16_out_of_range else built (little_endian 2 n)
encode_u16 _ = throws u16_out_of_range

unfoldable pub encode_u32 : JsNumber → Outcome Bytes
encode_u32 (whole (pos n)) =
    if ltb u32_max n then throws u32_out_of_range else built (little_endian 4 n)
encode_u32 _ = throws u32_out_of_range

abbrev pub encode_bool : Bool → Outcome Bytes
encode_bool value = built ((if value then 1 else 0) ∷ [])

abbrev pub encode_pubkey : PublicKey → Outcome Bytes
encode_pubkey key = built key

unfoldable pub encode_option {ℓ} : {A : Type ℓ} → (A → Outcome Bytes) → Option A → Outcome Bytes
encode_option encoder none = built (0 ∷ [])
encode_option encoder (some value) = encoder value >>= λ bytes. built (1 ∷ bytes)

-- `values.map(encoder)`, joined.
unfoldable pub encode_all {ℓ} : {A : Type ℓ} → (A → Outcome Bytes) → List A → Outcome Bytes
encode_all encoder [] = built []
encode_all encoder (value ∷ values) = do
  first ← encoder value
  rest ← encode_all encoder values
  built (first ++ rest)

unfoldable pub encode_vec {ℓ} : {A : Type ℓ} → (A → Outcome Bytes) → List A → Outcome Bytes
encode_vec encoder values = do
  prefix ← encode_u32 (whole (pos (length values)))
  body ← encode_all encoder values
  built (prefix ++ body)

unfoldable pub encode_fixed_bytes : Bytes → ℕ → Outcome Bytes
encode_fixed_bytes value size =
    if not (length value == size) then throws wrong_length else built value

-- `Buffer.concat([instructionDiscriminator(name), ...args])`, the arguments joined.
unfoldable pub encode_instruction : Web3 → String → Bytes → Bytes
encode_instruction web3 name args = instruction_discriminator web3 name ++ args
