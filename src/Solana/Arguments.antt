-- ===== src/Solana/Arguments.antt =====
-- The arguments of the client's instructions (packages/solana/src/instructions.ts), read back as the
-- program reads them.
use solana_snake_arena.Base.{
  ℕ, ◌≡◌, refl, sym, ap, ◌∙◌, Bool, true, Option, none, some, [], ◌++◌, length, arith, String,
  length-take,
}
use solana_snake_arena.Wire.{append_nil}
use solana_snake_arena.Base.Int.{ℤ, pos_part}
use solana_snake_arena.Solana.Encode.{
  Bytes, PublicKey, Web3, codes, JsNumber, encode_u64, encode_u16, encode_bool, encode_pubkey,
  encode_option, instruction_discriminator, encode_instruction,
}
use solana_snake_arena.Solana.Reader.{
  Reader, and_then, give, read_word, read_bytes, read_bool, read_option,
}
use solana_snake_arena.Solana.RoundTrip.{
  Reads, Succeeds, Succeeds-bind, and_then-Reads, fits_u64, fits_u16, whole_part, encode_u64-Reads,
  encode_u16-Reads, read_bytes-Reads, encode_bool-Reads, Optional, map_option, encode_option-Reads,
}
use solana_snake_arena.Solana.Instructions.{
  TransactionInstruction, ConfigUpdate, create_deposit_instruction,
  create_update_config_instruction,
}

-- SHA-256 gives 32 bytes.
abbrev pub Hashes : Web3 → Type 0
Hashes web3 = (bytes : Bytes) → length (web3.sha256 bytes) ≡ 32

-- An instruction: which one, and its arguments.
abbrev pub read_call : {A : Type 0} → Reader A → Reader (Bytes × A)
read_call reader = and_then (read_bytes 8) (λ name. and_then reader (λ a. give (name, a)))

-- The instruction's bytes are those of a call by this name with these arguments, and nothing more.
abbrev pub Calls : {A : Type 0} → Web3 → Reader A → String → A → TransactionInstruction → Type 0
Calls web3 reader name a ix =
    read_call reader ix.bytes ≡ some ((instruction_discriminator web3 name, a), [])

pub encode_instruction-Calls :
    {A : Type 0} (web3 : Web3) (reader : Reader A) (name : String) (a : A) (args : Bytes)
    → Hashes web3
    → Reads reader a args
    → read_call reader (encode_instruction web3 name args)
      ≡ some ((instruction_discriminator web3 name, a), [])
unfolding encode_instruction instruction_discriminator
encode_instruction-Calls web3 reader name a args hashes reads =
    let whole = web3.sha256 (codes "global:" ++ codes name) in
    let long = hashes (codes "global:" ++ codes name) in
    let named = instruction_discriminator web3 name in
    sym (ap (read_call reader) (append_nil (named ++ args)))
    ∙ and_then-Reads (read_bytes 8) (λ d. and_then reader (λ b. give (d, b))) named (named, a) named
        args (read_bytes-Reads 8 named (length-take 8 whole (omega (arith, long))))
        (λ rest. rw (reads rest) refl) []

abbrev pub read_pair : {A B : Type 0} → Reader A → Reader B → Reader (A × B)
read_pair first second = and_then first (λ a. and_then second (λ b. give (a, b)))

read_pair-Reads :
    {A B : Type 0} (first : Reader A) (second : Reader B) (a : A) (b : B) (xs ys : Bytes)
    → Reads first a xs
    → Reads second b ys
    → Reads (read_pair first second) (a, b) (xs ++ ys)
read_pair-Reads first second a b xs ys h k =
    and_then-Reads first (λ c. and_then second (λ d. give (c, d))) a (a, b) xs ys h
      (λ rest. rw (k rest) refl)

-- A deposit of any amount of 64 bits is built, and the program reads back a call of `deposit` with that
-- amount and nothing more.
pub create_deposit_instruction-Calls :
    (web3 : Web3) (program_id player : PublicKey) (lamports : ℤ)
    → Hashes web3
    → fits_u64 lamports ≡ true
    → Succeeds
        (Calls web3 (read_word 8) "deposit" (pos_part lamports))
        (create_deposit_instruction web3 program_id player lamports)
unfolding create_deposit_instruction
create_deposit_instruction-Calls web3 program_id player lamports hashes fits =
    Succeeds-bind (Reads (read_word 8) (pos_part lamports))
      (Calls web3 (read_word 8) "deposit" (pos_part lamports)) (encode_u64 lamports) _
      (encode_u64-Reads lamports fits)
      (λ amount reads.
        encode_instruction-Calls web3 (read_word 8) "deposit" (pos_part lamports) amount hashes
          reads)

abbrev pub IsKey : PublicKey → Type 0
IsKey key = length key ≡ 32

abbrev pub Fits : JsNumber → Type 0
Fits n = fits_u16 n ≡ true

-- An update whose numbers have 16 bits and whose keys have 32 bytes.
pub record UpdateFits (update : ConfigUpdate) : Type 0 where
  pub fee : Optional Fits update.fee_bps
  pub withdrawal_fee : Optional Fits update.withdrawal_fee_bps
  pub authority : Optional IsKey update.settlement_authority
  pub destination : Optional IsKey update.fee_destination

abbrev pub Settings : Type 0
Settings = Option ℕ × (Option ℕ × (Option Bytes × (Option Bytes × Option Bool)))

abbrev pub maybe_word : Reader (Option ℕ)
maybe_word = read_option (read_word 2)

abbrev pub maybe_key : Reader (Option Bytes)
maybe_key = read_option (read_bytes 32)

abbrev pub read_settings : Reader Settings
read_settings =
    read_pair maybe_word
      (read_pair maybe_word (read_pair maybe_key (read_pair maybe_key (read_option read_bool))))

abbrev pub same {ℓ} : {A : Type ℓ} → A → A
same a = a

abbrev pub settings_of : ConfigUpdate → Settings
settings_of update = (
  map_option whole_part update.fee_bps,
  (
    map_option whole_part update.withdrawal_fee_bps,
    (
      map_option same update.settlement_authority,
      (map_option same update.fee_destination, map_option same update.paused),
    ),
  ),
)

Optional-map {ℓ} :
    {A : Type ℓ} (P Q : A → Type 0) (o : Option A)
    → ((a : A) → P a → Q a)
    → Optional P o
    → Optional Q o
Optional-map P Q none k h = tt
Optional-map P Q (some a) k h = k a h

pub Optional-u16 :
    (o : Option JsNumber)
    → Optional Fits o
    → Succeeds
        (Reads (read_option (read_word 2)) (map_option whole_part o))
        (encode_option encode_u16 o)
Optional-u16 o h = encode_option-Reads (read_word 2) whole_part encode_u16 o (
    Optional-map Fits (λ a. Succeeds (Reads (read_word 2) (whole_part a)) (encode_u16 a)) o
      encode_u16-Reads h)

pub Optional-key :
    (o : Option PublicKey)
    → Optional IsKey o
    → Succeeds
        (Reads (read_option (read_bytes 32)) (map_option same o))
        (encode_option encode_pubkey o)
Optional-key o h = encode_option-Reads (read_bytes 32) same encode_pubkey o (
    Optional-map IsKey (λ a. Succeeds (Reads (read_bytes 32) a) (encode_pubkey a)) o
      (read_bytes-Reads 32) h)

pub Optional-bool :
    (o : Option Bool)
    → Succeeds (Reads (read_option read_bool) (map_option same o)) (encode_option encode_bool o)
Optional-bool o = encode_option-Reads read_bool same encode_bool o (always o)
  where
    always : (o : Option Bool) → Optional (λ b. Succeeds (Reads read_bool b) (encode_bool b)) o
    always none = tt
    always (some b) = encode_bool-Reads b

-- An update of the configuration in which numbers have 16 bits and keys 32 bytes is built, and the
-- program reads back a call of `update_config` with each of the five settings as it was given, present or
-- absent, and nothing more.
pub create_update_config_instruction-Calls :
    (web3 : Web3) (program_id admin : PublicKey) (update : ConfigUpdate)
    → Hashes web3
    → UpdateFits update
    → Succeeds
        (Calls web3 read_settings "update_config" (settings_of update))
        (create_update_config_instruction web3 program_id admin update)
unfolding create_update_config_instruction
create_update_config_instruction-Calls web3 program_id admin update hashes fits =
    let goal = Calls web3 read_settings "update_config" (settings_of update) in
    let last = read_pair maybe_key (read_option read_bool) in
    let keys = read_pair maybe_key last in
    let later = read_pair maybe_word keys in
    Succeeds-bind _ goal (encode_option encode_u16 update.fee_bps) _
      (Optional-u16 update.fee_bps fits.fee)
      (λ a ra.
        Succeeds-bind _ goal (encode_option encode_u16 update.withdrawal_fee_bps) _
          (Optional-u16 update.withdrawal_fee_bps fits.withdrawal_fee)
          (λ b rb.
            Succeeds-bind _ goal (encode_option encode_pubkey update.settlement_authority) _
              (Optional-key update.settlement_authority fits.authority)
              (λ c rc.
                Succeeds-bind _ goal (encode_option encode_pubkey update.fee_destination) _
                  (Optional-key update.fee_destination fits.destination)
                  (λ d rd.
                    Succeeds-bind _ goal (encode_option encode_bool update.paused) _
                      (Optional-bool update.paused)
                      (λ e re.
                        encode_instruction-Calls web3 read_settings "update_config"
                          (settings_of update) (a ++ (b ++ (c ++ (d ++ e)))) hashes
                          (read_pair-Reads maybe_word later (map_option whole_part update.fee_bps) _
                            a (b ++ (c ++ (d ++ e))) ra
                            (read_pair-Reads maybe_word keys
                              (map_option whole_part update.withdrawal_fee_bps) _ b (c ++ (d ++ e))
                              rb
                              (read_pair-Reads maybe_key last
                                (map_option same update.settlement_authority) _ c (d ++ e) rc
                                (read_pair-Reads maybe_key (read_option read_bool)
                                  (map_option same update.fee_destination)
                                  (map_option same update.paused) d e rd re)))))))))
