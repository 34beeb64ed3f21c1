-- ===== src/Solana/RoundTrip.antt =====
-- What the encoder writes reads back (packages/solana/src/tx/encode.ts).
pub use solana_snake_arena.Wire.{
  Reads, and_then-Reads, read_bytes-Reads, limit, little_endian-Reads,
}
use solana_snake_arena.Base.{
  ℕ, ◌+◌, ◌≤◌, ◌≡◌, refl, Bool, true, false, not, ltb, Option, none, some, List, [], ◌∷◌, map,
  length, arith, if_elim, All,
}
use solana_snake_arena.Base.Int.{ℤ, pos, negsuc, pos_part}
use solana_snake_arena.Solana.Encode.{
  Bytes, Outcome, built, throws, ◌>>=◌, JsNumber, whole, fraction, encode_u64, encode_u16,
  encode_u32, encode_bool, encode_option, encode_all, encode_vec, u64_max, u16_max, u32_max,
}
use solana_snake_arena.Solana.Reader.{
  Reader, read_word, read_bool, read_option, read_times, read_vec,
}

-- The outcome is built, and what is built has the property.
abbrev pub Succeeds {ℓ} : {A : Type ℓ} → (A → Type 0) → Outcome A → Type 0
Succeeds P (built a) = P a
Succeeds P (throws e) = ⊥

pub Succeeds-bind {ℓ κ} :
    {A : Type ℓ} {B : Type κ} (P : A → Type 0) (Q : B → Type 0) (m : Outcome A) (k : A → Outcome B)
    → Succeeds P m
    → ((a : A) → P a → Succeeds Q (k a))
    → Succeeds Q (m >>= k)
Succeeds-bind P Q (built a) k h next = next a h
Succeeds-bind P Q (throws e) k h next = elim h [ ]

u64_limit : limit 8 ≡ u64_max + 1
unfolding limit
u64_limit = refl

u16_limit : limit 2 ≡ u16_max + 1
unfolding limit
u16_limit = refl

u32_limit : limit 4 ≡ u32_max + 1
unfolding limit
u32_limit = refl

-- The numbers that an encoder takes.
abbrev pub fits_u64 : ℤ → Bool
fits_u64 (pos n) = not (ltb u64_max n)
fits_u64 (negsuc n) = false

abbrev pub fits_u16 : JsNumber → Bool
fits_u16 (whole (pos n)) = not (ltb u16_max n)
fits_u16 _ = false

abbrev pub whole_part : JsNumber → ℕ
whole_part (whole z) = pos_part z
whole_part fraction = 0

pub encode_u64-Reads :
    (z : ℤ) → fits_u64 z ≡ true → Succeeds (Reads (read_word 8) (pos_part z)) (encode_u64 z)
unfolding encode_u64
encode_u64-Reads (pos n) h =
    if_elim (Succeeds (Reads (read_word 8) n)) (ltb u64_max n) (λ over. ground arith)
      (λ fine. little_endian-Reads 8 n (rw u64_limit (ground arith)))
encode_u64-Reads (negsuc n) h = ground arith

pub encode_u16-Reads :
    (z : JsNumber)
    → fits_u16 z ≡ true
    → Succeeds (Reads (read_word 2) (whole_part z)) (encode_u16 z)
unfolding encode_u16
encode_u16-Reads (whole (pos n)) h =
    if_elim (Succeeds (Reads (read_word 2) n)) (ltb u16_max n) (λ over. ground arith)
      (λ fine. little_endian-Reads 2 n (rw u16_limit (ground arith)))
encode_u16-Reads (whole (negsuc n)) h = ground arith
encode_u16-Reads fraction h = ground arith

pub encode_length-Reads :
    (n : ℕ) → n ≤ u32_max → Succeeds (Reads (read_word 4) n) (encode_u32 (whole (pos n)))
unfolding encode_u32
encode_length-Reads n h =
    if_elim (Succeeds (Reads (read_word 4) n)) (ltb u32_max n) (λ over. ground arith)
      (λ fine. little_endian-Reads 4 n (rw u32_limit (ground arith)))

pub encode_bool-Reads : (b : Bool) → Succeeds (Reads read_bool b) (encode_bool b)
unfolding read_bool
encode_bool-Reads true rest = refl
encode_bool-Reads false rest = refl

-- What an optional value asks of its encoder.
abbrev pub Optional {ℓ κ} : {A : Type ℓ} → (A → Type κ) → Option A → Type κ
Optional P none = Unit
Optional P (some a) = P a

abbrev pub map_option {ℓ κ} : {A : Type ℓ} {B : Type κ} → (A → B) → Option A → Option B
map_option f none = none
map_option f (some a) = some (f a)

pub encode_option-Reads {ℓ} :
    {A : Type ℓ} {B : Type 0} (reader : Reader B) (view : A → B) (encoder : A → Outcome Bytes)
    (o : Option A)
    → Optional (λ a. Succeeds (Reads reader (view a)) (encoder a)) o
    → Succeeds (Reads (read_option reader) (map_option view o)) (encode_option encoder o)
unfolding encode_option read_option
encode_option-Reads reader view encoder none h = λ rest. refl
encode_option-Reads reader view encoder (some a) h =
    Succeeds-bind (Reads reader (view a)) (Reads (read_option reader) (some (view a))) (encoder a)
      (λ bytes. built (1 ∷ bytes)) h (λ bytes reads rest. rw (reads rest) refl)

pub encode_all-Reads {ℓ} :
    {A : Type ℓ} {B : Type 0} (reader : Reader B) (view : A → B) (encoder : A → Outcome Bytes)
    (values : List A)
    → All (λ a. Succeeds (Reads reader (view a)) (encoder a)) values
    → Succeeds
        (Reads (read_times reader (length values)) (map view values))
        (encode_all encoder values)
unfolding encode_all read_times
encode_all-Reads reader view encoder [] h = λ rest. refl
encode_all-Reads reader view encoder (a ∷ values) h =
    let goal = Reads (read_times reader (length (a ∷ values))) (map view (a ∷ values)) in
    Succeeds-bind (Reads reader (view a)) goal (encoder a) _ h.0 (λ first reads.
      Succeeds-bind (Reads (read_times reader (length values)) (map view values)) goal
        (encode_all encoder values) _ (encode_all-Reads reader view encoder values h.1)
        (λ others others_reads.
          and_then-Reads reader _ (view a) (map view (a ∷ values)) first others reads
            (λ rest. rw (others_reads rest) refl)))

pub encode_vec-Reads {ℓ} :
    {A : Type ℓ} {B : Type 0} (reader : Reader B) (view : A → B) (encoder : A → Outcome Bytes)
    (values : List A)
    → length values ≤ u32_max
    → All (λ a. Succeeds (Reads reader (view a)) (encoder a)) values
    → Succeeds (Reads (read_vec reader) (map view values)) (encode_vec encoder values)
unfolding encode_vec read_vec
encode_vec-Reads reader view encoder values short h =
    let goal = Reads (read_vec reader) (map view values) in
    Succeeds-bind (Reads (read_word 4) (length values)) goal
      (encode_u32 (whole (pos (length values)))) _ (encode_length-Reads (length values) short)
      (λ prefix prefix_reads.
        Succeeds-bind (Reads (read_times reader (length values)) (map view values)) goal
          (encode_all encoder values) _ (encode_all-Reads reader view encoder values h)
          (λ body body_reads.
            and_then-Reads (read_word 4) (read_times reader) (length values) (map view values)
              prefix body prefix_reads body_reads))
