-- ===== src/Wire.antt =====
-- Bytes, little-endian words, and readers that take a value off the front of some bytes.
use solana_snake_arena.Base.{
  ℕ, zero, suc, ◌+◌, ◌*◌, ◌/◌, ◌%◌, ◌<◌, ◌≡◌, refl, sym, ltb, Option, none, some, List, [], ◌∷◌,
  ◌++◌, length, take, drop, if◌then◌else◌, arith, take-append, drop-append, if_elim, length-append,
}

abbrev pub Bytes : Type 0
Bytes = List ℕ

-- Little-endian, in so many bytes.
unfoldable pub little_endian : ℕ → ℕ → Bytes
little_endian zero n = []
little_endian (suc k) n = n % 256 ∷ little_endian k (n / 256)

abbrev pub Reader {ℓ} : Type ℓ → Type ℓ
Reader A = Bytes → Option (A × Bytes)

abbrev pub bind_option {ℓ κ} : {A : Type ℓ} {B : Type κ} → Option A → (A → Option B) → Option B
bind_option none f = none
bind_option (some a) f = f a

-- Read one value, then the next.
abbrev pub and_then {ℓ κ} : {A : Type ℓ} {B : Type κ} → Reader A → (A → Reader B) → Reader B
and_then reader next bytes = bind_option (reader bytes) (λ r. next r.0 r.1)

abbrev pub give {ℓ} : {A : Type ℓ} → A → Reader A
give a bytes = some (a, bytes)

-- A word of so many bytes, the least significant first.
unfoldable pub read_word : ℕ → Reader ℕ
read_word zero bytes = some (0, bytes)
read_word (suc k) [] = none
read_word (suc k) (b ∷ bytes) = bind_option (read_word k bytes) (λ r. some (b + 256 * r.0, r.1))

unfoldable pub read_bytes : ℕ → Reader Bytes
read_bytes n bytes = if ltb (length bytes) n then none else some (take n bytes, drop n bytes)

unfoldable pub read_times {ℓ} : {A : Type ℓ} → Reader A → ℕ → Reader (List A)
read_times reader zero = give []
read_times reader (suc n) =
    and_then reader (λ a. and_then (read_times reader n) (λ rest. give (a ∷ rest)))

pub append_assoc : (xs ys zs : Bytes) → (xs ++ ys) ++ zs ≡ xs ++ (ys ++ zs)
append_assoc [] ys zs = refl
append_assoc (x ∷ xs) ys zs = cc (append_assoc xs ys zs)

-- A reader takes exactly these bytes for this value, whatever follows.
abbrev pub Reads : {A : Type 0} → Reader A → A → Bytes → Type 0
Reads reader value bytes = (rest : Bytes) → reader (bytes ++ rest) ≡ some (value, rest)

pub and_then-Reads :
    {A : Type 0} {B : Type 0} (reader : Reader A) (next : A → Reader B) (a : A) (b : B)
    (xs ys : Bytes)
    → Reads reader a xs
    → Reads (next a) b ys
    → Reads (and_then reader next) b (xs ++ ys)
and_then-Reads reader next a b xs ys h k rest =
    rw (append_assoc xs ys rest) (rw (h (ys ++ rest)) (k rest))

-- How many values a word of so many bytes has.
unfoldable pub limit : ℕ → ℕ
limit zero = 1
limit (suc k) = 256 * limit k

small_is_zero : (n : ℕ) → n < 1 → n ≡ 0
small_is_zero n h = omega arith

whole_of : (n : ℕ) → n % 256 + 256 * (n / 256) ≡ n
whole_of n = omega arith

pub little_endian-Reads : (k n : ℕ) → n < limit k → Reads (read_word k) n (little_endian k n)
unfolding limit read_word little_endian
little_endian-Reads zero n h rest = rw (small_is_zero n h) refl
little_endian-Reads (suc k) n h rest =
    rw (little_endian-Reads k (n / 256) (omega (arith, h)) rest) (rw (whole_of n) refl)

pub read_bytes-Reads : (n : ℕ) (xs : Bytes) → length xs ≡ n → Reads (read_bytes n) xs xs
unfolding read_bytes
read_bytes-Reads n xs h rest =
    if_elim (λ (r : Option (Bytes × Bytes)). r ≡ some (xs, rest)) (ltb (length (xs ++ rest)) n)
      (λ short. ground (arith, length-append xs rest))
      (λ enough. rw (sym h) (cc (take-append xs rest, drop-append xs rest)))

pub append_nil : (xs : Bytes) → xs ++ [] ≡ xs
append_nil [] = refl
append_nil (x ∷ xs) = cc (append_nil xs)
