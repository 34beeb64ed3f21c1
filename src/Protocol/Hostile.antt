-- ===== src/Protocol/Hostile.antt =====
-- Packets from clients that may be hostile (packages/protocol/src/binary.ts: `decodeInputBatch`).
use solana_snake_arena.Base.{
  ℕ, suc, zero, ◌+◌, ◌-◌, ◌*◌, ◌≤◌, ◌≡◌, refl, sym, ◌∙◌, ◌&&◌, is_some, Bool-cases, Bool, true,
  false, leb, ◌==◌, some, [], ◌∷◌, length, drop, ap, arith, inl, inr,
}
use solana_snake_arena.Wire.{Bytes, Reader, and_then, give, read_word, read_times}
use solana_snake_arena.Protocol.Input.{
  ReceivedBatch, read_command, read_commands, decode_input_batch,
}

-- A reader that takes so many bytes whenever there are as many.
abbrev Takes {ℓ} : {A : Type ℓ} → Reader A → ℕ → Type ℓ
Takes {A = A} reader n =
    (bytes : Bytes) → n ≤ length bytes → (a : A) × (reader bytes ≡ some (a, drop n bytes))

drop_nil : (n : ℕ) → drop {A = ℕ} n [] ≡ []
drop_nil zero = refl
drop_nil (suc n) = refl

suc_left : (m n : ℕ) → suc (m + n) ≡ suc m + n
suc_left m n = omega arith

drop-drop : (m n : ℕ) (bytes : Bytes) → drop n (drop m bytes) ≡ drop (m + n) bytes
drop-drop zero n bytes = ap (λ (k : ℕ). drop k bytes) (omega arith)
drop-drop (suc m) n [] = drop_nil n ∙ sym (drop_nil (suc m + n))
drop-drop (suc m) n (b ∷ bytes) =
    drop-drop m n bytes ∙ ap (λ (k : ℕ). drop k (b ∷ bytes)) (suc_left m n)

length-drop : (m : ℕ) (bytes : Bytes) → length (drop m bytes) ≡ length bytes - m
length-drop zero bytes = omega arith
length-drop (suc m) [] = omega arith
length-drop (suc m) (b ∷ bytes) = omega (arith, length-drop m bytes)

read_word-Takes : (k : ℕ) → Takes (read_word k) k
unfolding read_word
read_word-Takes zero bytes h = (0, refl)
read_word-Takes (suc k) [] h = ground arith
read_word-Takes (suc k) (b ∷ bytes) h =
    let rest = read_word-Takes k bytes (omega arith) in (b + 256 * rest.0, rw rest.1 refl)

and_then-Takes :
    {A B : Type 0} (reader : Reader A) (next : A → Reader B) (m n : ℕ)
    → Takes reader m
    → ((a : A) → Takes (next a) n)
    → Takes (and_then reader next) (m + n)
and_then-Takes reader next m n h k bytes enough =
    let first = h bytes (omega arith) in
    let second = k first.0 (drop m bytes) (omega (arith, length-drop m bytes)) in
    (
      second.0,
      rw first.1 (rw second.1 (ap (λ (r : Bytes). some (second.0, r)) (drop-drop m n bytes))),
    )

give-Takes : {A : Type 0} (a : A) → Takes (give a) 0
give-Takes a bytes h = (a, refl)

no_times : (k : ℕ) → 0 ≡ 0 * k
no_times k = omega arith

read_times-Takes :
    {A : Type 0} (reader : Reader A) (k n : ℕ)
    → Takes reader k
    → Takes (read_times reader n) (n * k)
unfolding read_times
read_times-Takes reader k zero h =
    λ bytes enough. ([], ap (λ (m : ℕ). some ([], drop m bytes)) (no_times k))
read_times-Takes reader k (suc n) h = λ bytes enough.
    let whole : k + (n * k + 0) ≡ suc n * k = grind arith in
    let r =
      and_then-Takes reader _ k (n * k + 0) h
        (λ a.
          and_then-Takes (read_times reader n) _ (n * k) 0 (read_times-Takes reader k n h)
            (λ rest. give-Takes (a ∷ rest)))
        bytes (omega (arith, whole)) in
    (r.0, r.1 ∙ ap (λ (m : ℕ). some (r.0, drop m bytes)) whole)

read_command-Takes : Takes read_command 8
unfolding read_command
read_command-Takes = and_then-Takes (read_word 4) _ 4 4 (read_word-Takes 4) (λ seq.
    and_then-Takes (read_word 2) _ 2 2 (read_word-Takes 2) (λ angle.
      and_then-Takes (read_word 1) _ 1 1 (read_word-Takes 1)
        (λ boost. and_then-Takes (read_word 1) _ 1 0 (read_word-Takes 1) (λ dt. give-Takes _))))

read_commands-Takes : (count : ℕ) → Takes (read_commands count) (4 + (count * 8 + 0))
unfolding read_commands
read_commands-Takes count =
    and_then-Takes (read_word 4) _ 4 (count * 8 + 0) (read_word-Takes 4) (λ client_time.
      and_then-Takes (read_times read_command count) _ (count * 8) 0
        (read_times-Takes read_command 8 count read_command-Takes) (λ commands. give-Takes _))

-- A batch that is acceptable: of the type, with one to ten commands and as many bytes as they take.
abbrev pub is_acceptable_batch : Bytes → Bool
is_acceptable_batch [] = false
is_acceptable_batch (type ∷ []) = false
is_acceptable_batch (type ∷ (count ∷ rest)) =
    type == 2 && leb 1 count && leb count 10 && leb (4 + count * 8) (length rest)

plain_byte : (n : ℕ) → n + 256 * 0 ≡ n
plain_byte n = omega arith

-- What is decided once the type and the count are read.
enough_for :
    (count : ℕ) (rest : Bytes)
    → leb (4 + count * 8) (length rest) ≡ true
    → (b : ReceivedBatch) × (read_commands count rest ≡ some (b, drop (4 + (count * 8 + 0)) rest))
enough_for count rest h = read_commands-Takes count rest (ground arith)

-- A packet is unpacked exactly when it has the type of a batch, announces one to ten commands and holds as
-- many bytes as those take; no read runs past its end.
pub decode_input_batch_accepts :
    (bytes : Bytes) → is_some (decode_input_batch bytes) ≡ is_acceptable_batch bytes
unfolding decode_input_batch read_word
decode_input_batch_accepts [] = refl
decode_input_batch_accepts (type ∷ []) = ground arith
decode_input_batch_accepts (type ∷ (count ∷ rest)) =
    rw (plain_byte type, decode_input_batch)
      (rw (plain_byte count) (elim (Bool-cases (leb (4 + count * 8) (length rest))) [
        | inl enough ↦ let read = (enough_for count rest enough).1 in ground (arith, read)
        | inr short ↦ ground arith
      ]))
