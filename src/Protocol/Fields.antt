-- ===== src/Protocol/Fields.antt =====
-- What is packed for a number, a point, a snake or a pellet reads back (packages/protocol/src/binary.ts).
use solana_snake_arena.Base.{
  ℕ, ◌+◌, ◌-◌, ◌%◌, ◌≤◌, ◌<◌, ◌≡◌, refl, Bool, true, false, List, [], ◌∷◌, ◌++◌, map, length, take,
  drop, if◌then◌else◌, arith, All, take-append, drop-append, subst,
}
use solana_snake_arena.Base.Int.{ℤ, pos, negsuc}
use solana_snake_arena.Wire.{
  append_nil, append_assoc, Bytes, little_endian, Reader, and_then, give, read_word, read_times,
  Reads, and_then-Reads, limit, little_endian-Reads,
}
use solana_snake_arena.Protocol.Snapshot.{
  Point, SnakeView, FoodView, min_ℕ, clamp_i16, put_i16, put_point, put_all, snake_flags, put_snake,
  put_food,
}
use solana_snake_arena.Protocol.Decode.{
  read_uuid, read_text, i16_of, read_i16, read_point, has_bit_0, has_bit_1, read_snake, read_food,
}

limits : (limit 1 ≡ 256) × (limit 2 ≡ 65_536) × (limit 4 ≡ 4_294_967_296)
unfolding limit
limits = (refl, refl, refl)

pub word1-Reads : (n : ℕ) → n < 256 → Reads (read_word 1) n (little_endian 1 n)
word1-Reads n h = little_endian-Reads 1 n (rw limits.0 h)

pub word2-Reads : (n : ℕ) → n < 65_536 → Reads (read_word 2) n (little_endian 2 n)
word2-Reads n h = little_endian-Reads 2 n (rw limits.1 h)

pub word4-Reads : (n : ℕ) → n < 4_294_967_296 → Reads (read_word 4) n (little_endian 4 n)
word4-Reads n h = little_endian-Reads 4 n (rw limits.2 h)

-- A last field, from which the value is made.
then_give-Reads :
    {A B : Type 0} (reader : Reader A) (f : A → B) (a : A) (xs : Bytes)
    → Reads reader a xs
    → Reads (and_then reader (λ x. give (f x))) (f a) xs
then_give-Reads reader f a xs h rest = rw (h rest) refl

abbrev pub clamp_point : Point → Point
clamp_point p = record { x = clamp_i16 p.x; y = clamp_i16 p.y }

i16_of_pos : (m : ℕ) → m ≤ 32_767 → i16_of m ≡ pos m
unfolding i16_of
i16_of_pos m h = ground arith

i16_of_negsuc : (m : ℕ) → m ≤ 32_767 → i16_of (65_535 - m) ≡ negsuc m
unfolding i16_of
i16_of_negsuc m h = ground arith

pub min_le : (m n : ℕ) → min_ℕ m n ≤ m
min_le m n = ground arith

put_i16-Reads : (z : ℤ) → Reads read_i16 (clamp_i16 z) (put_i16 (clamp_i16 z))
unfolding clamp_i16 put_i16
put_i16-Reads (pos n) =
    let m = min_ℕ 32_767 n in
    let small = min_le 32_767 n in
    subst (λ (v : ℤ). Reads read_i16 v (little_endian 2 m)) (i16_of_pos m small)
      (then_give-Reads (read_word 2) i16_of m (little_endian 2 m)
        (word2-Reads m (omega (arith, small))))
put_i16-Reads (negsuc n) =
    let m = min_ℕ 32_767 n in
    let small = min_le 32_767 n in
    subst (λ (v : ℤ). Reads read_i16 v (little_endian 2 (65_535 - m))) (i16_of_negsuc m small)
      (then_give-Reads (read_word 2) i16_of (65_535 - m) (little_endian 2 (65_535 - m))
        (word2-Reads (65_535 - m) (omega arith)))

put_point-Reads : (p : Point) → Reads read_point (clamp_point p) (put_point p)
unfolding put_point read_point
put_point-Reads p =
    and_then-Reads read_i16 _ (clamp_i16 p.x) (clamp_point p) (put_i16 (clamp_i16 p.x))
      (put_i16 (clamp_i16 p.y)) (put_i16-Reads p.x)
      (then_give-Reads read_i16 (λ y. record { x = clamp_i16 p.x; y = y }) (clamp_i16 p.y)
        (put_i16 (clamp_i16 p.y)) (put_i16-Reads p.y))

pub put_all-Reads {ℓ} :
    {A : Type ℓ} {B : Type 0} (reader : Reader B) (view : A → B) (put : A → Bytes) (items : List A)
    → All (λ a. Reads reader (view a) (put a)) items
    → Reads (read_times reader (length items)) (map view items) (put_all put items)
unfolding put_all read_times
put_all-Reads reader view put [] h = λ rest. refl
put_all-Reads reader view put (a ∷ items) h =
    and_then-Reads reader _ (view a) (map view (a ∷ items)) (put a) (put_all put items) h.0
      (λ rest. rw (put_all-Reads reader view put items h.1 rest) refl)

pub read_uuid-Reads : (id : Bytes) → length id ≡ 16 → Reads read_uuid id id
unfolding read_uuid
read_uuid-Reads id h rest =
    let front : take 16 (id ++ rest) ≡ id =
      subst (λ (n : ℕ). take n (id ++ rest) ≡ id) h (take-append id rest) in
    let back : drop 16 (id ++ rest) ≡ rest =
      subst (λ (n : ℕ). drop n (id ++ rest) ≡ rest) h (drop-append id rest) in
    rw front (rw back (rw h (cc (append_nil id))))

read_text-Reads : (name : Bytes) → Reads (read_text (length name)) name name
unfolding read_text
read_text-Reads name rest = cc (take-append name rest, drop-append name rest)

-- A snake that its fields can carry.
pub record SnakeFits (s : SnakeView) : Type 0 where
  pub id : length s.id ≡ 16
  pub nickname : length s.nickname < 256
  pub angle : s.angle < 65_536
  pub points : length s.points < 65_536

-- A snake as it arrives: masses and radii saturate, and so do positions, at the edge of the window.
abbrev pub saturated_snake : SnakeView → SnakeView
saturated_snake s = record s {
  mass = min_ℕ 65_535 s.mass;
  radius = min_ℕ 65_535 s.radius;
  points = map clamp_point s.points;
}

-- A pellet as it arrives: its hue is derived from its number.
abbrev pub saturated_food : FoodView → FoodView
saturated_food f = record f {
  position = clamp_point f.position;
  mass = min_ℕ 255 f.mass;
  hue = f.id % 360;
}

All-points :
    (points : List Point) → All (λ p. Reads read_point (clamp_point p) (put_point p)) points
All-points [] = tt
All-points (p ∷ points) = (put_point-Reads p, All-points points)

flags_small : (s : SnakeView) → snake_flags s < 256
flags_small s = ground arith

flags_back :
    (boosting is_bot : Bool)
    → (has_bit_0 ((if boosting then 1 else 0) + (if is_bot then 2 else 0)) ≡ boosting)
      × (has_bit_1 ((if boosting then 1 else 0) + (if is_bot then 2 else 0)) ≡ is_bot)
flags_back false false = (refl, refl)
flags_back false true = (refl, refl)
flags_back true false = (refl, refl)
flags_back true true = (refl, refl)

pub put_snake-Reads :
    (s : SnakeView) → SnakeFits s → Reads read_snake (saturated_snake s) (put_snake s)
unfolding put_snake read_snake
put_snake-Reads s fits rest =
    let m = min_ℕ 65_535 s.mass in
    let r = min_ℕ 65_535 s.radius in
    let points = put_all-Reads read_point clamp_point put_point s.points (All-points s.points) in
    simp (
      append_assoc,
      read_uuid-Reads s.id fits.id,
      word1-Reads (length s.nickname) fits.nickname,
      read_text-Reads s.nickname,
      word2-Reads s.angle fits.angle,
      word2-Reads m (omega (arith, min_le 65_535 s.mass)),
      word2-Reads r (omega (arith, min_le 65_535 s.radius)),
      word1-Reads (snake_flags s) (flags_small s),
      word2-Reads (length s.points) fits.points,
      points,
      (flags_back s.boosting s.is_bot).0,
      (flags_back s.boosting s.is_bot).1,
    )

pub put_food-Reads :
    (f : FoodView) → f.id < 4_294_967_296 → Reads read_food (saturated_food f) (put_food f)
unfolding put_food read_food
put_food-Reads f fits rest = simp (
  append_assoc,
  word4-Reads f.id fits,
  put_point-Reads f.position,
  word1-Reads (min_ℕ 255 f.mass) (omega (arith, min_le 255 f.mass)),
)
