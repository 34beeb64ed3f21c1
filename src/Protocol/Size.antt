-- ===== src/Protocol/Size.antt =====
-- The size of a packed snapshot (packages/protocol/src/binary.ts: `estimateSize`).
use solana_snake_arena.Base.{
  ℕ, zero, suc, ◌+◌, ◌-◌, ◌*◌, ◌/◌, ◌≤◌, ◌≡◌, refl, Bool, List, [], ◌∷◌, ◌++◌, length, arith, All,
  length-append,
}
use solana_snake_arena.Base.Int.{ℤ, pos, negsuc}
use solana_snake_arena.Wire.{Bytes, little_endian}
use solana_snake_arena.Protocol.Snapshot.{
  Point, SnakeView, FoodView, Snapshot, put_i16, clamp_i16, put_point, put_all, put_snake, put_food,
  put_id, put_food_id, put_header, encode_snapshot, snakes_estimate, estimate_size, uuid_bytes,
}

pub length-little_endian : (k n : ℕ) → length (little_endian k n) ≡ k
unfolding little_endian
length-little_endian zero n = refl
length-little_endian (suc k) n = omega (arith, length-little_endian k (n / 256))

length-put_i16 : (z : ℤ) → length (put_i16 z) ≡ 2
unfolding put_i16
length-put_i16 (pos n) = length-little_endian 2 n
length-put_i16 (negsuc n) = length-little_endian 2 (65_535 - n)

length-put_point : (p : Point) → length (put_point p) ≡ 4
unfolding put_point
length-put_point p = omega (
  arith,
  length-append (put_i16 (clamp_i16 p.x)) (put_i16 (clamp_i16 p.y)),
  length-put_i16 (clamp_i16 p.x),
  length-put_i16 (clamp_i16 p.y),
)

-- Elements that are all packed to the same size.
pub length-put_all {ℓ} :
    {A : Type ℓ} (put : A → Bytes) (size : ℕ) (items : List A)
    → All (λ a. length (put a) ≡ size) items
    → length (put_all put items) ≡ length items * size
unfolding put_all
length-put_all put size [] h = omega arith
length-put_all put size (a ∷ items) h =
    let ih = length-put_all put size items h.1 in
    grind (arith, length-append (put a) (put_all put items), ih, h.0)

All-everywhere {ℓ} :
    {A : Type ℓ} (P : A → Type 0) → ((a : A) → P a) → (items : List A) → All P items
All-everywhere P k [] = tt
All-everywhere P k (a ∷ items) = (k a, All-everywhere P k items)

length-put_food : (f : FoodView) → length (put_food f) ≡ 9
unfolding put_food
length-put_food f = simp (length-append, length-little_endian, length-put_point)

-- A name takes at most three bytes for each of its UTF-16 units.
abbrev pub NameFits : (Bytes → ℕ) → SnakeView → Type 0
NameFits units s = (length s.id ≡ uuid_bytes) × (length s.nickname ≤ units s.nickname * 3)

length-put_snake :
    (s : SnakeView)
    → length (put_snake s) ≡ length s.id + 10 + length s.nickname + length s.points * 4
unfolding put_snake
length-put_snake s =
    let points =
      length-put_all put_point 4 s.points
        (All-everywhere (λ p. length (put_point p) ≡ 4) length-put_point s.points) in
    simp (length-append, length-little_endian, points) (omega arith)

put_snakes_le :
    (units : Bytes → ℕ) (snakes : List SnakeView)
    → All (NameFits units) snakes
    → length (put_all put_snake snakes) ≤ snakes_estimate units snakes
unfolding put_all snakes_estimate
put_snakes_le units [] h = omega arith
put_snakes_le units (s ∷ snakes) h =
    let id = h.0.0 in
    let name = h.0.1 in
    omega (
      arith,
      length-append (put_snake s) (put_all put_snake snakes),
      length-put_snake s,
      put_snakes_le units snakes h.1,
      id,
      name,
    )

pub length-put_header : (full : Bool) (s : Snapshot) → length (put_header full s) ≡ 22
unfolding put_header
length-put_header full s = simp (length-append, length-little_endian)

-- A packed snapshot takes no more than the buffer that is made for it, ids having sixteen bytes and names at
-- most three bytes for each of their UTF-16 units: no write overruns it.
pub encode_snapshot-le :
    (units : Bytes → ℕ) (full : Bool) (s : Snapshot)
    → All (NameFits units) s.snakes
    → All (λ (id : Bytes). length id ≡ uuid_bytes) s.removed_snakes
    → length (encode_snapshot full s) ≤ estimate_size units s
unfolding encode_snapshot estimate_size
encode_snapshot-le units full s names ids =
    let snakes = put_all put_snake s.snakes in
    let food = put_all put_food s.food in
    let removed = put_all put_id s.removed_snakes in
    let eaten = put_all put_food_id s.removed_food in
    omega (
      arith,
      length-append (put_header full s) (snakes ++ (food ++ (removed ++ eaten))),
      length-append snakes (food ++ (removed ++ eaten)),
      length-append food (removed ++ eaten),
      length-append removed eaten,
      length-put_header full s,
      put_snakes_le units s.snakes names,
      length-put_all put_food 9 s.food
          (All-everywhere (λ f. length (put_food f) ≡ 9) length-put_food s.food),
      length-put_all put_id 16 s.removed_snakes ids,
      length-put_all put_food_id 4 s.removed_food (
          All-everywhere (λ n. length (put_food_id n) ≡ 4) (length-little_endian 4) s.removed_food),
    )
