-- ===== src/Protocol/Snapshot.antt =====
-- Packing a snapshot (packages/protocol/src/binary.ts: `encodeSnapshot`). What the source rounds to the wire's
-- units by floating-point arithmetic is given in those units: angles in 65535ths of a turn, radii in
-- quarters, positions in quarters relative to the viewer. A name is given by its UTF-8 bytes, an id by its
-- sixteen. A number that is written to a field wraps as the field does.
use solana_snake_arena.Base.{
  ℕ, ◌+◌, ◌-◌, ◌*◌, Bool, ltb, List, [], ◌∷◌, ◌++◌, length, if◌then◌else◌,
}
use solana_snake_arena.Base.Int.{ℤ, pos, negsuc}
use solana_snake_arena.Wire.{Bytes, little_endian}

-- A point, in quarters of a unit from the viewer.
pub record Point : Type 0 where
  pub x : ℤ
  pub y : ℤ

pub record SnakeView : Type 0 where
  pub id : Bytes
  pub nickname : Bytes
  pub angle : ℕ
  pub mass : ℕ
  pub radius : ℕ
  pub boosting : Bool
  pub is_bot : Bool
  pub points : List Point

pub record FoodView : Type 0 where
  pub id : ℕ
  pub position : Point
  pub mass : ℕ
  pub hue : ℕ

pub record Snapshot : Type 0 where
  pub tick : ℕ
  pub server_time : ℕ
  pub ack_seq : ℕ
  pub snakes : List SnakeView
  pub food : List FoodView
  pub removed_snakes : List Bytes
  pub removed_food : List ℕ

abbrev pub snapshot_type : ℕ
snapshot_type = 1

abbrev pub input_batch_type : ℕ
input_batch_type = 2

abbrev pub full_flag : ℕ
full_flag = 1

abbrev pub header_bytes : ℕ
header_bytes = 22

abbrev pub uuid_bytes : ℕ
uuid_bytes = 16

abbrev pub min_ℕ : ℕ → ℕ → ℕ
min_ℕ m n = if ltb n m then n else m

unfoldable pub clamp_i16 : ℤ → ℤ
clamp_i16 (pos n) = pos (min_ℕ 32_767 n)
clamp_i16 (negsuc n) = negsuc (min_ℕ 32_767 n)

-- `setInt16`, of a number in range.
unfoldable pub put_i16 : ℤ → Bytes
put_i16 (pos n) = little_endian 2 n
put_i16 (negsuc n) = little_endian 2 (65_535 - n)

unfoldable pub put_point : Point → Bytes
put_point p = put_i16 (clamp_i16 p.x) ++ put_i16 (clamp_i16 p.y)

-- What each element of a list is packed to, joined.
unfoldable pub put_all {ℓ} : {A : Type ℓ} → (A → Bytes) → List A → Bytes
put_all put [] = []
put_all put (a ∷ items) = put a ++ put_all put items

abbrev pub snake_flags : SnakeView → ℕ
snake_flags s = (if s.boosting then 1 else 0) + (if s.is_bot then 2 else 0)

unfoldable pub put_snake : SnakeView → Bytes
put_snake s =
    s.id
    ++ (little_endian 1 (length s.nickname)
        ++ (s.nickname
            ++ (little_endian 2 s.angle
                ++ (little_endian 2 (min_ℕ 65_535 s.mass)
                    ++ (little_endian 2 (min_ℕ 65_535 s.radius)
                        ++ (little_endian 1 (snake_flags s)
                            ++ (little_endian 2 (length s.points)
                                ++ put_all put_point s.points)))))))

unfoldable pub put_food : FoodView → Bytes
put_food f = little_endian 4 f.id ++ (put_point f.position ++ little_endian 1 (min_ℕ 255 f.mass))

abbrev pub put_id : Bytes → Bytes
put_id id = id

abbrev pub put_food_id : ℕ → Bytes
put_food_id = little_endian 4

unfoldable pub put_header : Bool → Snapshot → Bytes
put_header full s =
    little_endian 1 snapshot_type
    ++ (little_endian 1 (if full then full_flag else 0)
        ++ (little_endian 2 (length s.snakes)
            ++ (little_endian 2 (length s.food)
                ++ (little_endian 2 (length s.removed_snakes)
                    ++ (little_endian 2 (length s.removed_food)
                        ++ (little_endian 4 s.tick
                            ++ (little_endian 4 s.server_time ++ little_endian 4 s.ack_seq)))))))

unfoldable pub encode_snapshot : Bool → Snapshot → Bytes
encode_snapshot full s =
    put_header full s
    ++ (put_all put_snake s.snakes
        ++ (put_all put_food s.food
            ++ (put_all put_id s.removed_snakes ++ put_all put_food_id s.removed_food)))

-- `nickname.length` of a text with these bytes is a parameter.
unfoldable pub snakes_estimate : (Bytes → ℕ) → List SnakeView → ℕ
snakes_estimate units [] = 0
snakes_estimate units (s ∷ snakes) =
    uuid_bytes
    + 1
    + units s.nickname * 3
    + 2
    + 2
    + 2
    + 1
    + 2
    + length s.points * 4
    + snakes_estimate units snakes

unfoldable pub estimate_size : (Bytes → ℕ) → Snapshot → ℕ
estimate_size units s =
    header_bytes
    + snakes_estimate units s.snakes
    + length s.food * 9
    + length s.removed_snakes * uuid_bytes
    + length s.removed_food * 4
