-- ===== src/Protocol/Decode.antt =====
-- Unpacking a snapshot (packages/protocol/src/binary.ts: `decodeSnapshot`). The offset is what is left of the
-- buffer; a RangeError is `none`. Ids and names are read from the raw bytes, which does not fail past the
-- end: an id is filled with zeros, a name is shorter.
use solana_snake_arena.Base.{
  ℕ, ◌-◌, ◌%◌, ◌/◌, Bool, not, ltb, ◌==◌, Option, none, some, ◌++◌, length, take, drop, replicate,
  if◌then◌else◌,
}
use solana_snake_arena.Base.Int.{ℤ, pos, negsuc}
use solana_snake_arena.Wire.{Bytes, Reader, bind_option, and_then, give, read_word, read_times}
use solana_snake_arena.Protocol.Snapshot.{
  Point, SnakeView, FoodView, Snapshot, snapshot_type, header_bytes, uuid_bytes,
}

unfoldable pub read_uuid : Reader Bytes
read_uuid bytes =
    let raw = take uuid_bytes bytes in
    some (raw ++ replicate (uuid_bytes - length raw) 0, drop uuid_bytes bytes)

unfoldable pub read_text : ℕ → Reader Bytes
read_text n bytes = some (take n bytes, drop n bytes)

unfoldable pub i16_of : ℕ → ℤ
i16_of n = if ltb n 32_768 then pos n else negsuc (65_535 - n)

abbrev pub read_i16 : Reader ℤ
read_i16 = and_then (read_word 2) (λ n. give (i16_of n))

unfoldable pub read_point : Reader Point
read_point = and_then read_i16 (λ x. and_then read_i16 (λ y. give (record { x = x; y = y })))

-- `(flags & 1) !== 0` and `(flags & 2) !== 0`
abbrev pub has_bit_0 : ℕ → Bool
has_bit_0 flags = not (flags % 2 == 0)

abbrev pub has_bit_1 : ℕ → Bool
has_bit_1 flags = not (flags / 2 % 2 == 0)

unfoldable pub read_snake : Reader SnakeView
read_snake = and_then read_uuid (λ id. and_then (read_word 1) (λ nickname_length.
    and_then (read_text nickname_length) (λ nickname. and_then (read_word 2) (λ angle.
      and_then (read_word 2) (λ mass. and_then (read_word 2) (λ radius.
        and_then (read_word 1) (λ flags. and_then (read_word 2) (λ point_count.
          and_then (read_times read_point point_count) (λ points. give (record {
            id = id;
            nickname = nickname;
            angle = angle;
            mass = mass;
            radius = radius;
            boosting = has_bit_0 flags;
            is_bot = has_bit_1 flags;
            points = points;
          }))))))))))

unfoldable pub read_food : Reader FoodView
read_food = and_then (read_word 4) (λ id. and_then read_point (λ position.
    and_then (read_word 1)
      (λ mass. give (record { id = id; position = position; mass = mass; hue = id % 360 }))))

unfoldable pub read_body : Reader Snapshot
read_body = and_then (read_word 1) (λ flags. and_then (read_word 2) (λ snake_count.
    and_then (read_word 2) (λ food_count. and_then (read_word 2) (λ removed_snake_count.
      and_then (read_word 2) (λ removed_food_count. and_then (read_word 4) (λ tick.
        and_then (read_word 4) (λ server_time. and_then (read_word 4) (λ ack_seq.
          and_then (read_times read_snake snake_count) (λ snakes.
            and_then (read_times read_food food_count) (λ food.
              and_then (read_times read_uuid removed_snake_count) (λ removed_snakes.
                and_then (read_times (read_word 4) removed_food_count) (λ removed_food.
                  give (record {
                    tick = tick;
                    server_time = server_time;
                    ack_seq = ack_seq;
                    snakes = snakes;
                    food = food;
                    removed_snakes = removed_snakes;
                    removed_food = removed_food;
                  })))))))))))))

unfoldable pub decode_snapshot : Bytes → Option Snapshot
decode_snapshot bytes =
    if ltb (length bytes) header_bytes
    then none
    else bind_option (read_word 1 bytes) (λ r.
      if not (r.0 == snapshot_type)
      then none
      else bind_option (read_body r.1) (λ body. some body.0))
