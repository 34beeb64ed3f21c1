-- ===== src/Protocol/Tests.antt =====
-- Messages packed and unpacked (packages/protocol/src/binary.ts), and the theorems at inputs that meet their
-- hypotheses.
use solana_snake_arena.Base.{
  ◌≤◌, ◌≡◌, refl, true, false, some, [], ◌∷◌, ◌++◌, arith, length, replicate, map, is_some,
}
use solana_snake_arena.Base.Int.{pos, negsuc}
use solana_snake_arena.Wire.{Bytes, read_word, read_times}
use solana_snake_arena.Protocol.Snapshot.{
  SnakeView, FoodView, Snapshot, encode_snapshot, estimate_size,
}
use solana_snake_arena.Protocol.Decode.{decode_snapshot, read_body, read_uuid}
use solana_snake_arena.Protocol.Size.{encode_snapshot-le}
use solana_snake_arena.Protocol.RoundTrip.{SnapshotFits, saturated, decode_snapshot-encode_snapshot}
use solana_snake_arena.Protocol.Input.{InputBatch, encode_input_batch, decode_input_batch}
use solana_snake_arena.Protocol.Hostile.{is_acceptable_batch, decode_input_batch_accepts}
use solana_snake_arena.Protocol.Batches.{received, decode_input_batch-encode_input_batch}

abbrev snake : SnakeView
snake = record {
  id = replicate 16 3;
  nickname = 65 ∷ 66 ∷ [];
  angle = 40_000;
  mass = 70_000;
  radius = 20;
  boosting = true;
  is_bot = false;
  points = record { x = pos 40; y = negsuc 99_999 } ∷ [];
}

abbrev pellet : FoodView
pellet = record { id = 725; position = record { x = pos 1; y = pos 2 }; mass = 4; hue = 0 }

abbrev snapshot : Snapshot
snapshot = record {
  tick = 100;
  server_time = 5_000;
  ack_seq = 7;
  snakes = snake ∷ [];
  food = pellet ∷ [];
  removed_snakes = replicate 16 9 ∷ [];
  removed_food = 12 ∷ [];
}

snapshot_fits : SnapshotFits snapshot
snapshot_fits = record {
  tick = omega arith;
  server_time = omega arith;
  ack_seq = omega arith;
  snake_count = omega arith;
  food_count = omega arith;
  removed_snake_count = omega arith;
  removed_food_count = omega arith;
  snakes =
      (record { id = refl; nickname = omega arith; angle = omega arith; points = omega arith }, tt);
  food = (omega arith, tt);
  removed_snakes = (refl, tt);
  removed_food = (omega arith, tt);
}

decode_snapshot-encode_snapshot_example :
    decode_snapshot (encode_snapshot true snapshot ++ (255 ∷ [])) ≡ some (saturated snapshot)
decode_snapshot-encode_snapshot_example =
    decode_snapshot-encode_snapshot true snapshot (255 ∷ []) snapshot_fits

encode_snapshot-le_example : length (encode_snapshot true snapshot) ≤ estimate_size length snapshot
encode_snapshot-le_example =
    encode_snapshot-le length true snapshot ((refl, omega arith), tt) (refl, tt)

-- A header that announces one removed snake, with nothing behind it.
abbrev cut_short : Bytes
cut_short =
    1 ∷ 0 ∷ 0 ∷ 0 ∷ 0 ∷ 0 ∷ 1 ∷ 0 ∷ 0 ∷ 0 ∷ 5 ∷ 0 ∷ 0 ∷ 0 ∷ 6 ∷ 0 ∷ 0 ∷ 0 ∷ 7 ∷ 0 ∷ 0 ∷ 0 ∷ []

-- It is unpacked all the same, with an id of zeros.
cut_short_accepted :
    decode_snapshot cut_short
    ≡ some (record {
      tick = 5;
      server_time = 6;
      ack_seq = 7;
      snakes = [];
      food = [];
      removed_snakes = replicate 16 0 ∷ [];
      removed_food = [];
    })
unfolding decode_snapshot read_body read_word read_times read_uuid
cut_short_accepted = refl

abbrev batch : InputBatch
batch = record {
  commands =
      record { seq = 1; angle = 60_000; boost = true; dt = 16 }
      ∷ record { seq = 2; angle = 10; boost = false; dt = 400 }
      ∷ [];
  client_time = 9_000;
}

decode_input_batch-encode_input_batch_example :
    decode_input_batch (encode_input_batch batch ++ [])
    ≡ some (record { commands = map received batch.commands; client_time = 9_000 })
decode_input_batch-encode_input_batch_example =
    decode_input_batch-encode_input_batch batch [] (omega arith) (omega arith) (omega arith) (
      record { seq = omega arith; angle = omega arith },
      (record { seq = omega arith; angle = omega arith }, tt),
    )

decode_input_batch_accepts_example :
    is_some (decode_input_batch (2 ∷ 1 ∷ 0 ∷ 0 ∷ 0 ∷ 0 ∷ []))
    ≡ is_acceptable_batch (2 ∷ 1 ∷ 0 ∷ 0 ∷ 0 ∷ 0 ∷ [])
decode_input_batch_accepts_example = decode_input_batch_accepts (2 ∷ 1 ∷ 0 ∷ 0 ∷ 0 ∷ 0 ∷ [])
