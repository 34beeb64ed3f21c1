-- ===== src/Protocol/RoundTrip.antt =====
-- What is packed is unpacked (packages/protocol/src/binary.ts: `encodeSnapshot`, `decodeSnapshot`).
use solana_snake_arena.Base.{
  ℕ, ◌<◌, ◌≡◌, refl, Bool, true, false, not, ltb, none, some, List, [], ◌∷◌, ◌++◌, map, length,
  ◌==◌, if◌then◌else◌, arith, All, length-append,
}
use solana_snake_arena.Wire.{append_assoc, Bytes, bind_option, read_word, Reads}
use solana_snake_arena.Protocol.Snapshot.{
  Snapshot, put_all, put_snake, put_food, put_id, put_food_id, put_header, encode_snapshot,
  snapshot_type,
}
use solana_snake_arena.Protocol.Size.{length-put_header}
use solana_snake_arena.Protocol.Decode.{
  read_uuid, read_snake, read_food, read_body, decode_snapshot,
}
use solana_snake_arena.Protocol.Fields.{
  word1-Reads, word2-Reads, word4-Reads, put_all-Reads, read_uuid-Reads, SnakeFits, saturated_snake,
  saturated_food, put_snake-Reads, put_food-Reads,
}

-- A snapshot that its fields can carry.
pub record SnapshotFits (s : Snapshot) : Type 0 where
  pub tick : s.tick < 4_294_967_296
  pub server_time : s.server_time < 4_294_967_296
  pub ack_seq : s.ack_seq < 4_294_967_296
  pub snake_count : length s.snakes < 65_536
  pub food_count : length s.food < 65_536
  pub removed_snake_count : length s.removed_snakes < 65_536
  pub removed_food_count : length s.removed_food < 65_536
  pub snakes : All SnakeFits s.snakes
  pub food : All (λ f. f.id < 4_294_967_296) s.food
  pub removed_snakes : All (λ (id : Bytes). length id ≡ 16) s.removed_snakes
  pub removed_food : All (λ (id : ℕ). id < 4_294_967_296) s.removed_food

abbrev pub saturated : Snapshot → Snapshot
saturated s = record s { snakes = map saturated_snake s.snakes; food = map saturated_food s.food }

All-map {ℓ κ μ} :
    {A : Type ℓ} (P : A → Type κ) (Q : A → Type μ)
    → ((a : A) → P a → Q a)
    → (items : List A) → All P items
    → All Q items
All-map P Q k [] h = tt
All-map P Q k (a ∷ items) h = (k a h.0, All-map P Q k items h.1)

map_same : {A : Type 0} (items : List A) → map (λ (a : A). a) items ≡ items
map_same [] = refl
map_same (a ∷ items) = cc (map_same items)

flag_small : (full : Bool) → (if full then 1 else 0) < 256
flag_small true = omega arith
flag_small false = omega arith

long_enough :
    (full : Bool) (s : Snapshot) (rest : Bytes)
    → ltb (length (encode_snapshot full s ++ rest)) 22 ≡ false
unfolding encode_snapshot
long_enough full s rest =
    let more =
      put_all put_snake s.snakes
      ++ (put_all put_food s.food
          ++ (put_all put_id s.removed_snakes ++ put_all put_food_id s.removed_food)) in
    ground (
      arith,
      length-append (put_header full s ++ more) rest,
      length-append (put_header full s) more,
      length-put_header full s,
    )

-- Past the check of the length.
unpacked :
    (full : Bool) (s : Snapshot) (rest : Bytes)
    → SnapshotFits s
    → bind_option (read_word 1 (encode_snapshot full s ++ rest)) (λ r.
      if not (r.0 == snapshot_type)
      then none
      else bind_option (read_body r.1) (λ body. some body.0))
      ≡ some (saturated s)
unfolding encode_snapshot put_header read_body
unpacked full s rest fits =
    let snakes = put_all-Reads read_snake saturated_snake put_snake s.snakes (
      All-map SnakeFits (λ a. Reads read_snake (saturated_snake a) (put_snake a)) put_snake-Reads
        s.snakes fits.snakes) in
    let food = put_all-Reads read_food saturated_food put_food s.food (
      All-map (λ f. f.id < 4_294_967_296) (λ a. Reads read_food (saturated_food a) (put_food a))
        put_food-Reads s.food fits.food) in
    let removed =
      put_all-Reads read_uuid (λ (id : Bytes). id) put_id s.removed_snakes
        (All-map (λ (id : Bytes). length id ≡ 16) (λ a. Reads read_uuid a (put_id a))
          read_uuid-Reads s.removed_snakes fits.removed_snakes) in
    let eaten =
      put_all-Reads (read_word 4) (λ (id : ℕ). id) put_food_id s.removed_food
        (All-map (λ (id : ℕ). id < 4_294_967_296) (λ a. Reads (read_word 4) a (put_food_id a))
          word4-Reads s.removed_food fits.removed_food) in
    simp (
      append_assoc,
      word1-Reads snapshot_type (omega arith),
      word1-Reads (if full then 1 else 0) (flag_small full),
      word2-Reads (length s.snakes) fits.snake_count,
      word2-Reads (length s.food) fits.food_count,
      word2-Reads (length s.removed_snakes) fits.removed_snake_count,
      word2-Reads (length s.removed_food) fits.removed_food_count,
      word4-Reads s.tick fits.tick,
      word4-Reads s.server_time fits.server_time,
      word4-Reads s.ack_seq fits.ack_seq,
      snakes,
      food,
      removed,
      eaten,
      map_same s.removed_snakes,
      map_same s.removed_food,
    )

-- A snapshot whose counts, numbers, ids and names its fields can carry is unpacked to what was packed, up to
-- the saturation of masses, radii and positions and the hue, which is derived from a pellet's number; bytes
-- after it are ignored.
pub decode_snapshot-encode_snapshot :
    (full : Bool) (s : Snapshot) (rest : Bytes)
    → SnapshotFits s
    → decode_snapshot (encode_snapshot full s ++ rest) ≡ some (saturated s)
unfolding decode_snapshot
decode_snapshot-encode_snapshot full s rest fits =
    rw (long_enough full s rest, decode_snapshot) (unpacked full s rest fits)
