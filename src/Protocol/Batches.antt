-- ===== src/Protocol/Batches.antt =====
-- A batch of commands is unpacked to what was packed (packages/protocol/src/binary.ts).
use solana_snake_arena.Base.{
  ℕ, ◌+◌, ◌*◌, ◌≤◌, ◌<◌, ◌≡◌, refl, sym, ap, ◌∙◌, Bool, true, false, ◌||◌, ltb, ◌==◌, some, List,
  [], ◌∷◌, ◌++◌, map, length, if◌then◌else◌, arith, All, length-append,
}
use solana_snake_arena.Base.Int.{ℤ, pos, ◌-ℤ◌}
use solana_snake_arena.Wire.{Bytes, little_endian, Reads, append_assoc}
use solana_snake_arena.Protocol.Snapshot.{input_batch_type, min_ℕ, put_all}
use solana_snake_arena.Protocol.Size.{length-little_endian, length-put_all}
use solana_snake_arena.Protocol.Fields.{
  word1-Reads, word2-Reads, word4-Reads, put_all-Reads, min_le,
}
use solana_snake_arena.Protocol.Input.{
  Command, InputBatch, ReceivedCommand, put_command, encode_input_batch, signed_angle, read_command,
  read_commands, decode_input_batch,
}

-- A command that its fields can carry.
pub record CommandFits (c : Command) : Type 0 where
  pub seq : c.seq < 4_294_967_296
  pub angle : c.angle < 65_536

-- The angle of at most half a turn to either side: an angle above half a turn, less a whole turn.
abbrev pub to_nearer_side : ℕ → ℤ
to_nearer_side n = pos n -ℤ (if ltb 65_535 (n + n) then pos 65_535 else pos 0)

signed_angle-nearer : (n : ℕ) → n < 65_536 → signed_angle n ≡ to_nearer_side n
unfolding signed_angle ◌-ℤ◌
signed_angle-nearer n small = ground arith

-- A command as it arrives.
abbrev pub received : Command → ReceivedCommand
received c = record {
  seq = c.seq;
  angle = to_nearer_side c.angle;
  boost = c.boost;
  dt = min_ℕ 255 c.dt;
}

boost_small : (b : Bool) → (if b then 1 else 0) < 256
boost_small true = omega arith
boost_small false = omega arith

boost_back : (b : Bool) → ((if b then 1 else 0) == 1) ≡ b
boost_back true = refl
boost_back false = refl

put_command-Reads : (c : Command) → CommandFits c → Reads read_command (received c) (put_command c)
unfolding put_command read_command
put_command-Reads c fits rest = simp (
  append_assoc,
  word4-Reads c.seq fits.seq,
  word2-Reads c.angle fits.angle,
  word1-Reads (if c.boost then 1 else 0) (boost_small c.boost),
  word1-Reads (min_ℕ 255 c.dt) (omega (arith, min_le 255 c.dt)),
  boost_back c.boost,
  signed_angle-nearer c.angle fits.angle,
)

length-put_command : (c : Command) → length (put_command c) ≡ 8
unfolding put_command
length-put_command c = simp (length-append, length-little_endian)

All-commands :
    (commands : List Command)
    → All CommandFits commands
    → All (λ c. Reads read_command (received c) (put_command c)) commands
All-commands [] h = tt
All-commands (c ∷ commands) h = (put_command-Reads c h.0, All-commands commands h.1)

All-eight : (commands : List Command) → All (λ c. length (put_command c) ≡ 8) commands
All-eight [] = tt
All-eight (c ∷ commands) = (length-put_command c, All-eight commands)

length-encode_input_batch :
    (b : InputBatch) → length (encode_input_batch b) ≡ 6 + length b.commands * 8
unfolding encode_input_batch
length-encode_input_batch b =
    simp
      (
        length-append,
        length-little_endian,
        length-put_all put_command 8 b.commands (All-eight b.commands),
      )
      (omega arith)

read_commands-Reads :
    (b : InputBatch)
    → b.client_time < 4_294_967_296
    → All CommandFits b.commands
    → Reads
        (read_commands (length b.commands))
        (record { commands = map received b.commands; client_time = b.client_time })
        (little_endian 4 b.client_time ++ put_all put_command b.commands)
unfolding read_commands
read_commands-Reads b time fits rest = simp (
  append_assoc,
  word4-Reads b.client_time time,
  put_all-Reads read_command received put_command b.commands (All-commands b.commands fits),
)

long : (n m : ℕ) → ltb (6 + n * 8 + m) 6 ≡ false
long n m = ground arith

covered : (n m : ℕ) → ltb (6 + n * 8 + m) (6 + n * 8) ≡ false
covered n m = ground arith

counted : (n : ℕ) → 1 ≤ n → n ≤ 10 → ((n == 0) || ltb 10 n) ≡ false
counted n one ten = ground arith

-- A batch of one to ten commands, whose numbers its fields can carry, is unpacked to those commands in
-- their order, with times of at most 255 and every angle above half a turn less a whole turn, so of at
-- most half a turn to either side; bytes after it are ignored.
pub decode_input_batch-encode_input_batch :
    (b : InputBatch) (rest : Bytes)
    → 1 ≤ length b.commands
    → length b.commands ≤ 10
    → b.client_time < 4_294_967_296
    → All CommandFits b.commands
    → decode_input_batch (encode_input_batch b ++ rest)
      ≡ some (record { commands = map received b.commands; client_time = b.client_time })
unfolding decode_input_batch encode_input_batch
decode_input_batch-encode_input_batch b rest one ten time fits =
    let n = length b.commands in
    let time_bytes = little_endian 4 b.client_time in
    let packed = put_all put_command b.commands in
    let size : length (encode_input_batch b ++ rest) ≡ 6 + n * 8 + length rest =
      omega (arith, length-append (encode_input_batch b) rest, length-encode_input_batch b) in
    let read : read_commands n (time_bytes ++ (packed ++ rest))
        ≡ some (record { commands = map received b.commands; client_time = b.client_time }, rest) =
      sym (ap (read_commands n) (append_assoc time_bytes packed rest))
      ∙ read_commands-Reads b time fits rest in
    rw (size, decode_input_batch)
      (simp (
        long n (length rest),
        covered n (length rest),
        counted n one ten,
        append_assoc,
        word1-Reads input_batch_type (omega arith),
        word1-Reads n (omega arith),
        read,
      ))
