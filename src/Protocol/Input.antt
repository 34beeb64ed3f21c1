-- ===== src/Protocol/Input.antt =====
-- Batches of a client's commands (packages/protocol/src/binary.ts: `encodeInputBatch`, `decodeInputBatch`).
-- Angles are in 65535ths of a turn, as they are on the wire, and signed when unpacked; times are rounded.
use solana_snake_arena.Base.{
  ℕ, ◌+◌, ◌-◌, ◌*◌, Bool, not, ◌||◌, ltb, leb, ◌==◌, Option, none, some, List, ◌++◌, length,
  if◌then◌else◌,
}
use solana_snake_arena.Base.Int.{ℤ, pos, negsuc}
use solana_snake_arena.Wire.{
  Bytes, little_endian, Reader, bind_option, and_then, give, read_word, read_times,
}
use solana_snake_arena.Protocol.Snapshot.{input_batch_type, min_ℕ, put_all}

pub record Command : Type 0 where
  pub seq : ℕ
  pub angle : ℕ
  pub boost : Bool
  pub dt : ℕ

pub record InputBatch : Type 0 where
  pub commands : List Command
  pub client_time : ℕ

pub record ReceivedCommand : Type 0 where
  pub seq : ℕ
  pub angle : ℤ
  pub boost : Bool
  pub dt : ℕ

pub record ReceivedBatch : Type 0 where
  pub commands : List ReceivedCommand
  pub client_time : ℕ

unfoldable pub put_command : Command → Bytes
put_command c =
    little_endian 4 c.seq
    ++ (little_endian 2 c.angle
        ++ (little_endian 1 (if c.boost then 1 else 0) ++ little_endian 1 (min_ℕ 255 c.dt)))

unfoldable pub encode_input_batch : InputBatch → Bytes
encode_input_batch b =
    little_endian 1 input_batch_type
    ++ (little_endian 1 (length b.commands)
        ++ (little_endian 4 b.client_time ++ put_all put_command b.commands))

-- More than half a turn is a turn to the other side.
unfoldable pub signed_angle : ℕ → ℤ
signed_angle n =
    if ltb 32_767 n then (if leb 65_535 n then pos (n - 65_535) else negsuc (65_534 - n)) else pos n

unfoldable pub read_command : Reader ReceivedCommand
read_command = and_then (read_word 4) (λ seq. and_then (read_word 2) (λ angle.
    and_then (read_word 1) (λ boost. and_then (read_word 1) (λ dt.
      give (record { seq = seq; angle = signed_angle angle; boost = boost == 1; dt = dt })))))

-- After the type and the count.
unfoldable pub read_commands : ℕ → Reader ReceivedBatch
read_commands count = and_then (read_word 4) (λ client_time.
    and_then (read_times read_command count)
      (λ commands. give (record { commands = commands; client_time = client_time })))

unfoldable pub decode_input_batch : Bytes → Option ReceivedBatch
decode_input_batch bytes =
    if ltb (length bytes) 6
    then none
    else bind_option (read_word 1 bytes) (λ r.
      if not (r.0 == input_batch_type)
      then none
      else bind_option (read_word 1 r.1) (λ c.
        if (c.0 == 0) || ltb 10 c.0
        then none
        else if ltb (length bytes) (6 + c.0 * 8)
        then none
        else bind_option (read_commands c.0 c.1) (λ b. some b.0)))
