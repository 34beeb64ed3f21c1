-- ===== src/Anticheat/Inputs.antt =====
-- Validation of a batch of inputs (apps/realtime/src/anticheat/validators.ts). A number that a client sends may
-- not be finite; angles are in millionths of a radian, times in milliseconds.
-- The counts of rejections by reason are those of the list of rejected commands, and left out.
use solana_snake_arena.Base.{ℕ, ◌+◌, ◌-◌, Bool, false, not, ◌&&◌, leb, List, [], ◌∷◌, if◌then◌else◌}
use solana_snake_arena.Base.Int.{ℤ, pos, ◌+ℤ◌, ◌-ℤ◌, ltb_ℤ, leb_ℤ}
use solana_snake_arena.Anticheat.{Limit, Bucket, new_bucket, consume_input_budget}

pub data Reading : Type 0 where
  finite : ℤ → Reading
  not_finite : Reading

-- A sequence number that a client sends: an integer, or anything that `Number.isInteger` refuses.
pub data SequenceNumber : Type 0 where
  integer : ℤ → SequenceNumber
  not_integer : SequenceNumber

pub record InputCommand : Type 0 where
  pub seq : SequenceNumber
  pub angle : Reading
  pub boost : Bool
  pub dt : Reading

pub data RejectionReason : Type 0 where
  stale_sequence sequence_jump rate_limited bad_angle bad_dt : RejectionReason

pub record InputGuardState : Type 0 where
  pub last_seq : ℤ
  pub budget : Bucket
  pub suspicion : ℕ

abbrev pub create_guard_state : ℕ → Limit → InputGuardState
create_guard_state now limit = record {
  last_seq = pos 0;
  budget = new_bucket limit now;
  suspicion = 0;
}

pub data Verdict : Type 0 where
  accept : Verdict
  reject : RejectionReason → Verdict

abbrev pub max_jump : ℕ
max_jump = 600

unfoldable pub is_sequence_valid : ℤ → SequenceNumber → Verdict
is_sequence_valid last_seq not_integer = reject stale_sequence
is_sequence_valid last_seq (integer incoming_seq) =
    if leb_ℤ incoming_seq last_seq
    then reject stale_sequence
    else if ltb_ℤ (pos max_jump) (incoming_seq -ℤ last_seq)
    then reject sequence_jump
    else accept

-- The half turn and a millionth.
abbrev pub angle_limit : ℕ
angle_limit = 3_141_593

abbrev pub is_angle_valid : Reading → Bool
is_angle_valid (finite a) = leb_ℤ a (pos angle_limit) && leb_ℤ (pos 0) (a +ℤ pos angle_limit)
is_angle_valid not_finite = false

abbrev pub is_dt_valid : Reading → Bool
is_dt_valid (finite dt) = leb_ℤ (pos 0) dt && leb_ℤ dt (pos 250)
is_dt_valid not_finite = false

abbrev pub min_ℤ : ℤ → ℤ → ℤ
min_ℤ a b = if leb_ℤ a b then a else b

unfoldable pub clamp_delta_time : Reading → ℤ → ℤ
clamp_delta_time (finite dt) max_dt = if ltb_ℤ dt (pos 0) then pos 0 else min_ℤ dt max_dt
clamp_delta_time not_finite max_dt = pos 0

unfoldable pub suspicion_weight : RejectionReason → ℕ
suspicion_weight rate_limited = 1
suspicion_weight stale_sequence = 1
suspicion_weight sequence_jump = 4
suspicion_weight bad_angle = 8
suspicion_weight bad_dt = 8

pub record InputOptions : Type 0 where
  pub now : ℕ
  pub max_dt_ms : ℤ
  pub limit : Limit

-- What the checks after the budget say of a command.
unfoldable pub verdict_on : ℤ → InputCommand → Verdict
verdict_on last_seq c = elim (is_sequence_valid last_seq c.seq) [
  | reject reason ↦ reject reason
  | accept ↦
      if not (is_angle_valid c.angle)
      then reject bad_angle
      else if not (is_dt_valid c.dt)
      then reject bad_dt
      else accept
]

pub record Rejection : Type 0 where
  pub command : InputCommand
  pub reason : RejectionReason

pub record Validation : Type 0 where
  pub state : InputGuardState
  pub accepted : List InputCommand
  pub rejected : List Rejection

abbrev pub clamped : InputOptions → InputCommand → InputCommand
clamped options c = record c { dt = finite (clamp_delta_time c.dt options.max_dt_ms) }

abbrev pub record_rejection : InputCommand → RejectionReason → Validation → Validation
record_rejection c reason rest = record rest {
  rejected = record { command = c; reason = reason } ∷ rest.rejected;
}

abbrev pub suspected : RejectionReason → InputGuardState → InputGuardState
suspected reason state = record state { suspicion = state.suspicion + suspicion_weight reason }

-- `state.lastSeq = command.seq`, which is only reached with an integer.
abbrev pub remembered : SequenceNumber → ℤ → ℤ
remembered (integer seq) last_seq = seq
remembered not_integer last_seq = last_seq

-- The verdict on the next command, and the state that it leaves.
unfoldable pub step_input :
    InputOptions → InputGuardState → InputCommand → Verdict × InputGuardState
step_input options state c =
    let r = consume_input_budget options.limit options.now state.budget in
    let charged = record state { budget = r.1 } in
    if not r.0
    then (reject rate_limited, suspected rate_limited charged)
    else elim (verdict_on state.last_seq c) [
      | reject reason ↦ (reject reason, suspected reason charged)
      | accept ↦ (accept, record charged { last_seq = remembered c.seq state.last_seq })
    ]

abbrev pub note_verdict : InputOptions → InputCommand → Verdict → Validation → Validation
note_verdict options c accept rest = record rest { accepted = clamped options c ∷ rest.accepted }
note_verdict options c (reject reason) rest = record_rejection c reason rest

unfoldable pub validate_input_batch :
    InputOptions → InputGuardState → List InputCommand → Validation
validate_input_batch options state [] = record { state = state; accepted = []; rejected = [] }
validate_input_batch options state (c ∷ commands) =
    let r = step_input options state c in
    note_verdict options c r.0 (validate_input_batch options r.1 commands)

unfoldable pub decay_suspicion : ℕ → InputGuardState → InputGuardState
decay_suspicion amount state = record state { suspicion = state.suspicion - amount }

abbrev pub suspicion_threshold : ℕ
suspicion_threshold = 200

abbrev pub should_shadowban : InputGuardState → Bool
should_shadowban state = leb suspicion_threshold state.suspicion
