-- ===== src/Anticheat/Soundness.antt =====
-- What a validated batch of inputs is (apps/realtime/src/anticheat/validators.ts: `validateInputBatch`).
use solana_snake_arena.Base.{
  ℕ, ◌+◌, ◌≡◌, refl, ◌∙◌, ap, subst, true, not, List, [], ◌∷◌, length, if_elim, arith, inl, inr,
  ◌⊎◌, All,
}
use solana_snake_arena.Base.Int.{ℤ, pos, ◌+ℤ◌, ◌≤ℤ◌, ◌<ℤ◌, +ℤ_parts, -ℤ_parts}
use solana_snake_arena.Anticheat.{consume_input_budget}
use solana_snake_arena.Anticheat.Inputs.{
  Reading, finite, not_finite, SequenceNumber, integer, not_integer, remembered, InputCommand,
  RejectionReason, InputGuardState, Verdict, accept, reject, is_sequence_valid, clamp_delta_time,
  suspicion_weight, InputOptions, verdict_on, Rejection, Validation, step_input,
  validate_input_batch, is_dt_valid, note_verdict,
}

-- An integer above the last one, by at most 600.
abbrev pub Follows : ℤ → SequenceNumber → Type 0
Follows last (integer seq) = (last <ℤ seq) × (seq ≤ℤ last +ℤ pos 600)
Follows last not_integer = ⊥

-- Sequence numbers that are integers and go up from one to the next, by at most 600.
abbrev pub Advancing : ℤ → List InputCommand → Type 0
Advancing last [] = Unit
Advancing last (c ∷ commands) = Follows last c.seq × Advancing (remembered c.seq last) commands

abbrev pub last_seq_of : ℤ → List InputCommand → ℤ
last_seq_of last [] = last
last_seq_of last (c ∷ commands) = last_seq_of (remembered c.seq last) commands

-- A time that moves a snake no further than the tick allows.
abbrev pub IsClamped : ℤ → InputCommand → Type 0
IsClamped max_dt c = elim c.dt [
  | finite dt ↦ (pos 0 ≤ℤ dt) × (dt ≤ℤ max_dt) × (dt ≤ℤ pos 250)
  | not_finite ↦ ⊥
]

abbrev pub weight_of : List Rejection → ℕ
weight_of [] = 0
weight_of (r ∷ rejected) = suspicion_weight r.reason + weight_of rejected

pub record IsSound (options : InputOptions) (before : InputGuardState)
    (commands : List InputCommand) (v : Validation) : Type 0 where
  pub advancing : Advancing before.last_seq v.accepted
  pub last : v.state.last_seq ≡ last_seq_of before.last_seq v.accepted
  pub clamped_times : All (IsClamped options.max_dt_ms) v.accepted
  pub all_judged : length v.accepted + length v.rejected ≡ length commands
  pub suspicion : v.state.suspicion ≡ before.suspicion + weight_of v.rejected

-- What an accepted command passed.
record Passed (last : ℤ) (c : InputCommand) : Type 0 where
  follows : Follows last c.seq
  timed : is_dt_valid c.dt ≡ true

valid-Follows :
    (last : ℤ) (seq : SequenceNumber) → is_sequence_valid last seq ≡ accept → Follows last seq
unfolding is_sequence_valid
valid-Follows last (integer seq) h =
    (ground arith, ground (arith, +ℤ_parts last (pos 600), -ℤ_parts seq last))
valid-Follows last not_integer h = ground arith

verdict_on-Passed : (last : ℤ) (c : InputCommand) → verdict_on last c ≡ accept → Passed last c
unfolding verdict_on
verdict_on-Passed last c h = record {
  follows = valid-Follows last c.seq (ground arith);
  timed = ground arith;
}

clamp_fits :
    (c : InputCommand) (max_dt : ℤ) (d : Reading)
    → pos 0 ≤ℤ max_dt
    → is_dt_valid d ≡ true
    → IsClamped max_dt (record c { dt = finite (clamp_delta_time d max_dt) })
unfolding clamp_delta_time
clamp_fits c max_dt (finite d) h valid = (ground arith, ground arith, ground arith)
clamp_fits c max_dt not_finite h valid = ground arith

-- What the next command leaves of the sequence and the suspicion.
abbrev Judged : InputGuardState → InputCommand → Verdict → InputGuardState → Type 0
Judged state c accept after =
    Passed state.last_seq c
    × (after.last_seq ≡ remembered c.seq state.last_seq)
    × (after.suspicion ≡ state.suspicion)
Judged state c (reject reason) after =
    (after.last_seq ≡ state.last_seq)
    × (after.suspicion ≡ state.suspicion + suspicion_weight reason)

Verdict-cases : (v : Verdict) → (v ≡ accept) ⊎ ((reason : RejectionReason) × (v ≡ reject reason))
Verdict-cases accept = inl refl
Verdict-cases (reject reason) = inr (reason, refl)

step_input-Judged :
    (options : InputOptions) (state : InputGuardState) (c : InputCommand)
    → Judged state c (step_input options state c).0 (step_input options state c).1
unfolding step_input
step_input-Judged options state c =
    if_elim (λ (r : Verdict × InputGuardState). Judged state c r.0 r.1)
      (not (consume_input_budget options.limit options.now state.budget).0) (λ dry. (refl, refl))
      (λ wet. elim (Verdict-cases (verdict_on state.last_seq c)) [
        | inl passed ↦ rw passed (verdict_on-Passed state.last_seq c passed, refl, refl)
        | inr (reason, failed) ↦ rw failed (refl, refl)
      ])

note_verdict-IsSound :
    (options : InputOptions) (state after : InputGuardState) (c : InputCommand) (v : Verdict)
    (commands : List InputCommand) (rest : Validation)
    → pos 0 ≤ℤ options.max_dt_ms
    → Judged state c v after
    → IsSound options after commands rest
    → IsSound options state (c ∷ commands) (note_verdict options c v rest)
note_verdict-IsSound options state after c accept commands rest h judged sound = record {
  advancing =
      (judged.0.follows, subst (λ (l : ℤ). Advancing l rest.accepted) judged.1 sound.advancing);
  last = sound.last ∙ ap (λ (l : ℤ). last_seq_of l rest.accepted) judged.1;
  clamped_times = (clamp_fits c options.max_dt_ms c.dt h judged.0.timed, sound.clamped_times);
  all_judged = omega (arith, sound.all_judged);
  suspicion = omega (arith, sound.suspicion, judged.2);
}
note_verdict-IsSound options state after c (reject reason) commands rest h judged sound = record {
  advancing = subst (λ (l : ℤ). Advancing l rest.accepted) judged.0 sound.advancing;
  last = sound.last ∙ ap (λ (l : ℤ). last_seq_of l rest.accepted) judged.0;
  clamped_times = sound.clamped_times;
  all_judged = omega (arith, sound.all_judged);
  suspicion = omega (arith, sound.suspicion, judged.1);
}

-- Whatever a client sends, with a tick's allowance that is not negative, of a batch that is validated
-- the accepted commands have sequence numbers that are integers and go up from the last accepted one
-- before, by at most 600 each, so that none is ever accepted twice, and times between zero and the
-- tick's allowance; the last of them is remembered; every command is either accepted or rejected; and
-- the suspicion rises by the weights of the rejections.
pub validate_input_batch-IsSound :
    (options : InputOptions) (state : InputGuardState) (commands : List InputCommand)
    → pos 0 ≤ℤ options.max_dt_ms
    → IsSound options state commands (validate_input_batch options state commands)
unfolding validate_input_batch
validate_input_batch-IsSound options state [] h = record {
  advancing = tt;
  last = refl;
  clamped_times = tt;
  all_judged = refl;
  suspicion = omega arith;
}
validate_input_batch-IsSound options state (c ∷ commands) h =
    let r = step_input options state c in
    note_verdict-IsSound options state r.1 c r.0 commands
      (validate_input_batch options r.1 commands) h (step_input-Judged options state c)
      (validate_input_batch-IsSound options r.1 commands h)
