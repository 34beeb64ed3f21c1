-- ===== src/Cycle/Schedule.antt =====
-- The order and the delays of the stages, and the windows (apps/worker/src/cycle/plan.ts).
use solana_snake_arena.Base.{
  ℕ, ◌+◌, ◌*◌, ◌/◌, ◌≤◌, ◌<◌, ◌≡◌, String, some, leb, if◌then◌else◌, arith, ap,
}
use solana_snake_arena.Cycle.{
  CycleStage, create_game, create_pool, open_lobby, close_lobby, start_match, end_match,
  archive_game, get_stage_plan, stage_after, next_stage, offset_of, delay_until_stage,
  current_window_start, cycle_id, stage_job_id, cycle_duration_ms,
}

-- What comes next comes later: the stages' offsets grow along `next_stage`, and stay within the
-- cycle.
pub next_stage_later :
    (s t : CycleStage)
    → next_stage s ≡ some t
    → (offset_of s < offset_of t) × (offset_of t < cycle_duration_ms)
unfolding next_stage stage_after offset_of get_stage_plan
next_stage_later create_game t h = ground arith
next_stage_later create_pool t h = ground arith
next_stage_later open_lobby t h = ground arith
next_stage_later close_lobby t h = ground arith
next_stage_later start_match t h = ground arith
next_stage_later end_match t h = ground arith
next_stage_later archive_game t h = ground arith

-- A job scheduled now with the stage's delay runs at the stage's time, or at once when that is past.
pub delay_until_stage_hits :
    (stage : CycleStage) (cycle_started_at now : ℕ)
    → now + delay_until_stage stage cycle_started_at now ≡ (
        if leb now (cycle_started_at + offset_of stage)
        then cycle_started_at + offset_of stage
        else now)
unfolding delay_until_stage
delay_until_stage_hits stage cycle_started_at now = ground arith

-- The window that a time is put in contains it, and every time in that window is put in the same
-- one, with the same job identifier for every tier and stage.
current_window_start_window :
    (now later : ℕ) (tier : String) (stage : CycleStage)
    → current_window_start now ≤ later
    → later < current_window_start now + cycle_duration_ms
    → (current_window_start now ≤ now)
      × (now < current_window_start now + cycle_duration_ms)
      × (stage_job_id (cycle_id tier (current_window_start later)) stage
          ≡ stage_job_id (cycle_id tier (current_window_start now)) stage)
unfolding current_window_start
current_window_start_window now later tier stage from before =
    let same : later / 600000 * 600000 ≡ now / 600000 * 600000 = omega arith in
    (omega arith, omega arith, ap (λ w. stage_job_id (cycle_id tier w) stage) same)
