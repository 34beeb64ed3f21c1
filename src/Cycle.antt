-- ===== src/Cycle.antt =====
-- The ten-minute match cycle's plan (apps/worker/src/cycle/plan.ts). Times are milliseconds.
pub mod Schedule
pub mod Tests
use solana_snake_arena.Base.{
  ℕ, ◌+◌, ◌-◌, ◌*◌, ◌/◌, String, Bool, Option, none, some, List, [], ◌∷◌, ◌==◌, find, if◌then◌else◌,
}

abbrev pub cycle_duration_ms : ℕ
cycle_duration_ms = 10 * 60 * 1000

pub data CycleStage : Type 0 where
  create_game create_pool open_lobby close_lobby start_match end_match archive_game : CycleStage

pub record StagePlan : Type 0 where
  pub stage : CycleStage
  pub offset_ms : ℕ
  pub attempts : ℕ

abbrev pub cycle_stages : List CycleStage
cycle_stages =
    create_game ∷ create_pool ∷ open_lobby ∷ close_lobby ∷ start_match ∷ end_match ∷ archive_game
    ∷ []

abbrev pub stage_plan : CycleStage → ℕ → ℕ → StagePlan
stage_plan stage offset attempts = record { stage = stage; offset_ms = offset; attempts = attempts }

abbrev pub cycle_plan : List StagePlan
cycle_plan =
    stage_plan create_game 0 5
    ∷ stage_plan create_pool 5000 8
    ∷ stage_plan open_lobby 15000 5
    ∷ stage_plan close_lobby (5 * 60000) 5
    ∷ stage_plan start_match (5 * 60000 + 20000) 5
    ∷ stage_plan end_match (9 * 60000) 10
    ∷ stage_plan archive_game (9 * 60000 + 45000) 5
    ∷ []

abbrev pub stage_index : CycleStage → ℕ
stage_index create_game = 0
stage_index create_pool = 1
stage_index open_lobby = 2
stage_index close_lobby = 3
stage_index start_match = 4
stage_index end_match = 5
stage_index archive_game = 6

abbrev pub same_stage : CycleStage → CycleStage → Bool
same_stage s t = stage_index s == stage_index t

-- `none` is the throw on an unknown stage.
pub get_stage_plan : CycleStage → Option StagePlan
get_stage_plan stage = find (λ (p : StagePlan). same_stage p.stage stage) cycle_plan

-- What follows the stage in a list of stages: `CYCLE_STAGES[index + 1] ?? null`.
abbrev pub head_stage : List CycleStage → Option CycleStage
head_stage [] = none
head_stage (s ∷ _) = some s

pub stage_after : CycleStage → List CycleStage → Option CycleStage
stage_after stage [] = none
stage_after stage (s ∷ ss) =
    let rest = stage_after stage ss in if same_stage s stage then head_stage ss else rest

pub next_stage : CycleStage → Option CycleStage
next_stage stage = stage_after stage cycle_stages

pub offset_of : CycleStage → ℕ
offset_of stage = elim (get_stage_plan stage) [ none ↦ 0 | some p ↦ p.offset_ms ]

-- `Math.max(0, cycleStartedAt + plan.offsetMs - now)`
pub delay_until_stage : CycleStage → ℕ → ℕ → ℕ
delay_until_stage stage cycle_started_at now = cycle_started_at + offset_of stage - now

pub accept_window_ms : ℕ
accept_window_ms = offset_of close_lobby - offset_of open_lobby

pub match_duration_ms : ℕ
match_duration_ms = offset_of end_match - offset_of start_match

pub current_window_start : ℕ → ℕ
current_window_start now = now / cycle_duration_ms * cycle_duration_ms

-- The identifiers `tier:start` and `cycle:stage`, by their parts.
pub record CycleId : Type 0 where
  pub tier : String
  pub window_start : ℕ

pub record StageJobId : Type 0 where
  pub cycle : CycleId
  pub stage : CycleStage

abbrev pub cycle_id : String → ℕ → CycleId
cycle_id tier window_start = record { tier = tier; window_start = window_start }

abbrev pub stage_job_id : CycleId → CycleStage → StageJobId
stage_job_id cycle stage = record { cycle = cycle; stage = stage }
