-- ===== src/TickLoop/Tests.antt =====
-- Runs of a node's loop (apps/realtime/src/rooms/room-manager.ts) over rooms that are counters of
-- their ticks.
use solana_snake_arena.Base.{
  ℕ, suc, ◌+◌, ◌*◌, ◌≤◌, ◌<◌, ◌≡◌, refl, [], ◌∷◌, map, if◌then◌else◌, arith,
}
use solana_snake_arena.TickLoop.{Loop, max_steps, tick_interval, run_tick, run_steps, due_steps}
use solana_snake_arena.TickLoop.Pace.{times, in_reach, steps_run, counted_from, run_tick_paced}

abbrev count : ℕ → ℕ → ℕ
count now n = suc n

abbrev start : Loop ℕ
start = record { next_tick_at = 10_000; rooms = 3 ∷ 0 ∷ [] }

-- Two and a half intervals late: three steps.
catches_up : run_tick count 12_500 start ≡ record { next_tick_at = 13_000; rooms = 6 ∷ 3 ∷ [] }
unfolding run_tick run_steps due_steps
catches_up = refl

-- Seven intervals late: five steps, and nothing until five intervals from now.
drops_time : run_tick count 17_000 start ≡ record { next_tick_at = 22_000; rooms = 8 ∷ 5 ∷ [] }
unfolding run_tick run_steps due_steps
drops_time = refl

-- A timer that is early runs no step.
early : run_tick count 9_500 start ≡ start
unfolding run_tick run_steps due_steps
early = refl

run_tick_paced_example :
    ((run_tick count 12_500 start).rooms
      ≡ map (times (steps_run 12_500 10_000) (count 12_500)) (3 ∷ 0 ∷ []))
    × (12_500 < (run_tick count 12_500 start).next_tick_at)
    × ((run_tick count 12_500 start).next_tick_at
        ≤ 12_500 + (if in_reach 12_500 10_000 then 1 else max_steps) * tick_interval)
    × ((run_tick count 12_500 start).next_tick_at
        ≡ counted_from 12_500 10_000 + steps_run 12_500 10_000 * tick_interval)
run_tick_paced_example = run_tick_paced count 12_500 start (omega arith)
