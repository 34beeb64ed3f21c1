-- ===== src/TickLoop.antt =====
-- The fixed-timestep loop of a node (apps/realtime/src/rooms/room-manager.ts: `runTick` up to the
-- reports). A unit of time is 1 / TICK_RATE_HZ milliseconds, which makes the interval between ticks a
-- whole number; the rounding of 1000 / TICK_RATE_HZ to a floating-point number is not modelled.
pub mod Pace
pub mod Tests
use solana_snake_arena.Base.{ℕ, zero, suc, ◌+◌, ◌-◌, ◌/◌, Bool, List, map, ltb, leb, if◌then◌else◌}

abbrev pub tick_interval : ℕ
tick_interval = 1000

abbrev pub max_steps : ℕ
max_steps = 5

-- `1 + Math.floor(lag / TICK_INTERVAL_MS)`; the lag of a timer that fires early is negative, and a
-- number of steps below zero runs none.
unfoldable pub due_steps : ℕ → ℕ → ℕ
due_steps now next_tick_at =
    if leb next_tick_at now
    then 1 + (now - next_tick_at) / tick_interval
    else 1 - (next_tick_at - now + (tick_interval - 1)) / tick_interval

pub record Loop (Room : Type 0) : Type 0 where
  pub next_tick_at : ℕ
  pub rooms : List Room

-- What is left of a room by `room.tick(now)`, also when it throws, is a parameter.
module _ {Room : Type 0} (tick : ℕ → Room → Room) where
  -- The steps, each of which ticks every room.
  unfoldable pub run_steps : ℕ → ℕ → Loop Room → Loop Room
  run_steps now zero loop = loop
  run_steps now (suc steps) loop = run_steps now steps (record {
    next_tick_at = loop.next_tick_at + tick_interval;
    rooms = map (tick now) loop.rooms;
  })

  unfoldable pub run_tick : ℕ → Loop Room → Loop Room
  run_tick now loop =
      let steps = due_steps now loop.next_tick_at in
      if ltb max_steps steps
      then run_steps now max_steps (record loop { next_tick_at = now })
      else run_steps now steps loop
