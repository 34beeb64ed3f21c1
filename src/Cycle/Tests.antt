-- ===== src/Cycle/Tests.antt =====
-- Witnesses for the match cycle's plan.
use solana_snake_arena.Base.{◌+◌, ◌≡◌, refl, some, leb, if◌then◌else◌}
use solana_snake_arena.Cycle.{
  close_lobby, start_match, next_stage, stage_after, offset_of, delay_until_stage,
}
use solana_snake_arena.Cycle.Schedule.{delay_until_stage_hits}

close_then_start : next_stage close_lobby ≡ some start_match
unfolding next_stage stage_after
close_then_start = refl

late_start_match :
    5000 + delay_until_stage start_match 1000 5000
    ≡ (if leb 5000 (1000 + offset_of start_match) then 1000 + offset_of start_match else 5000)
late_start_match = delay_until_stage_hits start_match 1000 5000
