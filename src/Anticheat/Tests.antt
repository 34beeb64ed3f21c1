-- ===== src/Anticheat/Tests.antt =====
-- Limits at work (apps/realtime/src/anticheat, io/middleware/connection-guard.ts), and the theorems at inputs
-- that meet their hypotheses.
use solana_snake_arena.Base.{
  ℕ, ◌+◌, ◌-◌, ◌*◌, ◌≤◌, ◌≡◌, refl, false, some, none, List, [], ◌∷◌, arith,
}
use solana_snake_arena.Base.Int.{pos, ◌+ℤ◌, ◌-ℤ◌}
use solana_snake_arena.Anticheat.{Limit, new_bucket, consume_input_budget}
use solana_snake_arena.Anticheat.Connections.{
  ConnectionGuardOptions, Budgets, chat, allow, try_consume, sweep,
}
use solana_snake_arena.Anticheat.Inputs.{
  finite, integer, not_integer, InputCommand, InputGuardState, InputOptions, validate_input_batch,
  step_input, verdict_on, is_sequence_valid, clamp_delta_time, suspicion_weight,
}
use solana_snake_arena.Anticheat.Rate.{consume_all, last_of, consume_all_bounded}
use solana_snake_arena.Anticheat.Eviction.{sweep_harmless}
use solana_snake_arena.Anticheat.Soundness.{IsSound, validate_input_batch-IsSound}

abbrev limit : Limit
limit = record { parts_per_token = 1000; parts_per_ms = 20; burst = 2 }

-- Three at once, and one more after a twentieth of a second.
burst_then_wait : (consume_all limit (0 ∷ 0 ∷ 0 ∷ 50 ∷ []) (new_bucket limit 0)).0 ≡ 3
unfolding consume_all consume_input_budget
burst_then_wait = refl

consume_all_bounded_example :
    (consume_all limit (0 ∷ 0 ∷ 0 ∷ 50 ∷ []) (new_bucket limit 0)).0 * 1000
    ≤ 2 * 1000 + (last_of 0 (0 ∷ 0 ∷ 0 ∷ 50 ∷ []) - 0) * 20
consume_all_bounded_example =
    consume_all_bounded limit 0 (0 ∷ 0 ∷ 0 ∷ 50 ∷ [])
      (omega arith, (omega arith, (omega arith, (omega arith, tt))))

abbrev no_budgets : Budgets
no_budgets key = none

-- A fourth message at once is held back.
chat_burst : (allow chat 0 (allow chat 0 (allow chat 0 (allow chat 0 no_budgets).1).1).1).0 ≡ false
unfolding allow consume_input_budget
chat_burst = refl

abbrev options : ConnectionGuardOptions
options = record { rate_per_second = 2; burst = 10; idle_ttl_ms = 60_000 }

abbrev seen : Budgets
seen address = some (record { tokens = 500; last_refill_ms = 0 })

sweep_harmless_example :
    ((try_consume options 7 90_000 (sweep options 80_000 seen)).0
      ≡ (try_consume options 7 90_000 seen).0)
    × ((try_consume options 7 90_000 (sweep options 80_000 seen)).1 7
        ≡ (try_consume options 7 90_000 seen).1 7)
sweep_harmless_example = sweep_harmless options 80_000 90_000 7 seen (omega arith)

abbrev command : ℕ → ℕ → ℕ → InputCommand
command seq angle dt = record {
  seq = integer (pos seq);
  angle = finite (pos angle);
  boost = false;
  dt = finite (pos dt);
}

abbrev input_options : InputOptions
input_options = record {
  now = 0;
  max_dt_ms = pos 50;
  limit = record { parts_per_token = 1000; parts_per_ms = 40; burst = 3 };
}

abbrev guard : InputGuardState
guard = record {
  last_seq = pos 4;
  budget = new_bucket (record { parts_per_token = 1000; parts_per_ms = 40; burst = 3 }) 0;
  suspicion = 0;
}

abbrev batch : List InputCommand
batch =
    record (command 5 10 16) { seq = not_integer }
    ∷ command 5 10 200
    ∷ command 5 10 16
    ∷ command 6 9_000_000 16
    ∷ command 7 10 16
    ∷ []

-- One is accepted, with its time cut; one without an integer number, a replay and more than the budget are
-- rejected.
judged : (validate_input_batch input_options guard batch).accepted ≡ command 5 10 50 ∷ []
unfolding validate_input_batch step_input verdict_on is_sequence_valid clamp_delta_time
    consume_input_budget suspicion_weight ◌+ℤ◌ ◌-ℤ◌
judged = refl

validate_input_batch-IsSound_example :
    IsSound input_options guard batch (validate_input_batch input_options guard batch)
validate_input_batch-IsSound_example =
    validate_input_batch-IsSound input_options guard batch (omega arith)
