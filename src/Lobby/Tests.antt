-- ===== src/Lobby/Tests.antt =====
-- Runs of the lobby (packages/lobby/src/state.ts), and its theorems at inputs that meet their
-- hypotheses: a paid room with two players, one of whom has paid.
use solana_snake_arena.Base.{ℕ, ◌≡◌, refl, Bool, true, false, none, some, [], ◌∷◌, arith, length}
use solana_snake_arena.Tiers.{bronze}
use solana_snake_arena.Lobby.{
  countdown, LobbyPlayer, LobbyState, LobbyEvent, join, leave, tick, is_at_capacity, expire,
  run_countdown, settle, candidate_deadline, set_ready, bool_eq, reduce_lobby, countdown_remaining,
}
use solana_snake_arena.Lobby.Invariant.{IsValid, reduce_lobby-IsValid}
use solana_snake_arena.Lobby.Launch.{IsLaunch, reduce_lobby-IsLaunch, reduce_lobby-unchanged}

abbrev player : ℕ → Bool → LobbyPlayer
player id r = record {
  player_id = id;
  nickname = "snake";
  wallet = "wallet";
  joined_at = 0;
  ready = r;
}

abbrev counting : Bool → Bool → LobbyState
counting a b = record {
  tier_id = "bronze";
  status = countdown;
  players = player 1 a ∷ player 2 b ∷ [];
  countdown_ends_at = some 50_000;
  game_id = some 9;
  scheduled = false;
  version = 4;
}

paid_launch : (reduce_lobby (counting true true) tick bronze 50_000).should_launch ≡ true
unfolding reduce_lobby settle run_countdown expire
paid_launch = refl

-- One unpaid player of two: no launch, and the unpaid one is dropped.
half_paid :
    (reduce_lobby (counting true false) tick bronze 50_000).state.players ≡ player 1 true ∷ []
unfolding reduce_lobby settle run_countdown expire
half_paid = refl

ready_shortens :
    (reduce_lobby
      (counting true false)
      (LobbyEvent.ready 2 true)
      bronze
      1_000).state.countdown_ends_at
    ≡ some 6_000
unfolding reduce_lobby settle run_countdown expire candidate_deadline set_ready bool_eq
    is_at_capacity
ready_shortens = refl

remaining_rounds_up : countdown_remaining (counting true true) 48_999 ≡ some 2
unfolding countdown_remaining
remaining_rounds_up = refl

counting-IsValid : (a b : Bool) → IsValid bronze (counting a b)
counting-IsValid a b = ground arith

reduce_lobby-IsValid_example :
    IsValid bronze (reduce_lobby (counting true false) (join 3 "new" "w") bronze 1_000).state
reduce_lobby-IsValid_example =
    reduce_lobby-IsValid bronze (counting true false) (join 3 "new" "w") 1_000
      (counting-IsValid true false)

reduce_lobby-IsLaunch_example :
    IsLaunch bronze 50_000
      (counting true true)
      (reduce_lobby (counting true true) tick bronze 50_000).state
reduce_lobby-IsLaunch_example =
    reduce_lobby-IsLaunch bronze (counting true true) tick 50_000 paid_launch

still_counting :
    (reduce_lobby (counting true false) (LobbyEvent.ready 2 true) bronze 1_000).state.status
    ≡ countdown
unfolding reduce_lobby settle run_countdown expire candidate_deadline set_ready bool_eq
    is_at_capacity
still_counting = refl

already_in : (reduce_lobby (counting true false) (join 2 "again" "w") bronze 1_000).changed ≡ false
unfolding reduce_lobby
already_in = refl

reduce_lobby-unchanged_example :
    ((reduce_lobby (counting true false) (join 2 "again" "w") bronze 1_000).state
      ≡ counting true false)
    × ((reduce_lobby (counting true false) (join 2 "again" "w") bronze 1_000).should_launch ≡ false)
reduce_lobby-unchanged_example =
    reduce_lobby-unchanged bronze (counting true false) (join 2 "again" "w") 1_000 already_in

may_leave : (reduce_lobby (counting true false) (leave 2) bronze 1_000).rejected ≡ none
unfolding reduce_lobby settle
may_leave = refl

roomy : is_at_capacity (length (counting true true).players) bronze ≡ false
unfolding is_at_capacity
roomy = refl

launch_changes : (reduce_lobby (counting true true) tick bronze 50_000).changed ≡ true
unfolding reduce_lobby settle run_countdown expire
launch_changes = refl

abbrev owned : LobbyState
owned = record (counting true true) { scheduled = true }
