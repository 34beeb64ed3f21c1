-- ===== src/LobbyService/Tests.antt =====
-- The lobby service's theorems (packages/lobby/src/service.ts) at inputs that meet their
-- hypotheses: a store with a paid room that is due, and one that is launching.
use text.Mathlib.Text.{◌==◌ as str_eq}
use text.Mathlib.TextEquality.{eq_iff}
use mathlib.Core.Bool.{false≢true}
use solana_snake_arena.Base.{
  ℕ, String, ◌≡◌, ◌≢◌, refl, inr, true, false, none, some, [], ◌∷◌, arith, if◌then◌else◌,
}
use solana_snake_arena.Tiers.{bronze, silver, get_tier}
use solana_snake_arena.Lobby.{
  countdown, launching, LobbyPlayer, LobbyState, LobbyTransition, join, tick, settle,
  is_at_capacity, in_roster, reduce_lobby,
}
use solana_snake_arena.Lobby.Launch.{tick_launches}
use solana_snake_arena.LobbyService.{
  LobbyStore, load, save, Surroundings, apply, apply_to, perform_launch, has_launched, join_lobby,
  stored_version, done,
}
use solana_snake_arena.LobbyService.Soundness.{IsSound, AreSound, apply_to-IsSound}
use solana_snake_arena.LobbyService.Launching.{
  IsFree, IsSeated, perform_launch_frees, tick_launches_twice, join_while_launching,
}

abbrev player : ℕ → LobbyPlayer
player id = record {
  player_id = id;
  nickname = "snake";
  wallet = "wallet";
  joined_at = 0;
  ready = true;
}

abbrev due : LobbyState
due = record {
  tier_id = "bronze";
  status = countdown;
  players = player 1 ∷ player 2 ∷ [];
  countdown_ends_at = some 50_000;
  game_id = some 9;
  scheduled = false;
  version = 4;
}

abbrev starting : LobbyState
starting = record due { status = launching; countdown_ends_at = none }

abbrev holding : LobbyState → LobbyStore
holding s = record {
  lobbies = λ key. if str_eq key "bronze" then some s else none;
  player_index = λ id. some "bronze";
}

abbrev alone : Surroundings
alone = record {
  clock = λ n. 50_000;
  launch = λ r. some 77;
  gap = λ n st. st;
  launch_gap = λ st. st;
}

-- The other replica has just written its own tick of the same lobby.
abbrev racing : Surroundings
racing = record alone {
  gap = λ n st.
      (save st (reduce_lobby (load st "bronze") tick bronze 50_000).state
        (load st "bronze").version).0;
}

due-launches : (reduce_lobby due tick bronze 50_000).should_launch ≡ true
due-launches =
    (tick_launches bronze due 50_000 50_000 refl refl refl (omega arith) (omega arith)
      (inr (omega arith))).0

alone-AreSound : AreSound alone
alone-AreSound = record { gaps = λ n st h. h; launch_gap = λ st h. h }

abbrev empty_store : LobbyStore
empty_store = record { lobbies = λ key. none; player_index = λ id. none }

empty_store-IsSound : IsSound empty_store
empty_store-IsSound key = tt

apply_to-IsSound_example : IsSound (apply_to alone "bronze" (join 1 "snake" "w") empty_store).1
apply_to-IsSound_example =
    apply_to-IsSound alone "bronze" (join 1 "snake" "w") empty_store alone-AreSound
      empty_store-IsSound

starting-current : stored_version (holding starting) "bronze" ≡ 4
unfolding stored_version
starting-current = refl

perform_launch_frees_example :
    IsFree ((perform_launch alone bronze starting (holding starting)).1.lobbies "bronze")
perform_launch_frees_example =
    perform_launch_frees alone bronze starting (holding starting) starting-current

tick_launches_twice_example :
    ((save
        (holding due)
        (reduce_lobby (load (holding due) "bronze") tick bronze 50_000).state
        (load (holding due) "bronze").version).1
      ≡ true)
    × (has_launched (apply racing bronze tick 5 (holding due)).0 ≡ true)
unfolding load
tick_launches_twice_example =
    tick_launches_twice racing bronze 4 50_000 (holding due) refl due-launches due-launches refl

bronze_known : get_tier "bronze" ≡ some bronze
unfolding get_tier
bronze_known = refl

bronze_ne_silver : ◌≢◌ {A = String} "bronze" "silver"
bronze_ne_silver e = false≢true ((eq_iff "bronze" "silver").1 e)

silver_known : get_tier "silver" ≡ some silver
unfolding get_tier
silver_known = refl

silver-fresh : (load (holding starting) silver.id).tier_id ≡ silver.id
unfolding load
silver-fresh = refl

-- What joining the empty lobby of silver gives.
abbrev joined : LobbyTransition
joined =
    reduce_lobby (load (holding starting) silver.id) (join 1 "snake" "w") silver (alone.clock 4)

joined-accepted : joined.rejected ≡ none
unfolding load reduce_lobby settle is_at_capacity
joined-accepted = refl

joined-changed : joined.changed ≡ true
unfolding load reduce_lobby settle is_at_capacity
joined-changed = refl

joined-stays : joined.should_launch ≡ false
unfolding load reduce_lobby settle is_at_capacity
joined-stays = refl

joined-seats : in_roster 1 joined.state.players ≡ true
unfolding load reduce_lobby settle is_at_capacity
joined-seats = refl

join_while_launching_example :
    ((join_lobby alone alone "silver" 1 "snake" "w" (holding starting)).0
      ≡ done joined.state none false)
    × ((join_lobby alone alone "silver" 1 "snake" "w" (holding starting)).1.player_index 1
        ≡ some "silver")
    × (IsSeated 1
        ((join_lobby alone alone "silver" 1 "snake" "w" (holding starting)).1.lobbies "silver"))
    × ((join_lobby alone alone "silver" 1 "snake" "w" (holding starting)).1.lobbies "bronze"
        ≡ some starting)
    × (IsSeated 1
        ((join_lobby alone alone "silver" 1 "snake" "w" (holding starting)).1.lobbies "bronze"))
join_while_launching_example =
    join_while_launching alone alone "silver" "bronze" silver bronze 1 "snake" "w"
      (holding starting) starting joined refl bronze_ne_silver bronze_known refl refl refl
      silver_known silver-fresh refl refl joined-accepted joined-changed joined-stays joined-seats
