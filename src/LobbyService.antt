-- ===== src/LobbyService.antt =====
-- The lobby service of packages/lobby/src/service.ts over the store of packages/lobby/src/store.ts
-- (`InMemoryLobbyStore`, and the compare-and-set script of redis-store.ts, which agree).
-- Other replicas share the store: what they do to it while a call waits is an argument of the
-- model, one change of the store for each wait. Failures of Redis itself are not modelled.
pub mod Soundness
pub mod Writes
pub mod Launching
mod Tests
use text.Mathlib.Text.{◌==◌ as str_eq}
use solana_snake_arena.Base.{
  ℕ, zero, suc, ◌+◌, String, Bool, true, false, not, ◌&&◌, Option, none, some, List, [], ◌∷◌, ◌==◌,
  if◌then◌else◌,
}
use solana_snake_arena.Tiers.{RoomTier, get_tier}
use solana_snake_arena.Lobby.{
  LobbyPlayer, LobbyState, LobbyEvent, LobbyRejection, join, leave, tick, launched, opened, close,
  reset, empty_lobby, reduce_lobby,
}

-- `lobbies` and `playerIndex`, as total functions from keys.
pub record LobbyStore : Type 0 where
  pub lobbies : String → Option LobbyState
  pub player_index : ℕ → Option String

pub load : LobbyStore → String → LobbyState
load st tier = elim (st.lobbies tier) [ none ↦ empty_lobby tier | some s ↦ s ]

-- `current?.version ?? 0`
pub stored_version : LobbyStore → String → ℕ
stored_version st tier = elim (st.lobbies tier) [ none ↦ 0 | some s ↦ s.version ]

abbrev pub put : LobbyStore → LobbyState → LobbyStore
put st s = record st { lobbies = λ tier. if str_eq tier s.tier_id then some s else st.lobbies tier }

-- The compare-and-set write: the store after it, and whether it wrote.
pub save : LobbyStore → LobbyState → ℕ → LobbyStore × Bool
save st s expected =
    if stored_version st s.tier_id == expected then (put st s, true) else (st, false)

pub set_player_lobby : LobbyStore → ℕ → Option String → LobbyStore
set_player_lobby st id tier = record st {
  player_index = λ j. if j == id then tier else st.player_index j;
}

pub clear_players : LobbyStore → List LobbyPlayer → LobbyStore
clear_players st [] = st
clear_players st (p ∷ ps) = clear_players (set_player_lobby st p.player_id none) ps

pub record LaunchRequest : Type 0 where
  pub tier_id : String
  pub players : List LobbyPlayer
  pub tier : RoomTier
  pub game_id : Option ℕ

abbrev pub request : RoomTier → LobbyState → LaunchRequest
request tier s = record { tier_id = tier.id; players = s.players; tier = tier; game_id = s.game_id }

-- What surrounds one call: the clock at each reading, the caller's `launch` (`none`: it threw), and
-- what the other replicas do to the store between this one's read and its write, by attempts left,
-- and while `launch` runs.
pub record Surroundings : Type 0 where
  pub clock : ℕ → ℕ
  pub launch : LaunchRequest → Option ℕ
  pub gap : ℕ → LobbyStore → LobbyStore
  pub launch_gap : LobbyStore → LobbyStore

pub max_cas_attempts : ℕ
max_cas_attempts = 5

-- `performLaunch`: the state it returns, and the store.
pub perform_launch : Surroundings → RoomTier → LobbyState → LobbyStore → LobbyState × LobbyStore
perform_launch env tier s st =
    let later = env.launch_gap st in
    elim (env.launch (request tier s)) [
      | some game ↦
          let marked = (reduce_lobby s (launched game) tier (env.clock 0)).state in
          let cleared = clear_players (save later marked s.version).0 s.players in
          let emptied = (reduce_lobby marked reset tier (env.clock 0)).state in
          (marked, (save cleared emptied marked.version).0)
      | none ↦
          let emptied = (reduce_lobby s reset tier (env.clock 0)).state in
          (emptied, (save later emptied s.version).0)
    ]

pub data Applied : Type 0 where
  done : (state : LobbyState) (rejected : Option LobbyRejection) (began : Bool) → Applied
  contended : Applied  -- thrown after the last attempt
  unknown_tier : Applied  -- thrown by `requireTier`

-- One attempt after its write has gone through.
pub finish : Surroundings → RoomTier → LobbyState → Bool → LobbyStore → Applied × LobbyStore
finish env tier s true st =
    let (marked, st') = perform_launch env tier s st in (done marked none true, st')
finish env tier s false st = (done s none false, st)

-- The loop of `apply`, by attempts left.
pub apply : Surroundings → RoomTier → LobbyEvent → ℕ → LobbyStore → Applied × LobbyStore
apply env tier e zero st = (contended, st)
apply env tier e (suc n) st =
    let current = load st tier.id in
    let r = reduce_lobby current e tier (env.clock n) in
    let later = env.gap n st in
    let written = save later r.state current.version in
    let retry = apply env tier e n later in
    elim r.rejected [
      | some why ↦ (done current (some why) false, st)
      | none ↦
          (if not r.changed
            then (done current none false, st)
            else (if written.1 then finish env tier r.state r.should_launch written.0 else retry))
    ]

-- `apply` as the methods call it: by the tier's identifier, with all attempts.
pub apply_to : Surroundings → String → LobbyEvent → LobbyStore → Applied × LobbyStore
unfolding max_cas_attempts
apply_to env tier_id e st = elim (get_tier tier_id) [
  | none ↦ (unknown_tier, st)
  | some tier ↦ apply env tier e max_cas_attempts st
]

-- `if (!result.rejected) setPlayerLobby(id, tier)`; a thrown error passes through.
pub index_unless_refused : ℕ → Option String → Applied × LobbyStore → Applied × LobbyStore
index_unless_refused id tier (done s none began, st) =
    (done s none began, set_player_lobby st id tier)
index_unless_refused id tier (outcome, st) = (outcome, st)

pub leave_lobby : Surroundings → String → ℕ → LobbyStore → Applied × LobbyStore
leave_lobby env tier_id id st = index_unless_refused id none (apply_to env tier_id (leave id) st)

-- `join` after the player's other lobby, if any, has been seen to.
pub enter_lobby : Surroundings → String → ℕ → String → String → LobbyStore → Applied × LobbyStore
enter_lobby env tier_id id nickname wallet st =
    index_unless_refused id (some tier_id) (apply_to env tier_id (join id nickname wallet) st)

-- Of the `leave` inside `join` only a thrown error matters: a refusal is not looked at.
pub after_leaving :
    Applied × LobbyStore → (LobbyStore → Applied × LobbyStore) → Applied × LobbyStore
after_leaving (done s why began, st) k = k st
after_leaving (outcome, st) k = (outcome, st)

pub join_lobby :
    Surroundings → Surroundings → String → ℕ → String → String → LobbyStore → Applied × LobbyStore
join_lobby leaving env tier_id id nickname wallet st = elim (st.player_index id) [
  | none ↦ enter_lobby env tier_id id nickname wallet st
  | some other ↦
      (if str_eq other tier_id
        then enter_lobby env tier_id id nickname wallet st
        else after_leaving (leave_lobby leaving other id st)
            (enter_lobby env tier_id id nickname wallet))
]

pub set_ready : Surroundings → String → ℕ → Bool → LobbyStore → Applied × LobbyStore
set_ready env tier_id id r st = apply_to env tier_id (LobbyEvent.ready id r) st

pub tick_lobby : Surroundings → String → LobbyStore → Applied × LobbyStore
tick_lobby env tier_id st = apply_to env tier_id tick st

pub open_lobby : Surroundings → String → Option ℕ → Bool → LobbyStore → Applied × LobbyStore
open_lobby env tier_id game scheduled st = apply_to env tier_id (opened game scheduled) st

pub close_lobby : Surroundings → String → LobbyStore → Applied × LobbyStore
close_lobby env tier_id st = apply_to env tier_id close st

-- `reset`: the index is cleared for the players of the state that `apply` returned.
pub clear_returned : Applied × LobbyStore → Applied × LobbyStore
clear_returned (done s why began, st) = (done s why began, clear_players st s.players)
clear_returned (outcome, st) = (outcome, st)

pub reset_lobby : Surroundings → String → LobbyStore → Applied × LobbyStore
reset_lobby env tier_id st = clear_returned (apply_to env tier_id reset st)

abbrev pub has_launched : Applied → Bool
has_launched (done s why began) = began
has_launched _ = false

-- `tickAll` over the tiers: an error of one is reported, and does not stop the others.
pub tick_all : (String → Surroundings) → List String → LobbyStore → List String × LobbyStore
tick_all env [] st = ([], st)
tick_all env (tier_id ∷ rest) st =
    let (outcome, st') = tick_lobby (env tier_id) tier_id st in
    let (begun, last) = tick_all env rest st' in
    (if has_launched outcome then tier_id ∷ begun else begun, last)
