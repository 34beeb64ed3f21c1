-- ===== src/Lobby.antt =====
-- The lobby state machine of packages/lobby/src/state.ts, on every event and branch.
-- Player, game and tier identifiers are only compared for equality: players and games are numbers
-- here, a tier is its name. `now` and deadlines are epoch milliseconds, far below 2 ^ 53.
pub mod Roster
pub mod Invariant
pub mod Launch
pub mod Admission
mod Tests
use solana_snake_arena.Base.{
  ℕ, ◌+◌, ◌-◌, ◌*◌, ◌/◌, String, Bool, true, false, not, ◌&&◌, ◌||◌, Option, none, some, List, [],
  ◌∷◌, ◌++◌, ltb, leb, ◌==◌, if◌then◌else◌, is_some, length, any, every, filter, find,
}
use solana_snake_arena.Tiers.{RoomTier}

pub data LobbyStatus : Type 0 where
  waiting countdown launching closed : LobbyStatus

-- `a === b` on statuses
abbrev pub status_eq : LobbyStatus → LobbyStatus → Bool
status_eq waiting waiting = true
status_eq countdown countdown = true
status_eq launching launching = true
status_eq closed closed = true
status_eq _ _ = false

pub record LobbyPlayer : Type 0 where
  pub player_id : ℕ
  pub nickname : String
  pub wallet : String
  pub joined_at : ℕ
  pub ready : Bool

pub record LobbyState : Type 0 where
  pub tier_id : String
  pub status : LobbyStatus
  pub players : List LobbyPlayer
  pub countdown_ends_at : Option ℕ
  pub game_id : Option ℕ
  pub scheduled : Bool
  pub version : ℕ

pub data LobbyEvent : Type 0 where
  join : (player_id : ℕ) (nickname wallet : String) → LobbyEvent
  leave : (player_id : ℕ) → LobbyEvent
  ready : (player_id : ℕ) → Bool → LobbyEvent
  tick : LobbyEvent
  launched : (game_id : ℕ) → LobbyEvent
  opened : (game_id : Option ℕ) → (scheduled : Bool) → LobbyEvent  -- the source's 'open'
  close : LobbyEvent
  reset : LobbyEvent

pub data LobbyRejection : Type 0 where
  lobby_full already_joined not_joined lobby_launching lobby_closed : LobbyRejection

pub record LobbyTransition : Type 0 where
  pub state : LobbyState
  pub changed : Bool
  pub rejected : Option LobbyRejection
  pub should_launch : Bool

abbrev pub empty_lobby : String → LobbyState
empty_lobby tier = record {
  tier_id = tier;
  status = waiting;
  players = [];
  countdown_ends_at = none;
  game_id = none;
  scheduled = false;
  version = 0;
}

abbrev pub unchanged : LobbyState → Option LobbyRejection → LobbyTransition
unchanged s why = record { state = s; changed = false; rejected = why; should_launch = false }

-- The literal `{ state, changed, rejected: null, shouldLaunch }`.
abbrev pub moved : LobbyState → Bool → Bool → LobbyTransition
moved s changed launch = record {
  state = s;
  changed = changed;
  rejected = none;
  should_launch = launch;
}

abbrev pub has_id : ℕ → LobbyPlayer → Bool
has_id id p = p.player_id == id

abbrev pub is_ready : LobbyPlayer → Bool
is_ready p = p.ready

-- `state.players.some((p) => p.playerId === id)`
abbrev pub in_roster : ℕ → List LobbyPlayer → Bool
in_roster id = any (has_id id)

unfoldable pub is_at_capacity : ℕ → RoomTier → Bool
is_at_capacity count tier = elim tier.max_players [ none ↦ false | some cap ↦ leb cap count ]

pub ready_count : LobbyState → ℕ
ready_count s = length (filter is_ready s.players)

pub is_joinable : LobbyState → RoomTier → Bool
is_joinable s tier =
    (status_eq s.status waiting || status_eq s.status countdown)
    && not (is_at_capacity (length s.players) tier)

-- `Math.max(0, Math.ceil((endsAt - now) / 1_000))`: below zero `-` stops at 0, as the `max` does.
pub countdown_remaining : LobbyState → ℕ → Option ℕ
countdown_remaining s now =
    if status_eq s.status countdown
    then elim s.countdown_ends_at [ none ↦ none | some ends ↦ some ((ends - now + 999) / 1_000) ]
    else none

-- The deadline a countdown started now would have.
pub candidate_deadline : LobbyState → RoomTier → ℕ → ℕ
candidate_deadline s tier now =
    let short = every is_ready s.players || is_at_capacity (length s.players) tier in
    now + (if short then tier.ready_countdown_seconds else tier.countdown_seconds) * 1_000

-- The countdown has expired: launch, in a paid room with those who have paid, or fall back.
pub expire : LobbyState → RoomTier → LobbyTransition
expire s tier =
    let paid = filter is_ready s.players in
    if ltb 0 tier.entry_fee_lamports
    then (if ltb (length paid) tier.min_players
        then moved (record s { players = paid; status = waiting; countdown_ends_at = none }) true
            false
        else moved (record s { players = paid; status = launching; countdown_ends_at = none }) true
            true)
    else moved (record s { status = launching; countdown_ends_at = none }) true true

-- A running countdown with its deadline: expire it, bring it closer, or leave it.
pub run_countdown : LobbyState → RoomTier → ℕ → Bool → ℕ → LobbyTransition
run_countdown s tier now mutated ends =
    if leb ends now
    then expire s tier
    else (if ltb (candidate_deadline s tier now) ends
        then moved (record s { countdown_ends_at = some (candidate_deadline s tier now) }) true
            false
        else moved s mutated false)

-- Recomputes the status from the player set.
unfoldable pub settle : LobbyState → RoomTier → ℕ → Bool → LobbyTransition
settle s tier now mutated =
    if s.scheduled
    then moved s mutated false
    else (if ltb (length s.players) tier.min_players
        then (let stale = not (status_eq s.status waiting) || is_some s.countdown_ends_at in
            moved (if stale then record s { status = waiting; countdown_ends_at = none } else s)
              (mutated || stale) false)
        else (if status_eq s.status waiting
            then moved
                (record s {
                  status = countdown;
                  countdown_ends_at = some (candidate_deadline s tier now);
                })
                true false
            else (if status_eq s.status countdown
                then elim s.countdown_ends_at [
                  | none ↦ moved s mutated false
                  | some ends ↦ run_countdown s tier now mutated ends
                ]
                else moved s mutated false)))

-- `players[index] = { ...existing, ready }` at the first player with the identifier.
pub set_ready : ℕ → Bool → List LobbyPlayer → List LobbyPlayer
set_ready id r [] = []
set_ready id r (p ∷ ps) =
    let rest = set_ready id r ps in if has_id id p then record p { ready = r } ∷ ps else p ∷ rest

abbrev pub with_players : LobbyState → List LobbyPlayer → LobbyState
with_players s ps = record s { players = ps; version = s.version + 1 }

pub bool_eq : Bool → Bool → Bool
bool_eq true b = b
bool_eq false b = not b

-- `{ ...event.player, joinedAt: now, ready: false }`
abbrev pub newcomer : ℕ → String → String → ℕ → LobbyPlayer
newcomer id nickname wallet now = record {
  player_id = id;
  nickname = nickname;
  wallet = wallet;
  joined_at = now;
  ready = false;
}

unfoldable pub reduce_lobby : LobbyState → LobbyEvent → RoomTier → ℕ → LobbyTransition
reduce_lobby s (join id nickname wallet) tier now =
    if status_eq s.status launching
    then unchanged s (some lobby_launching)
    else (if status_eq s.status closed
        then unchanged s (some lobby_closed)
        else (if in_roster id s.players
            then unchanged s (some already_joined)
            else (if is_at_capacity (length s.players) tier
                then unchanged s (some lobby_full)
                else settle (with_players s (s.players ++ newcomer id nickname wallet now ∷ []))
                    tier now true)))
reduce_lobby s (leave id) tier now =
    if not (in_roster id s.players)
    then unchanged s (some not_joined)
    else (if status_eq s.status launching
        then unchanged s (some lobby_launching)
        else settle (with_players s (filter (λ p. not (has_id id p)) s.players)) tier now true)
reduce_lobby s (ready id r) tier now = elim (find (has_id id) s.players) [
  | none ↦ unchanged s (some not_joined)
  | some existing ↦
      (if status_eq s.status launching
        then unchanged s (some lobby_launching)
        else (if bool_eq existing.ready r
            then unchanged s none
            else settle (with_players s (set_ready id r s.players)) tier now true))
]
reduce_lobby s tick tier now = settle s tier now false
reduce_lobby s (opened game scheduled) tier now =
    moved
      (record (if ltb 0 (length s.players) then s else empty_lobby s.tier_id) {
        status = waiting;
        countdown_ends_at = none;
        game_id = game;
        scheduled = scheduled;
        version = s.version + 1;
      })
      true false
reduce_lobby s close tier now =
    if status_eq s.status launching
    then unchanged s none
    else moved (record s { status = launching; countdown_ends_at = none; version = s.version + 1 })
        true false
reduce_lobby s (launched game) tier now =
    moved
      (record s {
        status = launching;
        game_id = some game;
        countdown_ends_at = none;
        version = s.version + 1;
      })
      true false
reduce_lobby s reset tier now =
    moved (record (empty_lobby s.tier_id) { version = s.version + 1 }) true false
