-- ===== src/Lobby/Admission.antt =====
-- Who gets in and out of a lobby, and what the version counts (packages/lobby/src/state.ts).
use solana_snake_arena.Base.{
  ℕ, ◌+◌, ◌≤◌, ◌<◌, ◌≡◌, refl, ◌↔◌, Bool, true, false, not, Option, none, some, List, [], ◌∷◌, ◌++◌,
  arith, ltb, length, filter, if◌then◌else◌, String, any-filter-false, length-append,
}
use solana_snake_arena.Tiers.{RoomTier}
use solana_snake_arena.Lobby.{
  launching, lobby_launching, waiting, countdown, LobbyPlayer, LobbyState, LobbyEvent, join, leave,
  tick, launched, opened, close, reset, with_players, newcomer, has_id, is_ready, in_roster,
  is_at_capacity, set_ready, empty_lobby, is_joinable, expire, run_countdown, settle, reduce_lobby,
}
use solana_snake_arena.Lobby.Roster.{in_roster-filter_leave}

settle-rejects_none :
    (tier : RoomTier) (s : LobbyState) (now : ℕ) (mutated : Bool)
    → (settle s tier now mutated).rejected ≡ none
unfolding settle run_countdown expire
settle-rejects_none tier s now mutated = ground arith

-- A player is admitted exactly if the room shows as joinable and does not list the player already.
join_admits_iff :
    (tier : RoomTier) (s : LobbyState) (id : ℕ) (nickname wallet : String) (now : ℕ)
    → ((reduce_lobby s (join id nickname wallet) tier now).rejected ≡ none)
      ↔ ((is_joinable s tier ≡ true) × (in_roster id s.players ≡ false))
unfolding reduce_lobby is_joinable
join_admits_iff tier s id nickname wallet now =
    let settled =
      settle-rejects_none tier (with_players s (s.players ++ newcomer id nickname wallet now ∷ []))
        now true in
    (λ h. ground (arith, settled), λ h. ground (arith, settled))

settle-drops :
    (tier : RoomTier) (s : LobbyState) (now id : ℕ) (mutated : Bool)
    → in_roster id s.players ≡ false
    → in_roster id (settle s tier now mutated).state.players ≡ false
unfolding settle run_countdown expire
settle-drops tier s now id mutated h =
    ground (arith, any-filter-false (has_id id) is_ready s.players h)

-- A leave that is not refused takes the player out of the lobby.
pub leave_removes :
    (tier : RoomTier) (s : LobbyState) (id now : ℕ)
    → (reduce_lobby s (leave id) tier now).rejected ≡ none
    → in_roster id (reduce_lobby s (leave id) tier now).state.players ≡ false
unfolding reduce_lobby
leave_removes tier s id now h =
    let ps : List LobbyPlayer = filter (λ p. not (has_id id p)) s.players in
    ground (
      arith,
      in_roster-filter_leave id id s.players,
      settle-drops tier (with_players s ps) now id true,
    )

unpaid_dropped :
    (id : ℕ) (ps : List LobbyPlayer) (q : LobbyPlayer)
    → in_roster id ps ≡ false
    → q.ready ≡ false
    → in_roster id (filter is_ready (ps ++ q ∷ [])) ≡ false
unpaid_dropped id [] q h r = ground arith
unpaid_dropped id (p ∷ ps) q h r = ground (arith, unpaid_dropped id ps q)

-- A newcomer to a paid room whose countdown is already over is admitted and, in the same step, not
-- taken into the roster: the join expires the countdown, which drops whoever has not paid.
pub join_after_deadline :
    (tier : RoomTier) (s : LobbyState) (id : ℕ) (nickname wallet : String) (ends now : ℕ)
    → s.status ≡ countdown
    → s.scheduled ≡ false
    → s.countdown_ends_at ≡ some ends
    → ends ≤ now
    → 0 < tier.entry_fee_lamports
    → tier.min_players ≤ length s.players
    → in_roster id s.players ≡ false
    → is_at_capacity (length s.players) tier ≡ false
    → ((reduce_lobby s (join id nickname wallet) tier now).rejected ≡ none)
      × (in_roster id (reduce_lobby s (join id nickname wallet) tier now).state.players ≡ false)
unfolding reduce_lobby settle run_countdown expire
join_after_deadline tier s id nickname wallet ends now c free e due fee enough fresh room = ground (
  arith,
  length-append s.players (newcomer id nickname wallet now ∷ []),
  unpaid_dropped id s.players (newcomer id nickname wallet now) fresh refl,
)

abbrev pub is_tick : LobbyEvent → Bool
is_tick tick = true
is_tick _ = false

settle-version :
    (tier : RoomTier) (s : LobbyState) (now : ℕ) (mutated : Bool)
    → (settle s tier now mutated).state.version ≡ s.version
unfolding settle run_countdown expire
settle-version tier s now mutated = ground arith

-- An event that changes the lobby counts its version up by one, except a tick, which never does:
-- not when it starts a countdown, and not when it launches.
pub reduce_lobby-version :
    (tier : RoomTier) (s : LobbyState) (e : LobbyEvent) (now : ℕ)
    → (reduce_lobby s e tier now).changed ≡ true
    → (reduce_lobby s e tier now).state.version ≡ (if is_tick e then s.version else s.version + 1)
unfolding reduce_lobby
reduce_lobby-version tier s (join id nickname wallet) now h = ground (
  arith,
  settle-version tier (with_players s (s.players ++ newcomer id nickname wallet now ∷ [])) now true,
)
reduce_lobby-version tier s (leave id) now h = ground (
  arith,
  settle-version tier (with_players s (filter (λ p. not (has_id id p)) s.players)) now true,
)
reduce_lobby-version tier s (LobbyEvent.ready id r) now h =
    ground (arith, settle-version tier (with_players s (set_ready id r s.players)) now true)
reduce_lobby-version tier s tick now h = settle-version tier s now false
reduce_lobby-version tier s (launched g) now h = refl
reduce_lobby-version tier s (opened g sch) now h = ground arith
reduce_lobby-version tier s close now h = ground arith
reduce_lobby-version tier s reset now h = refl

queue_kept :
    (s : LobbyState) (ps : List LobbyPlayer)
    → s.players ≡ ps
    → (if ltb 0 (length s.players) then s else empty_lobby s.tier_id).players ≡ s.players
queue_kept s [] e = rw e
queue_kept s (p ∷ ps) e = ground arith

-- Opening a lobby for the next game keeps everyone who is queued, and makes it wait for players
-- under the new game.
pub opened_keeps_queue :
    (tier : RoomTier) (s : LobbyState) (game : Option ℕ) (scheduled : Bool) (now : ℕ)
    → ((reduce_lobby s (opened game scheduled) tier now).state.players ≡ s.players)
      × ((reduce_lobby s (opened game scheduled) tier now).state.status ≡ waiting)
      × ((reduce_lobby s (opened game scheduled) tier now).state.game_id ≡ game)
unfolding reduce_lobby
opened_keeps_queue tier s game scheduled now =
    (queue_kept s s.players refl, ground arith, ground arith)

settle-scheduled :
    (tier : RoomTier) (s : LobbyState) (now : ℕ) (mutated : Bool)
    → s.scheduled ≡ true
    → ((settle s tier now mutated).state ≡ s) × ((settle s tier now mutated).should_launch ≡ false)
unfolding settle
settle-scheduled tier s now mutated h = ground arith

-- What a player, or the ticker, can do to a lobby; the other events are the cycle's.
abbrev pub is_cycle_event : LobbyEvent → Bool
is_cycle_event (join _ _ _) = false
is_cycle_event (leave _) = false
is_cycle_event (LobbyEvent.ready _ _) = false
is_cycle_event tick = false
is_cycle_event _ = true

-- In scheduled mode neither a player nor the ticker moves the lobby on: the status and the game
-- stay, and nothing is launched.
pub scheduled_holds :
    (tier : RoomTier) (s : LobbyState) (e : LobbyEvent) (now : ℕ)
    → s.scheduled ≡ true
    → is_cycle_event e ≡ false
    → ((reduce_lobby s e tier now).state.status ≡ s.status)
      × ((reduce_lobby s e tier now).state.game_id ≡ s.game_id)
      × ((reduce_lobby s e tier now).should_launch ≡ false)
unfolding reduce_lobby settle
scheduled_holds tier s (join id nickname wallet) now h p = ground arith
scheduled_holds tier s e now h p = ground arith

settle-tier_id :
    (tier : RoomTier) (s : LobbyState) (now : ℕ) (mutated : Bool)
    → (settle s tier now mutated).state.tier_id ≡ s.tier_id
unfolding settle expire run_countdown
settle-tier_id tier s now mutated = ground arith

pub reduce_lobby-tier_id :
    (tier : RoomTier) (s : LobbyState) (e : LobbyEvent) (now : ℕ)
    → (reduce_lobby s e tier now).state.tier_id ≡ s.tier_id
unfolding reduce_lobby
reduce_lobby-tier_id tier s (join id nickname wallet) now = ground (
  arith,
  settle-tier_id tier (with_players s (s.players ++ newcomer id nickname wallet now ∷ [])) now true,
)
reduce_lobby-tier_id tier s (leave id) now = ground (
  arith,
  settle-tier_id tier (with_players s (filter (λ p. not (has_id id p)) s.players)) now true,
)
reduce_lobby-tier_id tier s (LobbyEvent.ready id r) now =
    ground (arith, settle-tier_id tier (with_players s (set_ready id r s.players)) now true)
reduce_lobby-tier_id tier s tick now = settle-tier_id tier s now false
reduce_lobby-tier_id tier s e now = ground arith

-- The state that 'reset' leaves.
abbrev pub emptied : LobbyState → LobbyState
emptied s = record (empty_lobby s.tier_id) { version = s.version + 1 }

-- The state that 'launched' leaves.
abbrev pub marked : LobbyState → ℕ → LobbyState
marked s game = record s {
  status = launching;
  game_id = some game;
  countdown_ends_at = none;
  version = s.version + 1;
}

pub reset_returns :
    (tier : RoomTier) (s : LobbyState) (now : ℕ)
    → reduce_lobby s reset tier now
      ≡ record { state = emptied s; changed = true; rejected = none; should_launch = false }
unfolding reduce_lobby
reset_returns tier s now = refl

pub launched_returns :
    (tier : RoomTier) (s : LobbyState) (game now : ℕ)
    → reduce_lobby s (launched game) tier now
      ≡ record { state = marked s game; changed = true; rejected = none; should_launch = false }
unfolding reduce_lobby
launched_returns tier s game now = refl

pub leave_launching :
    (tier : RoomTier) (s : LobbyState) (id now : ℕ)
    → s.status ≡ launching
    → in_roster id s.players ≡ true
    → (reduce_lobby s (leave id) tier now).rejected ≡ some lobby_launching
unfolding reduce_lobby
leave_launching tier s id now h listed = ground arith

pub tick-version :
    (tier : RoomTier) (s : LobbyState) (now : ℕ)
    → (reduce_lobby s tick tier now).state.version ≡ s.version
unfolding reduce_lobby
tick-version tier s now = settle-version tier s now false

pub tick_launch_changes :
    (tier : RoomTier) (s : LobbyState) (now : ℕ)
    → (reduce_lobby s tick tier now).should_launch ≡ true
    → ((reduce_lobby s tick tier now).rejected ≡ none)
      × ((reduce_lobby s tick tier now).changed ≡ true)
unfolding reduce_lobby settle expire run_countdown
tick_launch_changes tier s now h = ground arith
