-- ===== src/Lobby/Launch.antt =====
-- When a lobby launches, and with whom (packages/lobby/src/state.ts: `settle` and the events that
-- end in it).
use solana_snake_arena.Base.{
  ℕ, ◌≤◌, ◌<◌, ◌≡◌, ◌⊎◌, inl, inr, Bool, not, [], ◌∷◌, ◌++◌, true, false, Option, none, some, List,
  arith, ltb, length, filter, every, every-filter_self, Option-cases, Bool-cases, if◌then◌else◌,
}
use solana_snake_arena.Tiers.{RoomTier}
use solana_snake_arena.Lobby.{
  waiting, countdown, launching, LobbyState, LobbyEvent, LobbyPlayer, with_players, newcomer,
  has_id, set_ready, join, leave, tick, launched, opened, close, reset, expire, run_countdown,
  settle, reduce_lobby, is_ready,
}

-- What a launch rests on: the state before it, and the state it leaves.
pub record IsLaunch (tier : RoomTier) (now : ℕ) (before after : LobbyState) : Type 0 where
  pub counting : before.status ≡ countdown
  pub unscheduled : before.scheduled ≡ false
  pub due : (ends : ℕ) × (before.countdown_ends_at ≡ some ends) × (ends ≤ now)
  pub gone : after.status ≡ launching
  pub stopped : after.countdown_ends_at ≡ none
  pub enough : tier.min_players ≤ length after.players
  pub paid : (tier.entry_fee_lamports ≡ 0) ⊎ (every is_ready after.players ≡ true)

settle-paid :
    (tier : RoomTier) (s : LobbyState) (now : ℕ) (mutated : Bool)
    → (settle s tier now mutated).should_launch ≡ true
    → (tier.entry_fee_lamports ≡ 0)
      ⊎ (every is_ready (settle s tier now mutated).state.players ≡ true)
unfolding settle run_countdown expire
settle-paid tier s now mutated h = elim (Bool-cases (ltb 0 tier.entry_fee_lamports)) [
  | inl fee ↦ inr (ground (arith, every-filter_self is_ready s.players))
  | inr free ↦ inl (ground arith)
]

settle-IsLaunch :
    (tier : RoomTier) (s : LobbyState) (now : ℕ) (mutated : Bool)
    → (settle s tier now mutated).should_launch ≡ true
    → IsLaunch tier now s (settle s tier now mutated).state
unfolding settle run_countdown expire
settle-IsLaunch tier s now mutated h = elim (Option-cases s.countdown_ends_at) [
  | inl none_set ↦ ground arith
  | inr (ends, e) ↦ record {
    counting = ground arith;
    unscheduled = ground arith;
    due = (ends, e, ground arith);
    gone = ground arith;
    stopped = ground arith;
    enough = ground arith;
    paid = settle-paid tier s now mutated h;
  }
]

-- The edit of the roster that comes before `settle` touches none of the fields a launch rests on.
IsLaunch-edit :
    (tier : RoomTier) (now : ℕ) (s : LobbyState) (ps : List LobbyPlayer) (after : LobbyState)
    → IsLaunch tier now (with_players s ps) after
    → IsLaunch tier now s after
IsLaunch-edit tier now s ps after l = record {
  counting = l.counting;
  unscheduled = l.unscheduled;
  due = l.due;
  gone = l.gone;
  stopped = l.stopped;
  enough = l.enough;
  paid = l.paid;
}

edit-IsLaunch :
    (tier : RoomTier) (s : LobbyState) (now : ℕ) (ps : List LobbyPlayer)
    → (settle (with_players s ps) tier now true).should_launch ≡ true
    → IsLaunch tier now s (settle (with_players s ps) tier now true).state
edit-IsLaunch tier s now ps h = IsLaunch-edit tier now s ps _ (settle-IsLaunch tier _ now true h)

-- A lobby is launched, by whatever event, only out of an expired countdown of its own, with at
-- least the minimum of players, and in a paid room only with players who are ready, so have paid.
pub reduce_lobby-IsLaunch :
    (tier : RoomTier) (s : LobbyState) (e : LobbyEvent) (now : ℕ)
    → (reduce_lobby s e tier now).should_launch ≡ true
    → IsLaunch tier now s (reduce_lobby s e tier now).state
unfolding reduce_lobby
reduce_lobby-IsLaunch tier s (join id nickname wallet) now h =
    ground (arith, edit-IsLaunch tier s now (s.players ++ newcomer id nickname wallet now ∷ []))
reduce_lobby-IsLaunch tier s (leave id) now h =
    ground (arith, edit-IsLaunch tier s now (filter (λ p. not (has_id id p)) s.players))
reduce_lobby-IsLaunch tier s (LobbyEvent.ready id r) now h =
    ground (arith, edit-IsLaunch tier s now (set_ready id r s.players))
reduce_lobby-IsLaunch tier s tick now h = settle-IsLaunch tier s now false h
reduce_lobby-IsLaunch tier s (launched g) now h = cc
reduce_lobby-IsLaunch tier s (opened g sch) now h = cc
reduce_lobby-IsLaunch tier s close now h = ground arith
reduce_lobby-IsLaunch tier s reset now h = cc

-- A tick at or past the deadline launches a room that has enough players, in a paid room enough
-- paid ones; those who have not paid are left out of the match.
pub tick_launches :
    (tier : RoomTier) (s : LobbyState) (ends now : ℕ)
    → s.status ≡ countdown
    → s.scheduled ≡ false
    → s.countdown_ends_at ≡ some ends
    → ends ≤ now
    → tier.min_players ≤ length s.players
    → (tier.entry_fee_lamports ≡ 0) ⊎ (tier.min_players ≤ length (filter is_ready s.players))
    → ((reduce_lobby s tick tier now).should_launch ≡ true)
      × ((reduce_lobby s tick tier now).state.players
          ≡ (if ltb 0 tier.entry_fee_lamports then filter is_ready s.players else s.players))
unfolding reduce_lobby settle run_countdown expire
tick_launches tier s ends now counting free e due enough paid = ground arith

-- An expired countdown of a paid room with too few paid players starts nothing: the room waits
-- again, and only the paid players stay queued.
pub tick_falls_back :
    (tier : RoomTier) (s : LobbyState) (ends now : ℕ)
    → s.status ≡ countdown
    → s.scheduled ≡ false
    → s.countdown_ends_at ≡ some ends
    → ends ≤ now
    → tier.min_players ≤ length s.players
    → 0 < tier.entry_fee_lamports
    → length (filter is_ready s.players) < tier.min_players
    → ((reduce_lobby s tick tier now).should_launch ≡ false)
      × ((reduce_lobby s tick tier now).state.status ≡ waiting)
      × ((reduce_lobby s tick tier now).state.players ≡ filter is_ready s.players)
unfolding reduce_lobby settle run_countdown expire
tick_falls_back tier s ends now counting free e due enough fee short = ground arith

-- A deadline that is set, and no later than a given one.
abbrev pub NoLater : Option ℕ → ℕ → Type 0
NoLater none ends = ⊥
NoLater (some later) ends = later ≤ ends

settle-NoLater :
    (tier : RoomTier) (s : LobbyState) (ends now : ℕ) (mutated : Bool)
    → s.status ≡ countdown
    → s.countdown_ends_at ≡ some ends
    → (settle s tier now mutated).state.status ≡ countdown
    → NoLater (settle s tier now mutated).state.countdown_ends_at ends
unfolding settle run_countdown expire
settle-NoLater tier s ends now mutated c e h = ground arith

-- While a countdown runs, no event moves its deadline outwards: toggling `ready` cannot postpone
-- a launch.
pub reduce_lobby-NoLater :
    (tier : RoomTier) (s : LobbyState) (e : LobbyEvent) (ends now : ℕ)
    → s.status ≡ countdown
    → s.countdown_ends_at ≡ some ends
    → (reduce_lobby s e tier now).state.status ≡ countdown
    → NoLater (reduce_lobby s e tier now).state.countdown_ends_at ends
unfolding reduce_lobby
reduce_lobby-NoLater tier s (join id nickname wallet) ends now c e h = ground (
  arith,
  settle-NoLater tier (with_players s (s.players ++ newcomer id nickname wallet now ∷ [])) ends now
      true,
)
reduce_lobby-NoLater tier s (leave id) ends now c e h = ground (
  arith,
  settle-NoLater tier (with_players s (filter (λ p. not (has_id id p)) s.players)) ends now true,
)
reduce_lobby-NoLater tier s (LobbyEvent.ready id r) ends now c e h =
    ground (arith, settle-NoLater tier (with_players s (set_ready id r s.players)) ends now true)
reduce_lobby-NoLater tier s tick ends now c e h = settle-NoLater tier s ends now false c e h
reduce_lobby-NoLater tier s (launched g) ends now c e h = cc
reduce_lobby-NoLater tier s (opened g sch) ends now c e h = cc
reduce_lobby-NoLater tier s close ends now c e h = ground arith
reduce_lobby-NoLater tier s reset ends now c e h = cc

-- A refused event, and one that changes nothing, leave the state as it was and launch nothing.
pub reduce_lobby-unchanged :
    (tier : RoomTier) (s : LobbyState) (e : LobbyEvent) (now : ℕ)
    → (reduce_lobby s e tier now).changed ≡ false
    → ((reduce_lobby s e tier now).state ≡ s) × ((reduce_lobby s e tier now).should_launch ≡ false)
unfolding reduce_lobby settle run_countdown expire
reduce_lobby-unchanged tier s (join id nickname wallet) now h = ground arith
reduce_lobby-unchanged tier s e now h = ground arith
