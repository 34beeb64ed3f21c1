-- ===== src/Lobby/Invariant.antt =====
-- What every event of the lobby (packages/lobby/src/state.ts) keeps.
use solana_snake_arena.Base.{
  ℕ, ◌+◌, ◌≤◌, ◌≡◌, String, not, Bool, true, false, leb, Option, none, some, List, [], ◌∷◌, ◌++◌,
  arith, length, filter, is_some, length-append, length-filter_le,
}
use solana_snake_arena.Tiers.{RoomTier}
use solana_snake_arena.Lobby.{
  countdown, status_eq, LobbyPlayer, LobbyState, LobbyEvent, join, leave, tick, launched, opened,
  close, reset, with_players, in_roster, is_at_capacity, expire, run_countdown, settle,
  reduce_lobby, set_ready, has_id, is_ready,
}
use solana_snake_arena.Lobby.Roster.{
  IsDistinct, IsDistinct-append, IsDistinct-filter, IsDistinct-set_ready, length-set_ready,
}

-- A count within a seat limit.
abbrev pub Fits : Option ℕ → ℕ → Type 0
Fits none n = Unit
Fits (some cap) n = n ≤ cap

pub record IsValid (tier : RoomTier) (s : LobbyState) : Type 0 where
  pub timed : status_eq s.status countdown ≡ is_some s.countdown_ends_at
  pub distinct : IsDistinct s.players
  pub within : Fits tier.max_players (length s.players)

Fits-le : (cap : Option ℕ) (m n : ℕ) → m ≤ n → Fits cap n → Fits cap m
Fits-le none m n h f = tt
Fits-le (some c) m n h f = omega arith

cap_room :
    (cap : Option ℕ) (n : ℕ)
    → elim cap [ none ↦ false | some c ↦ leb c n ] ≡ false
    → Fits cap (n + 1)
cap_room none n h = tt
cap_room (some c) n h = ground arith

Fits-room :
    (tier : RoomTier) (n : ℕ) → is_at_capacity n tier ≡ false → Fits tier.max_players (n + 1)
unfolding is_at_capacity
Fits-room tier n h = cap_room tier.max_players n h

settle-IsValid :
    (tier : RoomTier) (s : LobbyState) (now : ℕ) (mutated : Bool)
    → IsValid tier s
    → IsValid tier (settle s tier now mutated).state
unfolding settle run_countdown expire
settle-IsValid tier s now mutated v = ground (
  arith,
  IsDistinct-filter is_ready s.players v.distinct,
  Fits-le tier.max_players (length (filter is_ready s.players)) (length s.players)
      (length-filter_le is_ready s.players) v.within,
)

-- The state after a change of the roster that `settle` then looks at.
edit-IsValid :
    (tier : RoomTier) (s : LobbyState) (ps : List LobbyPlayer)
    → IsValid tier s
    → IsDistinct ps
    → Fits tier.max_players (length ps)
    → IsValid tier (with_players s ps)
edit-IsValid tier s ps v d f = record { timed = v.timed; distinct = d; within = f }

join-IsValid :
    (tier : RoomTier) (s : LobbyState) (id : ℕ) (nickname wallet : String) (now : ℕ)
    → IsValid tier s
    → IsValid tier (reduce_lobby s (join id nickname wallet) tier now).state
unfolding reduce_lobby
join-IsValid tier s id nickname wallet now v =
    let q : LobbyPlayer = record {
      player_id = id;
      nickname = nickname;
      wallet = wallet;
      joined_at = now;
      ready = false;
    } in
    ground (
      arith,
      λ (fresh : in_roster id s.players ≡ false)
            (room : is_at_capacity (length s.players) tier ≡ false).
          settle-IsValid tier _ now true (
            edit-IsValid tier s (s.players ++ q ∷ []) v
              (IsDistinct-append s.players q v.distinct fresh)
              (Fits-le tier.max_players _ _ (omega (arith, length-append s.players (q ∷ [])))
                (Fits-room tier (length s.players) room))),
    )

leave-IsValid :
    (tier : RoomTier) (s : LobbyState) (id now : ℕ)
    → IsValid tier s
    → IsValid tier (reduce_lobby s (leave id) tier now).state
unfolding reduce_lobby
leave-IsValid tier s id now v =
    let keep : LobbyPlayer → Bool = λ p. not (has_id id p) in
    let ps : List LobbyPlayer = filter keep s.players in
    ground (
      arith,
      settle-IsValid tier (with_players s ps) now true (
          edit-IsValid tier s ps v (IsDistinct-filter keep s.players v.distinct)
            (Fits-le tier.max_players _ _ (length-filter_le keep s.players) v.within)),
    )

ready-IsValid :
    (tier : RoomTier) (s : LobbyState) (id : ℕ) (r : Bool) (now : ℕ)
    → IsValid tier s
    → IsValid tier (reduce_lobby s (LobbyEvent.ready id r) tier now).state
unfolding reduce_lobby
ready-IsValid tier s id r now v =
    let ps : List LobbyPlayer = set_ready id r s.players in
    ground (
      arith,
      settle-IsValid tier (with_players s ps) now true (
          edit-IsValid tier s ps v (IsDistinct-set_ready id r s.players v.distinct) (
            Fits-le tier.max_players _ _ (omega (arith, length-set_ready id r s.players))
              v.within)),
    )

-- Every event keeps a lobby well formed: the deadline is set exactly while the countdown runs, no
-- player is listed twice, and a seat limit is respected.
pub reduce_lobby-IsValid :
    (tier : RoomTier) (s : LobbyState) (e : LobbyEvent) (now : ℕ)
    → IsValid tier s
    → IsValid tier (reduce_lobby s e tier now).state
unfolding reduce_lobby
reduce_lobby-IsValid tier s (join id nickname wallet) now v =
    join-IsValid tier s id nickname wallet now v
reduce_lobby-IsValid tier s (leave id) now v = leave-IsValid tier s id now v
reduce_lobby-IsValid tier s (LobbyEvent.ready id r) now v = ready-IsValid tier s id r now v
reduce_lobby-IsValid tier s tick now v = settle-IsValid tier s now false v
reduce_lobby-IsValid tier s (launched g) now v = ground arith
reduce_lobby-IsValid tier s (opened g sch) now v =
    ground (arith, Fits-le tier.max_players 0 (length s.players) (omega arith) v.within)
reduce_lobby-IsValid tier s close now v = ground arith
reduce_lobby-IsValid tier s reset now v =
    ground (arith, Fits-le tier.max_players 0 (length s.players) (omega arith) v.within)
