-- ===== src/LobbyService/Writes.antt =====
-- Reads, compare-and-set writes and single attempts on the store (packages/lobby/src/service.ts, store.ts).
use text.Mathlib.Text.{◌==◌ as str_eq}
use text.Mathlib.TextEquality.{eq_iff}
use solana_snake_arena.Base.{
  ℕ, suc, String, ◌≡◌, refl, ◌∙◌, ap, inl, inr, true, false, none, some, List, [], ◌∷◌,
  Option-cases, ==_refl,
}
use solana_snake_arena.Tiers.{RoomTier}
use solana_snake_arena.Lobby.{LobbyPlayer, LobbyState, LobbyEvent, LobbyTransition, reduce_lobby}
use solana_snake_arena.LobbyService.{
  LobbyStore, load, put, save, stored_version, set_player_lobby, clear_players, Surroundings,
  finish, apply,
}

pub str_refl : (s : String) → str_eq s s ≡ true
str_refl s = (eq_iff s s).1 refl

pub stored_version-of :
    (st : LobbyStore) (key : String) (old : LobbyState)
    → st.lobbies key ≡ some old
    → stored_version st key ≡ old.version
unfolding stored_version
stored_version-of st key old e = rw (e, stored_version)

put-lobbies : (st : LobbyStore) (s : LobbyState) → (put st s).lobbies s.tier_id ≡ some s
put-lobbies st s = rw (str_refl s.tier_id)

-- A write under the version that is stored goes through.
pub save_current :
    (st : LobbyStore) (s : LobbyState) (n : ℕ)
    → stored_version st s.tier_id ≡ n
    → (save st s n ≡ (put st s, true)) × ((save st s n).0.lobbies s.tier_id ≡ some s)
unfolding save
save_current st s n current =
    (rw (current, save) (rw (==_refl n)), rw (current, save) (rw (==_refl n) (put-lobbies st s)))

pub clear_players-lobbies :
    (st : LobbyStore) (ps : List LobbyPlayer) → (clear_players st ps).lobbies ≡ st.lobbies
unfolding clear_players set_player_lobby
clear_players-lobbies st [] = refl
clear_players-lobbies st (p ∷ ps) = clear_players-lobbies (set_player_lobby st p.player_id none) ps

pub save_at :
    (st : LobbyStore) (t : LobbyState) (key : String) (n : ℕ)
    → t.tier_id ≡ key
    → stored_version st key ≡ n
    → save st t n ≡ (put st t, true)
unfolding save
save_at st t key n same current = rw (ap (stored_version st) same ∙ current, save) (rw (==_refl n))

pub stored_version-load :
    (st : LobbyStore) (key : String) → stored_version st key ≡ (load st key).version
unfolding stored_version load
stored_version-load st key = elim (Option-cases (st.lobbies key)) [
  | inl missing ↦ rw (missing, stored_version, load)
  | inr (s, e) ↦ rw (e, stored_version, load)
]

pub load-stored :
    (st : LobbyStore) (key : String) (s : LobbyState) → st.lobbies key ≡ some s → load st key ≡ s
unfolding load
load-stored st key s e = rw (e, load)

pub stored_version-put :
    (st : LobbyStore) (t : LobbyState) (key : String)
    → key ≡ t.tier_id
    → stored_version (put st t) key ≡ t.version
unfolding stored_version
stored_version-put st t key e = rw e (rw (str_refl t.tier_id, stored_version))

-- An attempt whose write went through.
pub apply_won :
    (env : Surroundings) (tier : RoomTier) (e : LobbyEvent) (n : ℕ) (st st' : LobbyStore)
    (r : LobbyTransition)
    → reduce_lobby (load st tier.id) e tier (env.clock n) ≡ r
    → r.rejected ≡ none
    → r.changed ≡ true
    → save (env.gap n st) r.state (load st tier.id).version ≡ (st', true)
    → apply env tier e (suc n) st ≡ finish env tier r.state r.should_launch st'
unfolding apply
apply_won env tier e n st st' r is accepted new won =
    rw (is, accepted, apply) (rw (is, new) (rw won))

-- An attempt that lost the race.
pub apply_lost :
    (env : Surroundings) (tier : RoomTier) (e : LobbyEvent) (n : ℕ) (st : LobbyStore)
    (r : LobbyTransition)
    → reduce_lobby (load st tier.id) e tier (env.clock n) ≡ r
    → r.rejected ≡ none
    → r.changed ≡ true
    → (save (env.gap n st) r.state (load st tier.id).version).1 ≡ false
    → apply env tier e (suc n) st ≡ apply env tier e n (env.gap n st)
unfolding apply
apply_lost env tier e n st r is accepted new lost =
    rw (is, accepted, apply) (rw (is, new) (rw lost))
