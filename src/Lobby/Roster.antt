-- ===== src/Lobby/Roster.antt =====
-- The roster of a lobby (packages/lobby/src/state.ts): who is in it, and what an edit of it keeps.
use solana_snake_arena.Base.{
  ℕ, ◌≡◌, refl, Bool, false, not, ◌&&◌, List, [], ◌∷◌, ◌++◌, arith, length, filter, ◌==◌,
  any-append, any-filter-false,
}
use solana_snake_arena.Lobby.{LobbyPlayer, has_id, in_roster, set_ready}

-- No player is listed twice.
abbrev pub IsDistinct : List LobbyPlayer → Type 0
IsDistinct [] = Unit
IsDistinct (p ∷ ps) = (in_roster p.player_id ps ≡ false) × IsDistinct ps

pub IsDistinct-append :
    (ps : List LobbyPlayer) (q : LobbyPlayer)
    → IsDistinct ps
    → in_roster q.player_id ps ≡ false
    → IsDistinct (ps ++ q ∷ [])
IsDistinct-append [] q h fresh = (refl, tt)
IsDistinct-append (p ∷ ps) q h fresh =
    ground (arith, IsDistinct-append ps q h.1, any-append (has_id p.player_id) ps (q ∷ []))

pub IsDistinct-filter :
    (keep : LobbyPlayer → Bool) (ps : List LobbyPlayer)
    → IsDistinct ps
    → IsDistinct (filter keep ps)
IsDistinct-filter keep [] h = tt
IsDistinct-filter keep (p ∷ ps) h =
    ground (arith, IsDistinct-filter keep ps h.1, any-filter-false (has_id p.player_id) keep ps h.0)

pub in_roster-set_ready :
    (j id : ℕ) (r : Bool) (ps : List LobbyPlayer) → in_roster j (set_ready id r ps) ≡ in_roster j ps
unfolding set_ready
in_roster-set_ready j id r [] = refl
in_roster-set_ready j id r (p ∷ ps) = ground (arith, in_roster-set_ready j id r ps)

pub IsDistinct-set_ready :
    (id : ℕ) (r : Bool) (ps : List LobbyPlayer) → IsDistinct ps → IsDistinct (set_ready id r ps)
unfolding set_ready
IsDistinct-set_ready id r [] h = tt
IsDistinct-set_ready id r (p ∷ ps) h =
    ground (arith, IsDistinct-set_ready id r ps h.1, in_roster-set_ready p.player_id id r ps)

pub length-set_ready :
    (id : ℕ) (r : Bool) (ps : List LobbyPlayer) → length (set_ready id r ps) ≡ length ps
unfolding set_ready
length-set_ready id r [] = refl
length-set_ready id r (p ∷ ps) = ground (arith, length-set_ready id r ps)

-- `leave` removes exactly the player who leaves.
pub in_roster-filter_leave :
    (j id : ℕ) (ps : List LobbyPlayer)
    → in_roster j (filter (λ p. not (has_id id p)) ps) ≡ (not (j == id) && in_roster j ps)
in_roster-filter_leave j id [] = ground arith
in_roster-filter_leave j id (p ∷ ps) = ground (arith, in_roster-filter_leave j id ps)
