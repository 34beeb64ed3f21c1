-- ===== src/LobbyService/Soundness.antt =====
-- Well-formed lobbies in the store, with other replicas' changes between the read and the write of a
-- call (packages/lobby/src/service.ts).
use text.Mathlib.Text.{◌==◌ as str_eq}
use text.Mathlib.TextEquality.{eq_iff}
use solana_snake_arena.Base.{
  ℕ, zero, suc, String, ◌≡◌, refl, sym, ◌∙◌, ap, inl, inr, Bool, true, false, Option, none, some,
  List, [], ◌∷◌, arith, Bool-cases, Option-cases, ◌==◌, find,
}
use solana_snake_arena.Tiers.{RoomTier, get_tier, room_tiers}
use solana_snake_arena.Lobby.{
  LobbyPlayer, LobbyState, LobbyEvent, LobbyTransition, launched, reset, empty_lobby, reduce_lobby,
}
use solana_snake_arena.Lobby.Invariant.{IsValid, Fits, reduce_lobby-IsValid}
use solana_snake_arena.Lobby.Admission.{reduce_lobby-tier_id}
use solana_snake_arena.LobbyService.{
  stored_version, LobbyStore, load, put, save, set_player_lobby, clear_players, Surroundings,
  request, perform_launch, finish, apply, apply_to,
}

-- A lobby as it may stand under its key: well formed for its tier, and of that tier.
abbrev pub FitsKey : String → Option RoomTier → Option LobbyState → Type 0
FitsKey key tier none = Unit
FitsKey key none (some s) = Unit
FitsKey key (some tier) (some s) = IsValid tier s × (s.tier_id ≡ key)

abbrev pub IsSound : LobbyStore → Type 0
IsSound st = (key : String) → FitsKey key (get_tier key) (st.lobbies key)

abbrev pub Keeps : (LobbyStore → LobbyStore) → Type 0
Keeps change = (st : LobbyStore) → IsSound st → IsSound (change st)

-- What the other replicas do leaves the store sound.
pub record AreSound (env : Surroundings) : Type 0 where
  pub gaps : (n : ℕ) → Keeps (env.gap n)
  pub launch_gap : Keeps env.launch_gap

Fits-zero : (cap : Option ℕ) → Fits cap 0
Fits-zero none = tt
Fits-zero (some c) = omega arith

empty-IsValid : (tier : RoomTier) (id : String) → IsValid tier (empty_lobby id)
empty-IsValid tier id = record { timed = refl; distinct = tt; within = Fits-zero tier.max_players }

module _ (tier : RoomTier) (known : get_tier tier.id ≡ some tier) where
  abbrev IsOf : LobbyState → Type 0
  IsOf s = IsValid tier s × (s.tier_id ≡ tier.id)

  load-IsOf : (st : LobbyStore) → IsSound st → IsOf (load st tier.id)
  unfolding load
  load-IsOf st h = elim (Option-cases (st.lobbies tier.id)) [
    | inl missing ↦ rw (missing, load) (empty-IsValid tier tier.id, refl)
    | inr (s, e) ↦ rw (e, load) (rw (e, known) at (h tier.id))
  ]

  put-IsSound : (st : LobbyStore) (s : LobbyState) → IsSound st → IsOf s → IsSound (put st s)
  put-IsSound st s h (v, e) key = elim (Bool-cases (str_eq key s.tier_id)) [
    | inl same ↦
        let found : key ≡ tier.id = (eq_iff key s.tier_id).0 same ∙ e in
        rw same (rw (ap get_tier found ∙ known) (v, e ∙ sym found))
    | inr other ↦ rw other (h key)
  ]

  save-IsSound :
      (st : LobbyStore) (s : LobbyState) (n : ℕ) → IsSound st → IsOf s → IsSound (save st s n).0
  unfolding save
  save-IsSound st s n h of = elim (Bool-cases (stored_version st s.tier_id == n)) [
    | inl same ↦ rw same (put-IsSound st s h of)
    | inr other ↦ rw other h
  ]

  reduce-IsOf :
      (s : LobbyState) (e : LobbyEvent) (now : ℕ) → IsOf s → IsOf (reduce_lobby s e tier now).state
  reduce-IsOf s e now (v, id) =
      (reduce_lobby-IsValid tier s e now v, reduce_lobby-tier_id tier s e now ∙ id)

  clear_players-IsSound :
      (st : LobbyStore) (ps : List LobbyPlayer) → IsSound st → IsSound (clear_players st ps)
  unfolding clear_players set_player_lobby
  clear_players-IsSound st [] h = h
  clear_players-IsSound st (p ∷ ps) h =
      clear_players-IsSound (set_player_lobby st p.player_id none) ps h

  perform_launch-IsSound :
      (env : Surroundings) (s : LobbyState) (st : LobbyStore)
      → AreSound env
      → IsSound st
      → IsOf s
      → IsSound (perform_launch env tier s st).1
  unfolding perform_launch
  perform_launch-IsSound env s st ok h of = elim (Option-cases (env.launch (request tier s))) [
    | inl failed ↦
        rw (failed, perform_launch)
          (save-IsSound _ _ _ (ok.launch_gap st h) (reduce-IsOf s reset _ of))
    | inr (game, e) ↦
        rw (e, perform_launch)
          (save-IsSound _ _ _
            (clear_players-IsSound _ s.players
              (save-IsSound _ _ _ (ok.launch_gap st h) (reduce-IsOf s (launched game) _ of)))
            (reduce-IsOf _ reset _ (reduce-IsOf s (launched game) _ of)))
  ]

  finish-IsSound :
      (env : Surroundings) (s : LobbyState) (launch : Bool) (st : LobbyStore)
      → AreSound env
      → IsSound st
      → IsOf s
      → IsSound (finish env tier s launch st).1
  unfolding finish
  finish-IsSound env s true st ok h of = perform_launch-IsSound env s st ok h of
  finish-IsSound env s false st ok h of = h

  apply-IsSound :
      (env : Surroundings) (e : LobbyEvent) (n : ℕ) (st : LobbyStore)
      → AreSound env
      → IsSound st
      → IsSound (apply env tier e n st).1
  unfolding apply
  apply-IsSound env e zero st ok h = h
  apply-IsSound env e (suc n) st ok h =
      let r : LobbyTransition = reduce_lobby (load st tier.id) e tier (env.clock n) in
      let of : IsOf r.state = reduce-IsOf _ e _ (load-IsOf st h) in
      let wrote = save (env.gap n st) r.state (load st tier.id).version in
      elim (Option-cases r.rejected) [
        | inr (why, refused) ↦ rw (refused, apply) h
        | inl accepted ↦ elim (Bool-cases r.changed) [
          | inr same ↦ rw (accepted, same, apply) h
          | inl new ↦ elim (Bool-cases wrote.1) [
            | inl won ↦
                rw (accepted, new, won, apply)
                  (finish-IsSound env r.state r.should_launch wrote.0 ok
                    (save-IsSound _ r.state _ (ok.gaps n st h) of) of)
            | inr lost ↦
                rw (accepted, new, lost, apply) (apply-IsSound env e n _ ok (ok.gaps n st h))
          ]
        ]
      ]

find_holds {ℓ} : {A : Type ℓ} (p : A → Bool) (xs : List A) (x : A) → find p xs ≡ some x → p x ≡ true
find_holds p [] x h = cc
find_holds p (y ∷ ys) x h = ground (arith, find_holds p ys x)

pub get_tier-same : (id : String) (tier : RoomTier) → get_tier id ≡ some tier → tier.id ≡ id
unfolding get_tier
get_tier-same id tier e =
    (eq_iff tier.id id).0 (find_holds (λ (t : RoomTier). str_eq t.id id) room_tiers tier e)

pub get_tier-id :
    (id : String) {tier : RoomTier} → get_tier id ≡ some tier → get_tier tier.id ≡ some tier
get_tier-id id {tier} e = ap get_tier (get_tier-same id tier e) ∙ e

-- Whatever sound changes other replicas make meanwhile, an event applied to a tier leaves every
-- lobby in the store well formed for its tier: no double entry, no exceeded seat limit, a deadline
-- exactly while the countdown runs.
pub apply_to-IsSound :
    (env : Surroundings) (tier_id : String) (e : LobbyEvent) (st : LobbyStore)
    → AreSound env
    → IsSound st
    → IsSound (apply_to env tier_id e st).1
unfolding apply_to
apply_to-IsSound env tier_id e st ok h = elim (Option-cases (get_tier tier_id)) [
  | inl unknown ↦ rw (unknown, apply_to) h
  | inr (tier, known) ↦
      rw (known, apply_to) (apply-IsSound tier (get_tier-id tier_id known) env e 5 st ok h)
]
