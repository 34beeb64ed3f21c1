-- ===== src/LobbyService/Launching.antt =====
-- What `performLaunch`, `reset` and `join` of packages/lobby/src/service.ts leave in the store, and
-- two replicas that launch one lobby.
use text.Mathlib.Text.{◌==◌ as str_eq}
use text.Mathlib.TextEquality.{eq_iff}
use solana_snake_arena.Base.{
  ℕ, zero, suc, String, ◌≡◌, refl, sym, ◌∙◌, ap, inl, inr, Bool, true, false, Option, none, some,
  [], ◌≢◌, Bool-cases, Option-cases, ==_refl,
}
use solana_snake_arena.Tiers.{RoomTier, get_tier}
use solana_snake_arena.Lobby.{
  LobbyState, LobbyTransition, waiting, launching, lobby_launching, leave, join, tick, reset,
  in_roster, reduce_lobby,
}
use solana_snake_arena.Lobby.Admission.{
  reduce_lobby-tier_id, emptied, marked, reset_returns, launched_returns, leave_launching,
  tick-version, tick_launch_changes,
}
use solana_snake_arena.LobbyService.Soundness.{get_tier-same}
use solana_snake_arena.LobbyService.{
  max_cas_attempts, request, LobbyStore, load, put, save, stored_version, set_player_lobby,
  clear_players, Surroundings, perform_launch, done, finish, apply, apply_to, has_launched,
  clear_returned, reset_lobby, leave_lobby, enter_lobby, join_lobby, after_leaving,
  index_unless_refused,
}
use solana_snake_arena.LobbyService.Writes.{
  str_refl, stored_version-of, save_current, clear_players-lobbies, save_at, stored_version-load,
  load-stored, stored_version-put, apply_won, apply_lost,
}

-- A lobby that waits with nobody in it.
abbrev pub IsFree : Option LobbyState → Type 0
IsFree none = ⊥
IsFree (some s) = (s.status ≡ waiting) × (s.players ≡ []) × (s.countdown_ends_at ≡ none)

freed :
    (st : LobbyStore) (s : LobbyState)
    → stored_version st s.tier_id ≡ s.version
    → IsFree ((save st (emptied s) s.version).0.lobbies s.tier_id)
freed st s current = rw (save_current st (emptied s) s.version current).1 (refl, refl, refl)

-- When no other replica has written the lobby by the time the launch returns, so that its version is
-- still the launched one's, and none writes between the writes that follow, the stored lobby waits
-- again with nobody in it, whether the launch succeeded or threw: it is not left in `launching`.
pub perform_launch_frees :
    (env : Surroundings) (tier : RoomTier) (s : LobbyState) (st : LobbyStore)
    → stored_version (env.launch_gap st) s.tier_id ≡ s.version
    → IsFree ((perform_launch env tier s st).1.lobbies s.tier_id)
unfolding perform_launch
perform_launch_frees env tier s st current =
    let later : LobbyStore = env.launch_gap st in
    elim (Option-cases (env.launch (request tier s))) [
      | inl failed ↦
          rw (failed, perform_launch, reset_returns tier s (env.clock 0)) (freed later s current)
      | inr (game, e) ↦
          let after : LobbyStore =
            clear_players (save later (marked s game) s.version).0 s.players in
          rw
            (
              e,
              perform_launch,
              launched_returns tier s game (env.clock 0),
              reset_returns tier (marked s game) (env.clock 0),
            )
            (freed after (marked s game) (
              stored_version-of after s.tier_id (marked s game) (
                ap (λ (f : String → Option LobbyState). f s.tier_id)
                  (clear_players-lobbies _ s.players)
                ∙ (save_current later (marked s game) s.version current).1)))
    ]

-- Two replicas tick the same expired countdown: the other one's write goes through and launches,
-- and after it this one's write goes through too, and launches the lobby a second time.
pub tick_launches_twice :
    (env : Surroundings) (tier : RoomTier) (n other_now : ℕ) (st : LobbyStore)
    → (load st tier.id).tier_id ≡ tier.id
    → (reduce_lobby (load st tier.id) tick tier other_now).should_launch ≡ true
    → (reduce_lobby (load st tier.id) tick tier (env.clock n)).should_launch ≡ true
    → env.gap n st
      ≡ (save st
          (reduce_lobby (load st tier.id) tick tier other_now).state
          (load st tier.id).version).0
    → ((save st
          (reduce_lobby (load st tier.id) tick tier other_now).state
          (load st tier.id).version).1
        ≡ true)
      × (has_launched (apply env tier tick (suc n) st).0 ≡ true)
unfolding finish
tick_launches_twice env tier n other_now st id theirs ours gap =
    let s : LobbyState = load st tier.id in
    let r : LobbyTransition = reduce_lobby s tick tier (env.clock n) in
    let mine : LobbyState = r.state in
    let other : LobbyState = (reduce_lobby s tick tier other_now).state in
    let mine_id : mine.tier_id ≡ tier.id = reduce_lobby-tier_id tier s tick (env.clock n) ∙ id in
    let other_id : other.tier_id ≡ tier.id = reduce_lobby-tier_id tier s tick other_now ∙ id in
    let first : save st other s.version ≡ (put st other, true) =
      save_at st other tier.id s.version other_id (stored_version-load st tier.id) in
    let second : save (env.gap n st) mine s.version ≡ (put (put st other) mine, true) =
      rw (gap, first)
        (save_at (put st other) mine tier.id s.version mine_id
          (stored_version-put st other tier.id (sym other_id) ∙ tick-version tier s other_now)) in
    let changes = tick_launch_changes tier s (env.clock n) ours in
    (
      ap (λ (w : LobbyStore × Bool). w.1) first,
      rw (apply_won env tier tick n st _ r refl changes.0 changes.1 second) (rw (ours, finish)),
    )

reset_clears :
    (env : Surroundings) (tier : RoomTier) (n : ℕ) (st : LobbyStore)
    → clear_returned (apply env tier reset n st) ≡ apply env tier reset n st
unfolding apply finish clear_returned clear_players
reset_clears env tier zero st = refl
reset_clears env tier (suc n) st =
    let s : LobbyState = load st tier.id in
    let is = reset_returns tier s (env.clock n) in
    let wrote : LobbyStore × Bool = save (env.gap n st) (emptied s) s.version in
    elim (Bool-cases wrote.1) [
      | inl won ↦ rw (apply_won env tier reset n st wrote.0 _ is refl refl (λ i. (wrote.0, won i)))
      | inr lost ↦
          rw (apply_lost env tier reset n st _ is refl refl lost) (reset_clears env tier n _)
    ]

-- `reset` clears the index of nobody: the roster that it goes through is the emptied one.
pub reset_clears_nobody :
    (env : Surroundings) (tier_id : String) (st : LobbyStore)
    → reset_lobby env tier_id st ≡ apply_to env tier_id reset st
unfolding reset_lobby apply_to clear_returned
reset_clears_nobody env tier_id st = elim (Option-cases (get_tier tier_id)) [
  | inl unknown ↦ rw (unknown, reset_lobby, apply_to, clear_returned)
  | inr (tier, known) ↦
      rw (known, reset_lobby, apply_to) (reset_clears env tier max_cas_attempts st)
]

str_ne : (a b : String) → a ≢ b → str_eq a b ≡ false
str_ne a b ne = elim (Bool-cases (str_eq a b)) [
  | inl same ↦ absurd (ne ((eq_iff a b).0 same))
  | inr other ↦ other
]

abbrev pub IsSeated : ℕ → Option LobbyState → Type 0
IsSeated id none = ⊥
IsSeated id (some s) = in_roster id s.players ≡ true

-- The leave of a player who is seated in a launching lobby is refused, and the join goes on.
join_while_launching_enters :
    (leaving env : Surroundings) (tier_id other : String) (other_tier : RoomTier) (id : ℕ)
    (nickname wallet : String) (st : LobbyStore) (s : LobbyState)
    → st.player_index id ≡ some other
    → other ≢ tier_id
    → get_tier other ≡ some other_tier
    → st.lobbies other ≡ some s
    → s.status ≡ launching
    → in_roster id s.players ≡ true
    → join_lobby leaving env tier_id id nickname wallet st
      ≡ enter_lobby env tier_id id nickname wallet st
unfolding join_lobby leave_lobby apply_to apply after_leaving index_unless_refused max_cas_attempts
join_while_launching_enters leaving env tier_id other other_tier id nickname wallet st s e ne known
      stored l h =
    let distinct : str_eq other tier_id ≡ false = str_ne other tier_id ne in
    let here : load st other_tier.id ≡ s =
      load-stored st other_tier.id s
        (ap st.lobbies (get_tier-same other other_tier known) ∙ stored) in
    let refused : (reduce_lobby (load st other_tier.id) (leave id) other_tier
          (leaving.clock 4)).rejected
        ≡ some lobby_launching =
      rw here (leave_launching other_tier s id (leaving.clock 4) l h) in
    let left : leave_lobby leaving other id st
        ≡ (done (load st other_tier.id) (some lobby_launching) false, st) =
      rw (known, leave_lobby, apply_to) (rw (refused, apply)) in
    rw (e, join_lobby) (rw (distinct) (rw left))

-- A join that is accepted, changes the lobby and launches nothing is written at the first attempt when
-- nobody else writes in between.
enter_lobby-written :
    (env : Surroundings) (tier_id : String) (tier : RoomTier) (id : ℕ) (nickname wallet : String)
    (st : LobbyStore) (r : LobbyTransition)
    → get_tier tier_id ≡ some tier
    → (load st tier.id).tier_id ≡ tier.id
    → env.gap 4 st ≡ st
    → reduce_lobby (load st tier.id) (join id nickname wallet) tier (env.clock 4) ≡ r
    → r.rejected ≡ none
    → r.changed ≡ true
    → r.should_launch ≡ false
    → enter_lobby env tier_id id nickname wallet st
      ≡ (done r.state none false, set_player_lobby (put st r.state) id (some tier_id))
unfolding enter_lobby apply_to index_unless_refused max_cas_attempts finish set_player_lobby
enter_lobby-written env tier_id tier id nickname wallet st r known stored quiet is accepted new
      stays =
    let named : r.state.tier_id ≡ tier.id =
      ap (λ (t : LobbyTransition). t.state.tier_id) (sym is)
      ∙ reduce_lobby-tier_id tier (load st tier.id) (join id nickname wallet) (env.clock 4)
      ∙ stored in
    let wrote : save (env.gap 4 st) r.state (load st tier.id).version ≡ (put st r.state, true) =
      rw quiet (
        save_at st r.state tier.id (load st tier.id).version named
          (stored_version-load st tier.id)) in
    let applied : apply env tier (join id nickname wallet) 5 st
        ≡ finish env tier r.state false (put st r.state) =
      apply_won env tier (join id nickname wallet) 4 st (put st r.state) r is accepted new wrote
      ∙ ap (λ b. finish env tier r.state b (put st r.state)) stays in
    let applied_to : apply_to env tier_id (join id nickname wallet) st
        ≡ (done r.state none false, put st r.state) =
      rw (known, apply_to) applied in
    ap (index_unless_refused id (some tier_id)) applied_to

-- A player who is seated in a launching lobby, which the index names, can join another. When the stored
-- lobby to join carries its tier's name, its reducer accepts and seats the player, changes that lobby and
-- launches nothing, and nobody else writes in between, the join is reported as done and written, the index
-- names the new lobby, and the launching lobby, which is launched with the player, stays as it was: the
-- player is then seated in both.
pub join_while_launching :
    (leaving env : Surroundings) (tier_id other : String) (tier other_tier : RoomTier) (id : ℕ)
    (nickname wallet : String) (st : LobbyStore) (s : LobbyState) (r : LobbyTransition)
    → st.player_index id ≡ some other
    → other ≢ tier_id
    → get_tier other ≡ some other_tier
    → st.lobbies other ≡ some s
    → s.status ≡ launching
    → in_roster id s.players ≡ true
    → get_tier tier_id ≡ some tier
    → (load st tier.id).tier_id ≡ tier.id
    → env.gap 4 st ≡ st
    → reduce_lobby (load st tier.id) (join id nickname wallet) tier (env.clock 4) ≡ r
    → r.rejected ≡ none
    → r.changed ≡ true
    → r.should_launch ≡ false
    → in_roster id r.state.players ≡ true
    → ((join_lobby leaving env tier_id id nickname wallet st).0 ≡ done r.state none false)
      × ((join_lobby leaving env tier_id id nickname wallet st).1.player_index id ≡ some tier_id)
      × (IsSeated id ((join_lobby leaving env tier_id id nickname wallet st).1.lobbies tier_id))
      × ((join_lobby leaving env tier_id id nickname wallet st).1.lobbies other ≡ some s)
      × (IsSeated id ((join_lobby leaving env tier_id id nickname wallet st).1.lobbies other))
unfolding set_player_lobby
join_while_launching leaving env tier_id other tier other_tier id nickname wallet st s r e ne
      other_known stored l h known named quiet is accepted new stays seated =
    let done_so =
      join_while_launching_enters leaving env tier_id other other_tier id nickname wallet st s e ne
        other_known stored l h
      ∙ enter_lobby-written env tier_id tier id nickname wallet st r known named quiet is accepted
          new stays in
    let here : r.state.tier_id ≡ tier_id =
      ap (λ (t : LobbyTransition). t.state.tier_id) (sym is)
      ∙ reduce_lobby-tier_id tier (load st tier.id) (join id nickname wallet) (env.clock 4)
      ∙ named
      ∙ get_tier-same tier_id tier known in
    let new_lobby : str_eq tier_id r.state.tier_id ≡ true =
      ap (str_eq tier_id) here ∙ str_refl tier_id in
    let old_lobby : str_eq other r.state.tier_id ≡ false =
      ap (str_eq other) here ∙ str_ne other tier_id ne in
    rw done_so (
      refl,
      rw (==_refl id) refl,
      rw new_lobby seated,
      rw old_lobby stored,
      rw (old_lobby, stored) h,
    )
