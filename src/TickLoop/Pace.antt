-- ===== src/TickLoop/Pace.antt =====
-- How a node's loop keeps its pace (apps/realtime/src/rooms/room-manager.ts).
use solana_snake_arena.Base.{
  ℕ, zero, suc, ◌+◌, ◌-◌, ◌*◌, ◌/◌, ◌≤◌, ◌<◌, ◌≡◌, refl, sym, ap, ◌∙◌, Bool, not, Bool-cases, inl,
  inr, List, [], ◌∷◌, map, ltb, if◌then◌else◌, arith,
}
use solana_snake_arena.TickLoop.{Loop, due_steps, max_steps, run_steps, run_tick, tick_interval}

-- A function, so many times over.
unfoldable pub times : {A : Type 0} → ℕ → (A → A) → A → A
times zero f a = a
times (suc n) f a = times n f (f a)

-- The steps that a tick is to run, and the deadline they are counted from: those due, or five from
-- now when the loop is five intervals behind.
abbrev pub in_reach : ℕ → ℕ → Bool
in_reach now next_tick_at = ltb now (next_tick_at + max_steps * tick_interval)

abbrev pub steps_run : ℕ → ℕ → ℕ
steps_run now next_tick_at =
    if in_reach now next_tick_at then 1 + (now - next_tick_at) / tick_interval else max_steps

abbrev pub counted_from : ℕ → ℕ → ℕ
counted_from now next_tick_at = if in_reach now next_tick_at then next_tick_at else now

due_steps_due :
    (now next_tick_at : ℕ)
    → next_tick_at ≤ now
    → due_steps now next_tick_at ≡ 1 + (now - next_tick_at) / tick_interval
unfolding due_steps
due_steps_due now next_tick_at due = ground arith

-- The cap is met exactly out of reach.
capped :
    (now next_tick_at : ℕ)
    → next_tick_at ≤ now
    → ltb max_steps (1 + (now - next_tick_at) / tick_interval) ≡ not (in_reach now next_tick_at)
capped now next_tick_at due = ground arith

deadline_ahead :
    (now next_tick_at : ℕ)
    → next_tick_at ≤ now
    → (now < counted_from now next_tick_at + steps_run now next_tick_at * tick_interval)
      × (counted_from now next_tick_at + steps_run now next_tick_at * tick_interval
          ≤ now + (if in_reach now next_tick_at then 1 else max_steps) * tick_interval)
deadline_ahead now next_tick_at due = (ground arith, ground arith)

map-id : {A : Type 0} → (xs : List A) → map (λ x. x) xs ≡ xs
map-id [] = refl
map-id (x ∷ xs) = ap (λ ys. x ∷ ys) (map-id xs)

map-map : {A : Type 0} → (f g : A → A) (xs : List A) → map f (map g xs) ≡ map (λ x. f (g x)) xs
map-map f g [] = refl
map-map f g (x ∷ xs) = ap (λ ys. f (g x) ∷ ys) (map-map f g xs)

module _ {Room : Type 0} (tick : ℕ → Room → Room) where
  run_steps_rooms :
      (now steps : ℕ) (loop : Loop Room)
      → (run_steps tick now steps loop).rooms ≡ map (times steps (tick now)) loop.rooms
  unfolding run_steps times
  run_steps_rooms now zero loop = sym (map-id loop.rooms)
  run_steps_rooms now (suc steps) loop =
      run_steps_rooms now steps _ ∙ map-map (times steps (tick now)) (tick now) loop.rooms

  run_steps_deadline :
      (now steps : ℕ) (loop : Loop Room)
      → (run_steps tick now steps loop).next_tick_at ≡ loop.next_tick_at + steps * tick_interval
  unfolding run_steps
  run_steps_deadline now zero loop = omega arith
  run_steps_deadline now (suc steps) loop =
      let rest = run_steps_deadline now steps (record {
        next_tick_at = loop.next_tick_at + tick_interval;
        rooms = map (tick now) loop.rooms;
      }) in
      omega arith

  run_tick_counted :
      (now : ℕ) (loop : Loop Room)
      → loop.next_tick_at ≤ now
      → run_tick tick now loop
        ≡ run_steps tick now
            (steps_run now loop.next_tick_at)
            (record loop { next_tick_at = counted_from now loop.next_tick_at })
  unfolding run_tick
  run_tick_counted now loop due =
      rw (due_steps_due now loop.next_tick_at due, capped now loop.next_tick_at due)
        (elim (Bool-cases (in_reach now loop.next_tick_at)) [
          | inl reach ↦ rw (reach) refl
          | inr behind ↦ rw (behind) refl
        ])

  -- A timer that is not early ticks every room equally often, at most five times and as often as
  -- intervals have begun since the deadline. The new deadline lies in the future: within one interval
  -- when fewer than five have passed, and that many intervals after the old one; otherwise the deadline
  -- is five intervals from now.
  pub run_tick_paced :
      (now : ℕ) (loop : Loop Room)
      → loop.next_tick_at ≤ now
      → ((run_tick tick now loop).rooms
          ≡ map (times (steps_run now loop.next_tick_at) (tick now)) loop.rooms)
        × (now < (run_tick tick now loop).next_tick_at)
        × ((run_tick tick now loop).next_tick_at
            ≤ now + (if in_reach now loop.next_tick_at then 1 else max_steps) * tick_interval)
        × ((run_tick tick now loop).next_tick_at
            ≡ counted_from now loop.next_tick_at + steps_run now loop.next_tick_at * tick_interval)
  run_tick_paced now loop due =
      let counted = run_tick_counted now loop due in
      let start = record loop { next_tick_at = counted_from now loop.next_tick_at } in
      let deadline = run_steps_deadline now (steps_run now loop.next_tick_at) start in
      let ahead = deadline_ahead now loop.next_tick_at due in
      rw (counted) (
        run_steps_rooms now (steps_run now loop.next_tick_at) start,
        rw (deadline) ahead.0,
        rw (deadline) ahead.1,
        deadline,
      )
