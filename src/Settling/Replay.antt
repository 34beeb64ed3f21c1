-- ===== src/Settling/Replay.antt =====
-- Settling a game again (apps/worker/src/settlement/settle.ts).
use solana_snake_arena.Base.{
  ℕ, ◌≡◌, ◌⊎◌, refl, sym, ap, ◌∙◌, true, ◌&&◌, ◌==◌, ltb, Option, none, some, List, inl, inr,
  if_elim, arith, ◌≤◌,
}
use solana_snake_arena.Base.Int.{pos, ◌+ℤ◌}
use solana_snake_arena.Ledger.{Books}
use solana_snake_arena.Ledger.Refund.{confirmed}
use solana_snake_arena.Settlement.Standing.{ReportedStanding}
use solana_snake_arena.Settlement.Payout.Shares.{split_pot_exact}
use solana_snake_arena.Settling.World.{
  GameRow, World, Chain, settled, already_settled, Run, returned, threw,
}
use solana_snake_arena.Settling.Pipeline.{
  is_confirmed, Plan, plan_for, note_pot, pot_of, persist, mark_pending, update_game, or_zero,
  persist_row, pending_row, finish_row, reward_row, settle_row, settle_game, finish_game,
  with_leaderboard, with_rewards,
}
use solana_snake_arena.Settling.Ends.{Ends, settle_row_ends}
use solana_snake_arena.Settling.Fair.{book_ends, game_found}

-- Settling the world again pays nothing and changes nothing.
abbrev pub IsClosed : World → Type 0
IsClosed v = (chain : Chain) → settle_game chain v ≡ returned already_settled v

update_game_found :
    (f : GameRow → GameRow) (w : World) (g : GameRow)
    → w.game ≡ some g
    → (update_game f w).game ≡ some (f g)
update_game_found f w g found = rw found refl

confirmed-IsClosed :
    (v : World) (g : GameRow)
    → v.game ≡ some g
    → is_confirmed g.settlement_status ≡ true
    → IsClosed v
unfolding settle_row
confirmed-IsClosed v g found paid chain =
    game_found (λ (r : Run). r ≡ returned already_settled v) chain g v found
      (if_elim (λ (r : Run). r ≡ returned already_settled v) (is_confirmed g.settlement_status)
        (λ again. refl) (λ unpaid. ground arith))

abbrev pub Final : Run → Type 0
Final (returned (settled winner prize rake signature) v) = (prize ≡ pos 0) ⊎ IsClosed v
Final (returned already_settled v) = IsClosed v
Final (returned _ v) = Unit
Final (threw v) = Unit

note_pot-game :
    (chain : Chain) (g h : GameRow) (w : World)
    → w.game ≡ some h
    → h.pot_lamports ≡ g.pot_lamports
    → (k : GameRow) × ((note_pot chain g w).game ≡ some k) × (k.pot_lamports ≡ pot_of chain g)
note_pot-game chain g h w found same =
    if_elim (λ (v : World). (k : GameRow) × (v.game ≡ some k) × (k.pot_lamports ≡ pot_of chain g))
      (g.pot_lamports == 0 && ltb (or_zero chain.rent_floor) (or_zero chain.vault_balance))
      (λ read. (
        record h { pot_lamports = pot_of chain g },
        update_game_found (λ row. record row { pot_lamports = pot_of chain g }) w h found,
        refl,
      ))
      (λ kept. (h, found, ground arith))

-- The row that a run books, before and after.
record Noted (chain : Chain) (g : GameRow) (w : World) (standings : List ReportedStanding)
    : Type 0 where
  row : GameRow
  there : (mark_pending (note_pot chain g (persist standings w))).game ≡ some row
  pot : row.pot_lamports ≡ pot_of chain g

noted :
    (chain : Chain) (g : GameRow) (w : World) (standings : List ReportedStanding)
    → w.game ≡ some g
    → Noted chain g w standings
noted chain g w standings found =
    let h =
      note_pot-game chain g (persist_row standings g) (persist standings w)
        (update_game_found (persist_row standings) w g found) refl in
    record {
      row = pending_row h.0;
      there = update_game_found pending_row (note_pot chain g (persist standings w)) h.0 h.1;
      pot = h.2;
    }

booked_row :
    (chain : Chain) (plan : Plan) (signature : Option ℕ) (books : Books) (w : World) (row : GameRow)
    → w.game ≡ some row
    → (finish_game confirmed signature (
        with_leaderboard chain plan.standings
          (record (with_rewards plan.game.id plan.payouts plan.rake w) { books = books }))).game
      ≡ some (finish_row confirmed signature (reward_row plan.payouts plan.rake row))
booked_row chain plan signature books w row found =
    update_game_found (finish_row confirmed signature)
      (with_rewards plan.game.id plan.payouts plan.rake w) (reward_row plan.payouts plan.rake row)
      (update_game_found (reward_row plan.payouts plan.rake) w row found)

Final-Ends : (chain : Chain) (g : GameRow) (w : World) → w.game ≡ some g → Ends Final chain g w
Final-Ends chain g w found = record {
  idle = record { rejects = λ reason v same. tt; throws = λ v same. tt };
  unreported = tt;
  again = λ paid. confirmed-IsClosed w g found paid;
  emptied = λ standings.
      confirmed-IsClosed (finish_game confirmed none (persist standings w))
        (finish_row confirmed none (persist_row standings g))
        (update_game_found (finish_row confirmed none) (persist standings w)
          (persist_row standings g) (update_game_found (persist_row standings) w g found))
        refl;
  free = λ winner standings why v same. inl refl;
  booked = λ verified winner why whole signature backed.
      let n = noted chain g w verified.standings found in
      let plan = plan_for chain g verified winner in
      let started = mark_pending (note_pot chain g (persist verified.standings w)) in
      book_ends Final chain plan signature started
        (λ books posted. inr (
          confirmed-IsClosed
            (finish_game confirmed signature (
              with_leaderboard chain plan.standings
                (record (with_rewards plan.game.id plan.payouts plan.rake started) {
                  books = books;
                })))
            (finish_row confirmed signature (reward_row plan.payouts plan.rake n.row))
            (booked_row chain plan signature books started n.row n.there) refl))
        tt;
}

-- A settlement that paid a prize, and one that found the money gone, leave the game closed: whatever
-- the chain and Redis answer then, settling it again reports it as settled and changes nothing.
pub settle_game-Final :
    (chain : Chain) (g : GameRow) (w : World) → w.game ≡ some g → Final (settle_game chain w)
settle_game-Final chain g w found =
    game_found Final chain g w found (settle_row_ends Final chain g w (Final-Ends chain g w found))

-- The books of the game's row add up.
abbrev pub Accounted : Run → Type 0
Accounted (returned (settled winner prize rake signature) v) =
    (prize ≡ pos 0)
    ⊎ ((k : GameRow) × (v.game ≡ some k)
        × (k.payout_lamports ≡ prize)
        × (k.rake_lamports ≡ rake)
        × (prize +ℤ rake ≡ pos k.pot_lamports))
Accounted (returned _ v) = Unit
Accounted (threw v) = Unit

Accounted-Ends :
    (chain : Chain) (g : GameRow) (w : World)
    → w.game ≡ some g
    → g.rake_bps ≤ 10_000
    → Ends Accounted chain g w
Accounted-Ends chain g w found most = record {
  idle = record { rejects = λ reason v same. tt; throws = λ v same. tt };
  unreported = tt;
  again = λ paid. tt;
  emptied = λ standings. tt;
  free = λ winner standings why v same. inl refl;
  booked = λ verified winner why whole signature backed.
      let n = noted chain g w verified.standings found in
      let plan = plan_for chain g verified winner in
      let started = mark_pending (note_pot chain g (persist verified.standings w)) in
      book_ends Accounted chain plan signature started
        (λ books posted. inr (
          finish_row confirmed signature (reward_row plan.payouts plan.rake n.row),
          booked_row chain plan signature books started n.row n.there,
          whole,
          refl,
          (split_pot_exact (pot_of chain g) g.rake_bps most).1 ∙ ap pos (sym n.pot),
        ))
        tt;
}

-- A settlement that pays a prize, under a rake of at most the whole, leaves on the game's row a payout
-- that is the prize and a rake that is the one it reports, and together they are the pot of that row.
pub settle_game-Accounted :
    (chain : Chain) (g : GameRow) (w : World)
    → w.game ≡ some g
    → g.rake_bps ≤ 10_000
    → Accounted (settle_game chain w)
settle_game-Accounted chain g w found most =
    game_found Accounted chain g w found
      (settle_row_ends Accounted chain g w (Accounted-Ends chain g w found most))
