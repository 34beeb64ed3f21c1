-- ===== src/Settling/Fair.antt =====
-- What a run of the pipeline leaves (apps/worker/src/settlement/settle.ts).
use solana_snake_arena.Base.{ℕ, ◌≡◌, ◌⊎◌, refl, sym, Option, some, inl, inr, subst}
use solana_snake_arena.Ledger.{LedgerError, Books, Attempt, ok, fail, Ensures}
use solana_snake_arena.Ledger.Accounts.{DistinctIds}
use solana_snake_arena.Ledger.Refund.{confirmed}
use solana_snake_arena.Settling.Books.{post_settlement_ledger}
use solana_snake_arena.Settling.Conserves.{Conserved, post_settlement_ledger-Conserved}
use solana_snake_arena.Settling.World.{GameRow, World, Chain, settled, Run, returned, threw}
use solana_snake_arena.Settling.Pipeline.{
  book, Plan, plan_for, note_pot, persist, mark_pending, settle_row, settle_game, finish_game,
  with_leaderboard, with_rewards,
}
use solana_snake_arena.Settling.Ends.{Justified, Ends, settle_row_ends, note_pot-books}

Attempt-cases {ℓ} :
    {A : Type ℓ} (m : Attempt A) → ((a : A) × (m ≡ ok a)) ⊎ ((e : LedgerError) × (m ≡ fail e))
Attempt-cases (ok a) = inl (a, refl)
Attempt-cases (fail e) = inr (e, refl)

-- A predicate of a run that books a plan, by what the posting does.
pub book_ends :
    (P : Run → Type 0) (chain : Chain) (plan : Plan) (signature : Option ℕ) (w : World)
    → ((books : Books)
        → post_settlement_ledger plan.game.id plan.payouts plan.rake w.books ≡ ok books
        → P (
            returned (settled plan.winner plan.prize_pool plan.rake signature) (
              finish_game confirmed signature (
                with_leaderboard chain plan.standings
                  (record (with_rewards plan.game.id plan.payouts plan.rake w) {
                    books = books;
                  })))))
    → P (threw (with_rewards plan.game.id plan.payouts plan.rake w))
    → P (book chain plan signature w)
unfolding book
book_ends P chain plan signature w k thrown =
    elim (Attempt-cases (post_settlement_ledger plan.game.id plan.payouts plan.rake w.books)) [
      | inl (books, posted) ↦ rw (posted, book) (k books posted)
      | inr (e, lost) ↦ rw (lost, book) thrown
    ]

-- Money in the books moves only in a run that settles for a reason, and there it is conserved.
abbrev pub Safe : Chain → GameRow → Books → Run → Type 0
Safe chain g b (returned (settled winner prize rake signature) v) =
    Justified chain g winner × Conserved b v.books
Safe chain g b (returned _ v) = v.books ≡ b
Safe chain g b (threw v) = v.books ≡ b

Ensures-ok {ℓ κ} :
    {A : Type ℓ} (P : A → Type κ) (m : Attempt A) (a : A) → Ensures P m → m ≡ ok a → P a
Ensures-ok P m a h e = subst (Ensures P) e h

-- A posting within a run whose books are those at its start.
posted_conserves :
    (plan : Plan) (b start books : Books)
    → DistinctIds start.accounts
    → b ≡ start
    → post_settlement_ledger plan.game.id plan.payouts plan.rake b ≡ ok books
    → Conserved start books
posted_conserves plan b start books d same posted =
    Ensures-ok (Conserved start) (post_settlement_ledger plan.game.id plan.payouts plan.rake start)
      books (post_settlement_ledger-Conserved plan.game.id plan.payouts plan.rake start d)
      (subst
        (λ (x : Books). post_settlement_ledger plan.game.id plan.payouts plan.rake x ≡ ok books)
        same posted)

Safe-Ends :
    (chain : Chain) (g : GameRow) (w : World)
    → DistinctIds w.books.accounts
    → Ends (Safe chain g w.books) chain g w
Safe-Ends chain g w d = record {
  idle = record { rejects = λ reason v same. same; throws = λ v same. same };
  unreported = refl;
  again = λ paid. refl;
  emptied = λ standings. refl;
  free = λ winner standings why v same.
      (why, subst (λ (x : Books). Conserved w.books x) (sym same) (d, refl, refl));
  booked = λ verified winner why whole signature backed.
      let same = note_pot-books chain g (persist verified.standings w) in
      book_ends (Safe chain g w.books) chain (plan_for chain g verified winner) signature
        (mark_pending (note_pot chain g (persist verified.standings w)))
        (λ books posted. (
          why,
          posted_conserves (plan_for chain g verified winner)
              (note_pot chain g (persist verified.standings w)).books w.books books d same posted,
        ))
        same;
}

pub game_found :
    (P : Run → Type 0) (chain : Chain) (g : GameRow) (w : World)
    → w.game ≡ some g
    → P (settle_row chain g w)
    → P (settle_game chain w)
unfolding settle_game
game_found P chain g w found h = rw (found, settle_game) h

-- Whatever Redis and the chain answer, settling a game moves money in the books only if the game is
-- neither paid nor cancelled and the report stored for it passed verification and names the winner,
-- and then the sum of all balances and the net of all entries are as before; on every other outcome,
-- and when the run throws, the books are as they were. Account identifiers are distinct.
pub settle_game-Safe :
    (chain : Chain) (g : GameRow) (w : World)
    → w.game ≡ some g
    → DistinctIds w.books.accounts
    → Safe chain g w.books (settle_game chain w)
settle_game-Safe chain g w found d =
    game_found (Safe chain g w.books) chain g w found
      (settle_row_ends (Safe chain g w.books) chain g w (Safe-Ends chain g w d))
