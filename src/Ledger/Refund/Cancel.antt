-- ===== src/Ledger/Refund/Cancel.antt =====
-- `cancelGameAndRefund` (packages/db/src/refund.ts) as a whole: the books, the refusals, and whom it
-- repays.
use solana_snake_arena.Base.{
  ℕ, ◌≡◌, refl, inl, inr, Bool, true, not, ◌&&◌, ◌||◌, Option, none, some, List, [], ◌∷◌, arith,
  Option-cases, any, length, every, is_some,
}
use solana_snake_arena.Base.Int.{ℤ, pos, ◌+ℤ◌, leb_ℤ}
use solana_snake_arena.Ledger.{
  PoolAccount, Books, Attempt, fail, Ensures, throw_if, find_account, total_balance, net,
  already_settled,
}
use solana_snake_arena.Ledger.Accounts.{DistinctIds, balance_of, find_account-of_found}
use solana_snake_arena.Ledger.Transfer.{Ensures-after, Ensures-bind}
use solana_snake_arena.Ledger.Refund.{
  Game, GameBooks, RefundLeg, Staked, CancelGameResult, find_game, find_escrow, of_game,
  is_completed, paid_out, refunded_users, group_stakes, owed_leg, push_leg, owed_legs, owed_from,
  pay_back, finish, refund_from, cancel_open, cancel_row, cancel_game_and_refund, same_option,
}
use solana_snake_arena.Ledger.Refund.Balance.{FreshFrom, Refunded, pay_back-Refunded, plus_zero}

-- What the account that is a game's escrow in `b` holds in `c`.
abbrev pub escrow_holds : ℕ → Books → Books → ℤ
escrow_holds game b c = elim (find_escrow game b.accounts) [
  | none ↦ pos 0
  | some escrow ↦ balance_of escrow.id c.accounts
]

pub record Cancelled (id : ℕ) (s : GameBooks) (r : GameBooks × CancelGameResult) : Type 0 where
  pub distinct : DistinctIds r.0.books.accounts
  pub conserved : total_balance r.0.books.accounts ≡ total_balance s.books.accounts
  pub even : net r.0.books.postings ≡ net s.books.postings
  pub paid :
      escrow_holds id s.books r.0.books +ℤ r.1.total_lamports ≡ escrow_holds id s.books s.books

Cancelled-none :
    (id : ℕ) (s : GameBooks) (games : List Game) (res : CancelGameResult)
    → DistinctIds s.books.accounts
    → res.total_lamports ≡ pos 0
    → Cancelled id s (record { games = games; books = s.books }, res)
Cancelled-none id s games res distinct zero = record {
  distinct = distinct;
  conserved = refl;
  even = refl;
  paid = rw zero (plus_zero (escrow_holds id s.books s.books));
}

Cancelled-Refunded :
    (id : ℕ) (s : GameBooks) (games : List Game) (res : CancelGameResult) (escrow : PoolAccount)
    (c : Books)
    → find_escrow id s.books.accounts ≡ some escrow
    → find_account escrow.id s.books.accounts ≡ some escrow
    → Refunded escrow s.books res.total_lamports c
    → Cancelled id s (record { games = games; books = c }, res)
Cancelled-Refunded id s games res escrow c found there h = record {
  distinct = h.distinct;
  conserved = h.conserved;
  even = h.even;
  paid = rw (found, escrow_holds) (rw (there, balance_of) h.paid);
}

finish-Ensures {κ} :
    (P : GameBooks × CancelGameResult → Type κ) (id : ℕ) (game : Game) (at : ℕ)
    (audit : Attempt (Unit {0})) (refunds : List RefundLeg) (total : ℤ) (count : ℕ)
    (games : List Game) (b : Books)
    → P (
      record { games = (cancel_row id game at games).0; books = b },
      record {
        game_id = id;
        was_cancelled = (cancel_row id game at games).1;
        refunds = refunds;
        total_lamports = total;
        already_refunded_count = count;
      },
    )
    → Ensures P (finish id game at audit refunds total count games b)
finish-Ensures P id game at audit refunds total count games b h = Ensures-after P audit _ h

refund_from-Cancelled :
    (id : ℕ) (game : Game) (at : ℕ) (audit : Attempt (Unit {0})) (escrow : PoolAccount)
    (s : GameBooks)
    → DistinctIds s.books.accounts
    → FreshFrom s.books.next_id s.books.accounts
    → find_escrow id s.books.accounts ≡ some escrow
    → find_account escrow.id s.books.accounts ≡ some escrow
    → Ensures (Cancelled id s) (refund_from id game at audit escrow s)
refund_from-Cancelled id game at audit escrow s distinct fresh found there =
    let refunded = refunded_users id escrow.id s.books.postings in
    let owed = owed_legs refunded (group_stakes id escrow.id s.books.postings) in
    Ensures-after (Cancelled id s) (throw_if (paid_out id s.books.postings) (already_settled id)) _
      (Ensures-bind (Refunded escrow s.books (owed_from (pos 0) owed)) (Cancelled id s)
        (pay_back id escrow owed s.books) _
        (pay_back-Refunded id escrow owed s.books distinct fresh there)
        (λ c h.
          finish-Ensures (Cancelled id s) id game at audit owed (owed_from (pos 0) owed)
            (length refunded) s.games c (Cancelled-Refunded id s _ _ escrow c found there h)))

cancel_open-Cancelled :
    (id : ℕ) (game : Game) (at : ℕ) (audit : Attempt (Unit {0})) (s : GameBooks)
    → DistinctIds s.books.accounts
    → FreshFrom s.books.next_id s.books.accounts
    → Ensures (Cancelled id s) (cancel_open id game at audit s)
unfolding find_escrow
cancel_open-Cancelled id game at audit s distinct fresh =
    elim (Option-cases (find_escrow id s.books.accounts)) [
      | inl absent ↦
          rw (absent, cancel_open)
            (finish-Ensures (Cancelled id s) id game at audit [] (pos 0) 0 s.games s.books
              (Cancelled-none id s _ _ distinct refl))
      | inr (escrow, found) ↦
          rw (found, cancel_open)
            (refund_from-Cancelled id game at audit escrow s distinct fresh found
              (find_account-of_found (of_game id) s.books.accounts escrow distinct found))
    ]

-- When a game's cancellation commits, account identifiers being distinct before and those from the
-- next one on not taken: the sum of all balances is what it was, the posted entries still sum to
-- what they did, and the account that was the game's escrow holds less by the total that is
-- returned, also when the caller's audit is any attempt and an account is opened for a player.
pub cancel_game_and_refund-Cancelled :
    (id at : ℕ) (audit : Attempt (Unit {0})) (s : GameBooks)
    → DistinctIds s.books.accounts
    → FreshFrom s.books.next_id s.books.accounts
    → Ensures (Cancelled id s) (cancel_game_and_refund id at audit s)
unfolding cancel_game_and_refund
cancel_game_and_refund-Cancelled id at audit s distinct fresh =
    elim (Option-cases (find_game id s.games)) [
      | inl absent ↦ rw absent tt
      | inr (game, found) ↦ rw found (
          Ensures-after (Cancelled id s) (throw_if (is_completed game.status) (already_settled id))
            _ (cancel_open-Cancelled id game at audit s distinct fresh))
    ]

abbrev pub unpaid : List (Option ℕ) → RefundLeg → Bool
unpaid refunded leg =
    not (any (same_option (some leg.user)) refunded) && not (leb_ℤ leg.lamports (pos 0))

owed_leg-unpaid :
    (refunded : List (Option ℕ)) (g : Staked) (legs : List RefundLeg)
    → every (unpaid refunded) legs ≡ true
    → every (unpaid refunded) (push_leg (owed_leg refunded g) legs) ≡ true
owed_leg-unpaid refunded g legs h = ground arith

-- Whoever already has a refund entry, and whoever staked nothing, is not owed anything: a repeated
-- cancellation pays nobody twice, whatever the groups of stakes are.
pub owed_legs-unpaid :
    (refunded : List (Option ℕ)) (gs : List Staked)
    → every (unpaid refunded) (owed_legs refunded gs) ≡ true
unfolding owed_legs
owed_legs-unpaid refunded [] = refl
owed_legs-unpaid refunded (g ∷ gs) =
    owed_leg-unpaid refunded g (owed_legs refunded gs) (owed_legs-unpaid refunded gs)

-- A game that is over, or that has been paid out from its escrow, is refused before anything moves.
pub cancel_game_and_refund_settled :
    (id at : ℕ) (audit : Attempt (Unit {0})) (s : GameBooks) (game : Game)
    → find_game id s.games ≡ some game
    → (is_completed game.status
        || (is_some (find_escrow id s.books.accounts) && paid_out id s.books.postings))
      ≡ true
    → cancel_game_and_refund id at audit s ≡ fail (already_settled id)
unfolding cancel_game_and_refund
cancel_game_and_refund_settled id at audit s game found settled = ground arith
