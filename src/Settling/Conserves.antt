-- ===== src/Settling/Conserves.antt =====
-- The books while a match is settled (apps/worker/src/settlement/settle.ts).
use solana_snake_arena.Base.{
  ℕ, ◌≡◌, refl, not, some, List, [], ◌∷◌, inl, inr, Bool-cases, Option-cases,
}
use solana_snake_arena.Base.Int.{ℤ, pos, ◌+ℤ◌, ◌-ℤ◌, ltb_ℤ, int_laws}
use solana_snake_arena.Ledger.{
  PoolAccount, Posting, Books, ◌>>=◌, Ensures, find_owner, find_account, update_account,
  set_balance, move_and_post, total_balance, net, signed,
}
use solana_snake_arena.Ledger.Accounts.{DistinctIds, find_account-of_owner, find_account-of_found}
use solana_snake_arena.Ledger.Transfer.{
  Ensures-bind, Moving, Moved, move_and_post-Moving_at, Closed, Moving-Closed,
}
use solana_snake_arena.Settlement.Payout.{PayoutShare}
use solana_snake_arena.Settling.Books.{
  escrow_named, system_named, find_escrow_named, find_system, already_posted_for, payout_debit,
  payout_credit, rake_debit, rake_credit, Emptying, pay_account, pay_share, pay_shares, pay_rake,
  close_escrow, empty_escrow, post_settlement_ledger,
}

abbrev Halfway : PoolAccount → Books → Emptying → Type 0
Halfway escrow b s =
    Moving escrow (total_balance b.accounts) (net b.postings) s.accounts s.postings s.escrow_balance

paid_flow : (b l e : ℤ) → (b +ℤ l) +ℤ (e -ℤ l) ≡ b +ℤ e
paid_flow b l e = omega int_laws

paid_even : (l : ℤ) → l +ℤ (pos 0 -ℤ l) ≡ pos 0
paid_even l = omega int_laws

pay_account-Halfway :
    (escrow account : PoolAccount) (lamports : ℤ) (first second : Posting) (b : Books)
    (s : Emptying)
    → Halfway escrow b s
    → find_account account.id s.accounts ≡ some account
    → signed second +ℤ signed first ≡ pos 0
    → Ensures (Halfway escrow b) (pay_account account lamports first second s)
pay_account-Halfway escrow account lamports first second b s h there even =
    Ensures-bind
      (Moved escrow (total_balance b.accounts) (net b.postings) s.accounts
        (s.escrow_balance -ℤ lamports))
      (Halfway escrow b)
      (move_and_post account (set_balance (account.balance +ℤ lamports)) first second s.accounts
        s.postings)
      _
      (move_and_post-Moving_at (set_balance (account.balance +ℤ lamports)) (λ a. refl) (λ a. refl)
        escrow (total_balance b.accounts) (net b.postings) account s.accounts s.postings
        s.escrow_balance (s.escrow_balance -ℤ lamports) first second h there
        (paid_flow account.balance lamports s.escrow_balance) even)
      (λ r m. m.moving)

pay_share-Halfway :
    (game : ℕ) (escrow : PoolAccount) (share : PayoutShare) (b : Books) (s : Emptying)
    → Halfway escrow b s
    → Ensures (Halfway escrow b) (pay_share game escrow share s)
pay_share-Halfway game escrow share b s h =
    elim (Option-cases (find_owner share.player_id s.accounts)) [
      | inl absent ↦ rw (absent, pay_share) h
      | inr (custody, mine) ↦
          rw (mine, pay_share)
            (pay_account-Halfway escrow custody share.lamports
              (payout_debit game share escrow (s.escrow_balance -ℤ share.lamports))
              (payout_credit game share custody) b s h
              (find_account-of_owner share.player_id s.accounts custody h.distinct mine)
              (paid_even share.lamports))
    ]

pay_shares-Halfway :
    (game : ℕ) (escrow : PoolAccount) (shares : List PayoutShare) (b : Books) (s : Emptying)
    → Halfway escrow b s
    → Ensures (Halfway escrow b) (pay_shares game escrow shares s)
unfolding pay_shares
pay_shares-Halfway game escrow [] b s h = h
pay_shares-Halfway game escrow (share ∷ shares) b s h =
    Ensures-bind (Halfway escrow b) (Halfway escrow b) (pay_share game escrow share s)
      (pay_shares game escrow shares) (pay_share-Halfway game escrow share b s h)
      (λ t k. pay_shares-Halfway game escrow shares b t k)

pay_rake-Halfway :
    (game : ℕ) (escrow : PoolAccount) (rake : ℤ) (b : Books) (s : Emptying)
    → Halfway escrow b s
    → Ensures (Halfway escrow b) (pay_rake game escrow rake s)
unfolding find_system
pay_rake-Halfway game escrow rake b s h = elim (Bool-cases (not (ltb_ℤ (pos 0) rake))) [
  | inl free ↦ rw (free, pay_rake) h
  | inr charged ↦ elim (Option-cases (find_system "rake" s.accounts)) [
    | inl absent ↦ rw (charged, pay_rake) (rw absent h)
    | inr (account, found) ↦
        rw (charged, pay_rake)
          (rw found (
            pay_account-Halfway escrow account rake
              (rake_debit game rake escrow (s.escrow_balance -ℤ rake))
              (rake_credit game rake account) b s h
              (find_account-of_found (system_named "rake") s.accounts account h.distinct found)
              (paid_even rake)))
  ]
]

-- The books agree as they did: the sum of all balances and the sum of the entries are unchanged.
abbrev pub Conserved : Books → Books → Type 0
Conserved b c =
    DistinctIds c.accounts
    × (total_balance c.accounts ≡ total_balance b.accounts)
    × (net c.postings ≡ net b.postings)

empty_escrow-Conserved :
    (game : ℕ) (escrow : PoolAccount) (payouts : List PayoutShare) (rake : ℤ) (b : Books)
    → DistinctIds b.accounts
    → find_account escrow.id b.accounts ≡ some escrow
    → Ensures (Conserved b) (empty_escrow game escrow payouts rake b)
unfolding empty_escrow
empty_escrow-Conserved game escrow payouts rake b distinct there =
    let start : Emptying = record {
      accounts = b.accounts;
      postings = b.postings;
      escrow_balance = escrow.balance;
    } in
    Ensures-bind (Halfway escrow b) (Conserved b)
      (pay_shares game escrow payouts start >>= pay_rake game escrow rake) (close_escrow escrow b)
      (Ensures-bind (Halfway escrow b) (Halfway escrow b) (pay_shares game escrow payouts start)
        (pay_rake game escrow rake)
        (pay_shares-Halfway game escrow payouts b start (record {
          distinct = distinct;
          pristine = rw there (inl refl);
          books = refl;
          legs = refl;
        }))
        (λ s h. pay_rake-Halfway game escrow rake b s h))
      (λ s h.
        Ensures-bind (Closed escrow (total_balance b.accounts) s.escrow_balance) (Conserved b)
          (update_account escrow.id escrow.version (set_balance s.escrow_balance) s.accounts) _
          (Moving-Closed escrow (total_balance b.accounts) (net b.postings) s.accounts s.postings
            s.escrow_balance h)
          (λ rows c. (c.0, c.2, h.legs)))

-- Posting a settlement, when it commits, changes neither the sum of all balances nor the net of all
-- entries, account identifiers being distinct, whoever is paid, whether or not the winners and the
-- platform have an account, and whether or not it was posted before.
pub post_settlement_ledger-Conserved :
    (game : ℕ) (payouts : List PayoutShare) (rake : ℤ) (b : Books)
    → DistinctIds b.accounts
    → Ensures (Conserved b) (post_settlement_ledger game payouts rake b)
unfolding post_settlement_ledger find_escrow_named
post_settlement_ledger-Conserved game payouts rake b distinct =
    elim (Option-cases (find_escrow_named game b.accounts)) [
      | inl absent ↦ rw (absent, post_settlement_ledger) (distinct, refl, refl)
      | inr (escrow, found) ↦ elim (Bool-cases (already_posted_for game b.postings)) [
        | inl before ↦ rw (found, post_settlement_ledger) (rw before (distinct, refl, refl))
        | inr first ↦
            rw (found, post_settlement_ledger)
              (rw first (
                empty_escrow-Conserved game escrow payouts rake b distinct
                  (find_account-of_found (escrow_named game) b.accounts escrow distinct found)))
      ]
    ]
