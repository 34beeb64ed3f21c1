-- ===== src/Ledger/Stake/Consume.antt =====
-- The books while reservations are consumed: the loop of `consumeReservations` in
-- packages/db/src/stake.ts, and the writes after it.
use solana_snake_arena.Base.{
  arith, Option-cases, ℕ, ◌≡◌, refl, sym, ap, ◌∙◌, ◌⊎◌, String, Bool, false, not, Option, some,
  List, [], ◌∷◌, inl, inr, Bool-cases, filter,
}
use solana_snake_arena.Base.Int.{
  ℤ, pos, ◌+ℤ◌, ◌-ℤ◌, ltb_ℤ, int_eq, int_laws, parts_of_eq, int_eq→eq,
}
use solana_snake_arena.Ledger.{
  PoolAccount, Posting, StakeReservation, Books, fail, ◌>>=◌, Ensures, find_owner, find_account,
  update_account, set_balance, set_balances, move_and_post, total_balance, net, stake_mismatch,
  or_throw, row_missing,
}
use solana_snake_arena.Ledger.Accounts.{DistinctIds, balance_of, find_account-id}
use solana_snake_arena.Ledger.Transfer.{
  Ensures-after, Ensures-bind, Moving, Moved, move_and_post-Moving, Closed, Moving-Closed,
}
use solana_snake_arena.Ledger.Stake.{
  less_reserved, stake_debit, stake_credit, Consuming, consume_from, consume_row, consume_rows,
  ConsumeResult, consume_found, consume_into, opening, consume_reservations, reservations_for_tier,
  staked_from, in_tier, mismatch,
}

-- The loop's state, against the tables before it: the escrow's variable has grown by the total.
record Balanced (escrow : PoolAccount) (rows : List PoolAccount) (ps : List Posting) (s : Consuming)
    : Type 0 where
  pub moving : Moving escrow (total_balance rows) (net ps) s.accounts s.postings s.escrow_balance
  pub grown : s.escrow_balance ≡ escrow.balance +ℤ s.total

flow_lem : (b l e : ℤ) → (b -ℤ l) +ℤ (e +ℤ l) ≡ b +ℤ e
flow_lem b l e = omega int_laws

even_lem : (l : ℤ) → l +ℤ (pos 0 -ℤ l) ≡ pos 0
even_lem l = omega int_laws

grown_lem : (e e0 t l : ℤ) → e ≡ e0 +ℤ t → e +ℤ l ≡ e0 +ℤ (t +ℤ l)
grown_lem e e0 t l h = omega (int_laws, parts_of_eq e (e0 +ℤ t) h)

consume_from-Balanced :
    (game : ℕ) (escrow : PoolAccount) (row : StakeReservation) (custody : PoolAccount)
    (rows : List PoolAccount) (ps : List Posting) (s : Consuming)
    → Balanced escrow rows ps s
    → find_owner row.user s.accounts ≡ some custody
    → Ensures (Balanced escrow rows ps) (consume_from game escrow row custody s)
consume_from-Balanced game escrow row custody rows ps s h mine =
    elim (Bool-cases (ltb_ℤ custody.balance row.lamports)) [
      | inl short ↦ rw short tt
      | inr enough ↦ rw enough (
          Ensures-bind
            (Moved escrow (total_balance rows) (net ps) s.accounts
              (s.escrow_balance +ℤ row.lamports))
            _
            (move_and_post custody
              (set_balances (custody.balance -ℤ row.lamports)
                (less_reserved custody.reserved row.lamports))
              (stake_debit game row custody)
              (stake_credit game row escrow (s.escrow_balance +ℤ row.lamports)) s.accounts
              s.postings)
            _
            (move_and_post-Moving
              (set_balances (custody.balance -ℤ row.lamports)
                (less_reserved custody.reserved row.lamports))
              (λ a. refl) (λ a. refl) escrow (total_balance rows) (net ps) row.user custody
              s.accounts s.postings s.escrow_balance (s.escrow_balance +ℤ row.lamports)
              (stake_debit game row custody)
              (stake_credit game row escrow (s.escrow_balance +ℤ row.lamports)) h.moving mine
              (flow_lem custody.balance row.lamports s.escrow_balance) (even_lem row.lamports))
            (λ r mv. record {
              moving = mv.moving;
              grown = grown_lem s.escrow_balance escrow.balance s.total row.lamports h.grown;
            }))
    ]

consume_row-Balanced :
    (game : ℕ) (escrow : PoolAccount) (row : StakeReservation) (rows : List PoolAccount)
    (ps : List Posting) (s : Consuming)
    → Balanced escrow rows ps s
    → Ensures (Balanced escrow rows ps) (consume_row game escrow row s)
consume_row-Balanced game escrow row rows ps s h =
    elim (Option-cases (find_owner row.user s.accounts)) [
      | inl absent ↦ rw (absent, consume_row) h
      | inr (custody, mine) ↦
          rw (mine, consume_row) (consume_from-Balanced game escrow row custody rows ps s h mine)
    ]

consume_rows-Balanced :
    (game : ℕ) (escrow : PoolAccount) (staked : List StakeReservation) (rows : List PoolAccount)
    (ps : List Posting) (s : Consuming)
    → Balanced escrow rows ps s
    → Ensures (Balanced escrow rows ps) (consume_rows game escrow staked s)
unfolding consume_rows
consume_rows-Balanced game escrow [] rows ps s h = h
consume_rows-Balanced game escrow (row ∷ more) rows ps s h =
    Ensures-bind (Balanced escrow rows ps) _ (consume_row game escrow row s)
      (consume_rows game escrow more) (consume_row-Balanced game escrow row rows ps s h)
      (λ t k. consume_rows-Balanced game escrow more rows ps t k)

-- What a committed consumption leaves.
pub record Consumed (tier : String) (escrow_id : ℕ) (b : Books) (r : Books × ConsumeResult)
    : Type 0 where
  pub distinct : DistinctIds r.0.accounts
  pub conserved : total_balance r.0.accounts ≡ total_balance b.accounts
  pub even : net r.0.postings ≡ net b.postings
  pub received :
      balance_of escrow_id r.0.accounts ≡ balance_of escrow_id b.accounts +ℤ r.1.total_lamports
  pub cleared : reservations_for_tier tier r.0.reservations ≡ []

cleared_lem :
    (p : StakeReservation → Bool) (rs : List StakeReservation)
    → filter p (filter (λ r. not (p r)) rs) ≡ []
cleared_lem p [] = refl
cleared_lem p (r ∷ rs) = ground (arith, cleared_lem p rs)

zero_lem : (a : ℤ) → a ≡ a +ℤ pos 0
zero_lem a = omega int_laws

received_lem :
    (id : ℕ) (escrow : PoolAccount) (rows bs : List PoolAccount) (balance total : ℤ)
    → find_account id rows ≡ some escrow
    → find_account id bs ≡ some (set_balance balance escrow)
    → balance ≡ escrow.balance +ℤ total
    → balance_of id bs ≡ balance_of id rows +ℤ total
received_lem id escrow rows bs balance total before after grown =
    rw (before, after, balance_of) grown

consume_into-Consumed :
    (tier : String) (game : ℕ) (escrow : PoolAccount) (staked : List StakeReservation) (b : Books)
    → DistinctIds b.accounts
    → find_account escrow.id b.accounts ≡ some escrow
    → Ensures (Consumed tier escrow.id b) (consume_into tier game escrow staked b)
unfolding reservations_for_tier
consume_into-Consumed tier game escrow staked b distinct there =
    Ensures-bind (Balanced escrow b.accounts b.postings) _
      (consume_rows game escrow staked (opening escrow b)) _
      (consume_rows-Balanced game escrow staked b.accounts b.postings (opening escrow b) (record {
        moving = record {
          distinct = distinct;
          pristine = rw there (inl refl);
          books = refl;
          legs = refl;
        };
        grown = omega int_laws;
      }))
      (λ s h.
        Ensures-bind (Closed escrow (total_balance b.accounts) s.escrow_balance) _
          (update_account escrow.id escrow.version (set_balance s.escrow_balance) s.accounts) _
          (Moving-Closed escrow (total_balance b.accounts) (net b.postings) s.accounts s.postings
            s.escrow_balance h.moving)
          (λ bs c. record {
            distinct = c.0;
            conserved = c.2;
            even = h.moving.legs;
            received =
                received_lem escrow.id escrow b.accounts bs s.escrow_balance s.total there c.1
                  h.grown;
            cleared = cleared_lem (in_tier tier) b.reservations;
          }))

consume_checked :
    (tier : String) (game escrow_id : ℕ) (b : Books) (rows : List StakeReservation)
    → DistinctIds b.accounts
    → Ensures (Consumed tier escrow_id b) (
        or_throw (find_account escrow_id b.accounts) row_missing
        >>= (λ escrow. consume_into tier game escrow rows b))
consume_checked tier game escrow_id b rows distinct =
    elim (Option-cases (find_account escrow_id b.accounts)) [
      | inl absent ↦ rw absent tt
      | inr (escrow, there) ↦
          let e = find_account-id escrow_id b.accounts escrow there in
          rw (there, sym e)
            (consume_into-Consumed tier game escrow rows b distinct
              (ap (λ i. find_account i b.accounts) e ∙ there))
    ]

consume_rest :
    (tier : String) (game escrow_id : ℕ) (b : Books) (rows : List StakeReservation)
    → DistinctIds b.accounts
    → reservations_for_tier tier b.reservations ≡ rows
    → Ensures (Consumed tier escrow_id b) (consume_found tier game escrow_id rows b)
consume_rest tier game escrow_id b [] distinct none_there = record {
  distinct = distinct;
  conserved = refl;
  even = refl;
  received = zero_lem (balance_of escrow_id b.accounts);
  cleared = none_there;
}
consume_rest tier game escrow_id b (row ∷ more) distinct h =
    consume_checked tier game escrow_id b (row ∷ more) distinct

-- When a room's reservations are consumed, whichever of them are there and whatever total is
-- expected, then in what is committed, account identifiers being distinct before: the sum of all
-- balances is what it was, the posted entries still sum to what they did, the escrow account has
-- received the total that is returned, and the room has no reservation left.
pub consume_reservations-Consumed :
    (tier : String) (game escrow_id : ℕ) (expected : Option ℤ) (b : Books)
    → DistinctIds b.accounts
    → Ensures (Consumed tier escrow_id b) (consume_reservations tier game escrow_id expected b)
unfolding consume_reservations
consume_reservations-Consumed tier game escrow_id expected b distinct =
    Ensures-after _
      (mismatch expected (staked_from (pos 0) (reservations_for_tier tier b.reservations))) _
      (consume_rest tier game escrow_id b (reservations_for_tier tier b.reservations) distinct refl)

mismatched : (staked expected : ℤ) → (staked ≡ expected) ⊎ (int_eq staked expected ≡ false)
mismatched staked expected = elim (Bool-cases (int_eq staked expected)) [
  | inl same ↦ inl (int_eq→eq staked expected same)
  | inr other ↦ inr other
]

-- When the total that the caller expects is not the sum of the room's reservations, consuming them
-- fails, so that nothing moves, whether or not there are any.
pub consume_reservations_expected :
    (tier : String) (game escrow_id : ℕ) (expected : ℤ) (b : Books)
    → (staked_from (pos 0) (reservations_for_tier tier b.reservations) ≡ expected)
      ⊎ (consume_reservations tier game escrow_id (some expected) b
          ≡ fail (
              stake_mismatch
                (staked_from (pos 0) (reservations_for_tier tier b.reservations))
                expected))
unfolding consume_reservations
consume_reservations_expected tier game escrow_id expected b =
    elim (mismatched (staked_from (pos 0) (reservations_for_tier tier b.reservations)) expected) [
      | inl same ↦ inl same
      | inr other ↦ inr (rw other refl)
    ]
