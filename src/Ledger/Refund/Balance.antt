-- ===== src/Ledger/Refund/Balance.antt =====
-- The books while entry fees are returned: the loop of `cancelGameAndRefund` in
-- packages/db/src/refund.ts, which may open an account for a player.
use solana_snake_arena.Base.{
  ℕ, suc, ◌+◌, ◌≡◌, refl, sym, ap, ◌∙◌, inl, inr, true, false, none, some, List, [], ◌∷◌, arith,
  Bool-cases, Option-cases, ◌==◌,
}
use solana_snake_arena.Base.Int.{ℤ, pos, ◌+ℤ◌, ◌-ℤ◌, ltb_ℤ, int_laws, parts_of_eq}
use solana_snake_arena.Ledger.{
  PoolAccount, Posting, Books, Ensures, throw_if, find_owner, find_account, new_custody,
  create_custody, update_account, set_balance, move_and_post, total_balance, net,
}
use solana_snake_arena.Ledger.Accounts.{DistinctIds, has_id, has_id-found, balance_of}
use solana_snake_arena.Ledger.Transfer.{
  Ensures-after, Ensures-bind, Moving, Moved, eq_of_test, move_and_post-Moving, Closed,
  Moving-Closed,
}
use solana_snake_arena.Ledger.Refund.{
  RefundLeg, owed_from, get_custody, refund_debit, refund_credit, Refunding, refund_to, refund_one,
  refund_all, write_escrow, pay_back,
}

-- Identifiers from `n` on are not taken.
abbrev pub FreshFrom : ℕ → List PoolAccount → Type 0
FreshFrom n rows = (j : ℕ) → has_id (n + j) rows ≡ false

-- The loop's state against the tables before it: the escrow's variable has fallen by the total.
record Paying (escrow : PoolAccount) (rows : List PoolAccount) (ps : List Posting) (paid : ℤ)
    (s : Refunding) : Type 0 where
  pub moving :
      Moving escrow (total_balance rows) (net ps) s.books.accounts s.books.postings s.escrow_balance
  pub fresh : FreshFrom s.books.next_id s.books.accounts
  pub present : has_id escrow.id s.books.accounts ≡ true
  pub fallen : s.escrow_balance +ℤ paid ≡ escrow.balance

zero_balance : (t e b : ℤ) → t +ℤ b ≡ e → (pos 0 +ℤ t) +ℤ b ≡ e
zero_balance t e b h = omega (int_laws, parts_of_eq (t +ℤ b) e h)

not_taken :
    (n id : ℕ) (rows : List PoolAccount)
    → has_id n rows ≡ false
    → has_id id rows ≡ true
    → (n == id) ≡ false
not_taken n id rows fresh present = elim (Bool-cases (n == id)) [
  | inl same ↦ let e = ap (λ i. has_id i rows) (eq_of_test n id same) in cc
  | inr other ↦ other
]

Moving-created :
    (escrow : PoolAccount) (total before : ℤ) (b : Books) (user : ℕ) (balance : ℤ)
    → Moving escrow total before b.accounts b.postings balance
    → has_id b.next_id b.accounts ≡ false
    → has_id escrow.id b.accounts ≡ true
    → Moving escrow total before (create_custody user b).accounts b.postings balance
unfolding find_account total_balance
Moving-created escrow total before b user balance mv fresh present = record {
  distinct = (fresh, mv.distinct);
  pristine = rw (not_taken b.next_id escrow.id b.accounts fresh present) mv.pristine;
  books = zero_balance (total_balance b.accounts) (total +ℤ escrow.balance) balance mv.books;
  legs = mv.legs;
}

refund_flow : (b l e : ℤ) → (b +ℤ l) +ℤ (e -ℤ l) ≡ b +ℤ e
refund_flow b l e = omega int_laws

refund_even : (l : ℤ) → l +ℤ (pos 0 -ℤ l) ≡ pos 0
refund_even l = omega int_laws

fallen_lem : (e e0 paid l : ℤ) → e +ℤ paid ≡ e0 → (e -ℤ l) +ℤ (paid +ℤ l) ≡ e0
fallen_lem e e0 paid l h = omega (int_laws, parts_of_eq (e +ℤ paid) e0 h)

refund_to-Paying :
    (game : ℕ) (escrow : PoolAccount) (leg : RefundLeg) (custody : PoolAccount) (b : Books)
    (balance : ℤ) (rows : List PoolAccount) (ps : List Posting) (paid : ℤ)
    → Paying escrow rows ps paid (record { books = b; escrow_balance = balance })
    → find_owner leg.user b.accounts ≡ some custody
    → Ensures
        (Paying escrow rows ps (paid +ℤ leg.lamports))
        (refund_to game escrow leg custody b balance)
refund_to-Paying game escrow leg custody b balance rows ps paid h mine =
    Ensures-bind (Moved escrow (total_balance rows) (net ps) b.accounts (balance -ℤ leg.lamports)) _
      (move_and_post custody (set_balance (custody.balance +ℤ leg.lamports))
        (refund_debit game leg escrow (balance -ℤ leg.lamports)) (refund_credit game leg custody)
        b.accounts b.postings)
      _
      (move_and_post-Moving (set_balance (custody.balance +ℤ leg.lamports)) (λ a. refl) (λ a. refl)
        escrow (total_balance rows) (net ps) leg.user custody b.accounts b.postings balance
        (balance -ℤ leg.lamports) (refund_debit game leg escrow (balance -ℤ leg.lamports))
        (refund_credit game leg custody) h.moving mine
        (refund_flow custody.balance leg.lamports balance) (refund_even leg.lamports))
      (λ r m. record {
        moving = m.moving;
        fresh = λ j. m.ids (b.next_id + j) ∙ h.fresh j;
        present = m.ids escrow.id ∙ h.present;
        fallen = fallen_lem balance escrow.balance paid leg.lamports h.fallen;
      })

fresh_created :
    (b : Books) (user : ℕ)
    → FreshFrom b.next_id b.accounts
    → FreshFrom (b.next_id + 1) (create_custody user b).accounts
fresh_created b user fresh j =
    let later : (b.next_id == b.next_id + 1 + j) ≡ false = ground arith in
    let e : b.next_id + suc j ≡ b.next_id + 1 + j = omega arith in
    rw later (ap (λ i. has_id i b.accounts) (sym e) ∙ fresh (suc j))

present_created :
    (b : Books) (user id : ℕ)
    → has_id id b.accounts ≡ true
    → has_id id (create_custody user b).accounts ≡ true
present_created b user id h = ground (arith, h)

found_created :
    (b : Books) (user : ℕ)
    → find_owner user (create_custody user b).accounts ≡ some (new_custody b.next_id user)
unfolding find_owner
found_created b user = ground arith

at_zero : (n : ℕ) (rows : List PoolAccount) → FreshFrom n rows → has_id n rows ≡ false
at_zero n rows fresh = let e : n ≡ n + 0 = omega arith in ap (λ i. has_id i rows) e ∙ fresh 0

get_custody-found :
    (user : ℕ) (b : Books) (custody : PoolAccount)
    → find_owner user b.accounts ≡ some custody
    → get_custody user b ≡ (b, custody)
unfolding get_custody
get_custody-found user b custody h = rw (h, get_custody) refl

get_custody-absent :
    (user : ℕ) (b : Books)
    → find_owner user b.accounts ≡ none
    → get_custody user b ≡ (create_custody user b, new_custody b.next_id user)
unfolding get_custody
get_custody-absent user b h = rw (h, get_custody) refl

refund_one-Paying :
    (game : ℕ) (escrow : PoolAccount) (leg : RefundLeg) (s : Refunding) (rows : List PoolAccount)
    (ps : List Posting) (paid : ℤ)
    → Paying escrow rows ps paid s
    → Ensures (Paying escrow rows ps (paid +ℤ leg.lamports)) (refund_one game escrow leg s)
refund_one-Paying game escrow leg s rows ps paid h =
    elim (Option-cases (find_owner leg.user s.books.accounts)) [
      | inr (custody, mine) ↦
          rw (get_custody-found leg.user s.books custody mine, refund_one)
            (refund_to-Paying game escrow leg custody s.books s.escrow_balance rows ps paid h mine)
      | inl absent ↦
          rw (get_custody-absent leg.user s.books absent, refund_one)
            (refund_to-Paying game escrow leg (new_custody s.books.next_id leg.user)
              (create_custody leg.user s.books) s.escrow_balance rows ps paid
              (record {
                moving =
                    Moving-created escrow (total_balance rows) (net ps) s.books leg.user
                      s.escrow_balance h.moving (at_zero s.books.next_id s.books.accounts h.fresh)
                      h.present;
                fresh = fresh_created s.books leg.user h.fresh;
                present = present_created s.books leg.user escrow.id h.present;
                fallen = h.fallen;
              })
              (found_created s.books leg.user))
    ]

refund_all-Paying :
    (game : ℕ) (escrow : PoolAccount) (legs : List RefundLeg) (s : Refunding)
    (rows : List PoolAccount) (ps : List Posting) (paid : ℤ)
    → Paying escrow rows ps paid s
    → Ensures (Paying escrow rows ps (owed_from paid legs)) (refund_all game escrow legs s)
unfolding refund_all owed_from
refund_all-Paying game escrow [] s rows ps paid h = h
refund_all-Paying game escrow (leg ∷ legs) s rows ps paid h =
    Ensures-bind (Paying escrow rows ps (paid +ℤ leg.lamports)) _ (refund_one game escrow leg s)
      (refund_all game escrow legs) (refund_one-Paying game escrow leg s rows ps paid h)
      (λ t k. refund_all-Paying game escrow legs t rows ps (paid +ℤ leg.lamports) k)

-- What a cancellation that committed leaves, against the escrow account that was found before.
pub record Refunded (escrow : PoolAccount) (b : Books) (total : ℤ) (c : Books) : Type 0 where
  pub distinct : DistinctIds c.accounts
  pub conserved : total_balance c.accounts ≡ total_balance b.accounts
  pub even : net c.postings ≡ net b.postings
  pub paid : balance_of escrow.id c.accounts +ℤ total ≡ escrow.balance

closed_lem :
    (escrow : PoolAccount) (bs : List PoolAccount) (e paid : ℤ)
    → find_account escrow.id bs ≡ some (set_balance e escrow)
    → e +ℤ paid ≡ escrow.balance
    → balance_of escrow.id bs +ℤ paid ≡ escrow.balance
closed_lem escrow bs e paid after h = rw (after, balance_of) h

write_escrow-Refunded :
    (escrow : PoolAccount) (leg : RefundLeg) (legs : List RefundLeg) (b : Books) (paid : ℤ)
    (s : Refunding)
    → Paying escrow b.accounts b.postings paid s
    → Ensures (Refunded escrow b paid) (write_escrow escrow (leg ∷ legs) s)
write_escrow-Refunded escrow leg legs b paid s h =
    Ensures-bind (Closed escrow (total_balance b.accounts) s.escrow_balance) _
      (update_account escrow.id escrow.version (set_balance s.escrow_balance) s.books.accounts) _
      (Moving-Closed escrow (total_balance b.accounts) (net b.postings) s.books.accounts
        s.books.postings s.escrow_balance h.moving)
      (λ bs c. record {
        distinct = c.0;
        conserved = c.2;
        even = h.moving.legs;
        paid = closed_lem escrow bs s.escrow_balance paid c.1 h.fallen;
      })

pub plus_zero : (a : ℤ) → a +ℤ pos 0 ≡ a
plus_zero a = omega int_laws

nothing_owed :
    (escrow : PoolAccount) (b : Books)
    → DistinctIds b.accounts
    → find_account escrow.id b.accounts ≡ some escrow
    → Refunded escrow b (pos 0) b
nothing_owed escrow b distinct there = record {
  distinct = distinct;
  conserved = refl;
  even = refl;
  paid = rw (there, balance_of) (plus_zero escrow.balance);
}

pub pay_back-Refunded :
    (game : ℕ) (escrow : PoolAccount) (owed : List RefundLeg) (b : Books)
    → DistinctIds b.accounts
    → FreshFrom b.next_id b.accounts
    → find_account escrow.id b.accounts ≡ some escrow
    → Ensures (Refunded escrow b (owed_from (pos 0) owed)) (pay_back game escrow owed b)
unfolding pay_back owed_from refund_all
pay_back-Refunded game escrow [] b distinct fresh there =
    Ensures-after (Refunded escrow b (pos 0)) (throw_if (ltb_ℤ escrow.balance (pos 0)) _) _
      (nothing_owed escrow b distinct there)
pay_back-Refunded game escrow (leg ∷ legs) b distinct fresh there =
    let start : Refunding = record { books = b; escrow_balance = escrow.balance } in
    Ensures-after (Refunded escrow b (owed_from (pos 0) (leg ∷ legs)))
      (throw_if (ltb_ℤ escrow.balance (owed_from (pos 0) (leg ∷ legs))) _) _
      (Ensures-bind (Paying escrow b.accounts b.postings (owed_from (pos 0) (leg ∷ legs)))
        (Refunded escrow b (owed_from (pos 0) (leg ∷ legs)))
        (refund_all game escrow (leg ∷ legs) start) (write_escrow escrow (leg ∷ legs))
        (refund_all-Paying game escrow (leg ∷ legs) start b.accounts b.postings (pos 0) (record {
          moving = record {
            distinct = distinct;
            pristine = rw there (inl refl);
            books = refl;
            legs = refl;
          };
          fresh = fresh;
          present = has_id-found escrow.id b.accounts escrow there;
          fallen = plus_zero escrow.balance;
        }))
        (λ s h. write_escrow-Refunded escrow leg legs b (owed_from (pos 0) (leg ∷ legs)) s h))
