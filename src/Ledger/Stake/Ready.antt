-- ===== src/Ledger/Stake/Ready.antt =====
-- Reservations that can be consumed, and the loop's turn on one of them (`consumeReservations` of
-- packages/db/src/stake.ts).
use solana_snake_arena.Base.{
  ℕ, ◌+◌, ◌≡◌, refl, ap, ◌∙◌, Bool, true, false, none, some, List, [], ◌∷◌, inl, inr, arith, ◌==◌,
  find, any, Bool-cases,
}
use solana_snake_arena.Base.Int.{ℤ, ◌+ℤ◌, ◌-ℤ◌, ltb_ℤ}
use solana_snake_arena.Ledger.{
  PoolAccount, Posting, stake_leg, stake_escrow_leg, key_eq, StakeReservation, ok, find_account,
  find_owner, owned_by, set_balances, post, move_and_post,
}
use solana_snake_arena.Ledger.Accounts.{DistinctIds, has_id, find_account-of_owner}
use solana_snake_arena.Ledger.Stake.{
  less_reserved, stake_debit, stake_credit, Consuming, consume_row,
}
use solana_snake_arena.Ledger.Transfer.{eq_of_test}
use solana_snake_arena.Ledger.Stake.Reserve.{replaced, current_row, found_is}

find-unchanged :
    (p : PoolAccount → Bool) (id : ℕ) (change : PoolAccount → PoolAccount) (rows : List PoolAccount)
    (a : PoolAccount)
    → find_account id rows ≡ some a
    → p a ≡ false
    → p (change a) ≡ false
    → find p (replaced id change rows) ≡ find p rows
unfolding find_account
find-unchanged p id change [] a h k t = refl
find-unchanged p id change (b ∷ rows) a h k t = elim (Bool-cases (b.id == id)) [
  | inl here ↦
      let same : b ≡ a = ground arith in
      let was : p b ≡ false = ap p same ∙ k in
      let is : p (change b) ≡ false = ap (λ x. p (change x)) same ∙ t in rw here (rw (was, is) refl)
  | inr other ↦
      let rest : find_account id rows ≡ some a = ground arith in
      let e = find-unchanged p id change rows a rest k t in rw other (rw e refl)
]

module _ (change : PoolAccount → PoolAccount)
    (keeps_id : (a : PoolAccount) → (change a).id ≡ a.id) where
  has_id-replaced :
      (j id : ℕ) (rows : List PoolAccount) → has_id j (replaced id change rows) ≡ has_id j rows
  has_id-replaced j id [] = refl
  has_id-replaced j id (b ∷ rows) = ground (arith, has_id-replaced j id rows, keeps_id b)

  pub DistinctIds-replaced :
      (id : ℕ) (rows : List PoolAccount) → DistinctIds rows → DistinctIds (replaced id change rows)
  DistinctIds-replaced id [] d = tt
  DistinctIds-replaced id (b ∷ rows) d = elim (Bool-cases (b.id == id)) [
    | inl here ↦ rw here (rw (keeps_id b) d)
    | inr other ↦ rw other (rw (has_id-replaced b.id id rows) d.0, DistinctIds-replaced id rows d.1)
  ]

-- A reservation that can be consumed: its player's account covers it, and neither leg is posted yet.
pub record Ready (game : ℕ) (rows : List PoolAccount) (ps : List Posting) (row : StakeReservation)
    : Type 0 where
  pub custody : PoolAccount
  pub owned : find_owner row.user rows ≡ some custody
  pub covered : ltb_ℤ custody.balance row.lamports ≡ false
  pub fresh : any (λ q. key_eq q.key (stake_leg game row.user)) ps ≡ false
  pub fresh_escrow : any (λ q. key_eq q.key (stake_escrow_leg game row.user)) ps ≡ false

abbrev pub has_user : ℕ → List StakeReservation → Bool
has_user user = any (λ (r : StakeReservation). r.user == user)

-- All of them are, and no player has two.
abbrev pub AllReady : ℕ → List PoolAccount → List Posting → List StakeReservation → Type 0
AllReady game rows ps [] = Unit
AllReady game rows ps (r ∷ rs) =
    Ready game rows ps r × (has_user r.user rs ≡ false) × AllReady game rows ps rs

abbrev pub taken : StakeReservation → PoolAccount → PoolAccount → PoolAccount
taken row custody =
    set_balances (custody.balance -ℤ row.lamports) (less_reserved custody.reserved row.lamports)

abbrev pub consumed_one : ℕ → PoolAccount → StakeReservation → PoolAccount → Consuming → Consuming
consumed_one game escrow row custody s = record {
  accounts = replaced custody.id (taken row custody) s.accounts;
  postings =
      stake_credit game row escrow (s.escrow_balance +ℤ row.lamports)
      ∷ stake_debit game row custody
      ∷ s.postings;
  escrow_balance = s.escrow_balance +ℤ row.lamports;
  total = s.total +ℤ row.lamports;
  consumed = s.consumed + 1;
}

move_and_post-done :
    (custody : PoolAccount) (change : PoolAccount → PoolAccount) (first second : Posting)
    (rows : List PoolAccount) (ps : List Posting)
    → find_account custody.id rows ≡ some custody
    → any (λ q. key_eq q.key first.key) ps ≡ false
    → any (λ q. key_eq q.key second.key) (first ∷ ps) ≡ false
    → move_and_post custody change first second rows ps
      ≡ ok (replaced custody.id change rows, second ∷ first ∷ ps)
unfolding move_and_post post
move_and_post-done custody change first second rows ps there f g =
    rw (current_row custody.id change rows custody there) (rw f (rw g refl))

pub consume_row-done :
    (game : ℕ) (escrow : PoolAccount) (row : StakeReservation) (s : Consuming)
    → DistinctIds s.accounts
    → (r : Ready game s.accounts s.postings row)
    → consume_row game escrow row s ≡ ok (consumed_one game escrow row r.custody s)
unfolding key_eq
consume_row-done game escrow row s d r =
    let there = find_account-of_owner row.user s.accounts r.custody d r.owned in
    let e =
      move_and_post-done r.custody (taken row r.custody) (stake_debit game row r.custody)
        (stake_credit game row escrow (s.escrow_balance +ℤ row.lamports)) s.accounts s.postings
        there r.fresh r.fresh_escrow in
    rw (r.owned, consume_row) (rw r.covered (rw e refl))

not_owned :
    (user other : ℕ) (a : PoolAccount)
    → owned_by user a ≡ true
    → (user == other) ≡ false
    → owned_by other a ≡ false
not_owned user other a h ne = ground arith

still_fresh :
    (game : ℕ) (row other : StakeReservation) (escrow custody : PoolAccount) (after : ℤ)
    (ps : List Posting)
    → (row.user == other.user) ≡ false
    → any (λ q. key_eq q.key (stake_leg game other.user)) ps ≡ false
    → any
        (λ q. key_eq q.key (stake_leg game other.user))
        (stake_credit game row escrow after ∷ stake_debit game row custody ∷ ps)
      ≡ false
unfolding key_eq
still_fresh game row other escrow custody after ps ne h = ground arith

still_fresh_escrow :
    (game : ℕ) (row other : StakeReservation) (escrow custody : PoolAccount) (after : ℤ)
    (ps : List Posting)
    → (row.user == other.user) ≡ false
    → any (λ q. key_eq q.key (stake_escrow_leg game other.user)) ps ≡ false
    → any
        (λ q. key_eq q.key (stake_escrow_leg game other.user))
        (stake_credit game row escrow after ∷ stake_debit game row custody ∷ ps)
      ≡ false
unfolding key_eq
still_fresh_escrow game row other escrow custody after ps ne h = ground arith

unowned_lem : (user : ℕ) (a : PoolAccount) → a.owner ≡ none → owned_by user a ≡ false
unowned_lem user a h = rw h refl

same_id :
    (a escrow : PoolAccount) (rows : List PoolAccount)
    → find_account a.id rows ≡ some a
    → find_account escrow.id rows ≡ some escrow
    → (a.id == escrow.id) ≡ true
    → a ≡ escrow
same_id a escrow rows h k same =
    let i = ap (λ i. find_account i rows) (eq_of_test a.id escrow.id same) in cc

module _ (game : ℕ) (escrow : PoolAccount) (row : StakeReservation) (custody : PoolAccount)
    (s : Consuming) (d : DistinctIds s.accounts)
    (owned : find_owner row.user s.accounts ≡ some custody) where
  there : find_account custody.id s.accounts ≡ some custody
  there = find_account-of_owner row.user s.accounts custody d owned

  mine : owned_by row.user custody ≡ true
  unfolding find_owner
  mine = found_is (owned_by row.user) s.accounts custody owned

  Ready-after :
      (other : StakeReservation)
      → (row.user == other.user) ≡ false
      → Ready game s.accounts s.postings other
      → Ready game
          (consumed_one game escrow row custody s).accounts
          (consumed_one game escrow row custody s).postings
          other
  unfolding find_owner
  Ready-after other ne r = record {
    custody = r.custody;
    owned =
        (let no = not_owned row.user other.user custody mine ne in
          find-unchanged (owned_by other.user) custody.id (taken row custody) s.accounts custody
            there no no
          ∙ r.owned);
    covered = r.covered;
    fresh =
        still_fresh game row other escrow custody (s.escrow_balance +ℤ row.lamports) s.postings ne
          r.fresh;
    fresh_escrow =
        still_fresh_escrow game row other escrow custody (s.escrow_balance +ℤ row.lamports)
          s.postings ne r.fresh_escrow;
  }

  pub AllReady-after :
      (rs : List StakeReservation)
      → has_user row.user rs ≡ false
      → AllReady game s.accounts s.postings rs
      → AllReady game
          (consumed_one game escrow row custody s).accounts
          (consumed_one game escrow row custody s).postings
          rs
  AllReady-after [] h r = tt
  AllReady-after (other ∷ rs) h r =
      let ne : (row.user == other.user) ≡ false = ground arith in
      let rest : has_user row.user rs ≡ false = ground arith in
      (Ready-after other ne r.0, r.1, AllReady-after rs rest r.2)

  pub escrow-after :
      escrow.owner ≡ none
      → find_account escrow.id s.accounts ≡ some escrow
      → find_account escrow.id (consumed_one game escrow row custody s).accounts ≡ some escrow
  unfolding find_account
  escrow-after unowned e = elim (Bool-cases (custody.id == escrow.id)) [
    | inl same ↦
        let eq = same_id custody escrow s.accounts there e same in
        let no = unowned_lem row.user custody (ap (λ a. a.owner) eq ∙ unowned) in
        let yes = mine in cc
    | inr other ↦
        find-unchanged (λ x. x.id == escrow.id) custody.id (taken row custody) s.accounts custody
          there other other
        ∙ e
  ]
