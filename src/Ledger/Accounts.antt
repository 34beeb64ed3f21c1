-- ===== src/Ledger/Accounts.antt =====
-- What an update of one account does to the table of accounts (packages/db/prisma/schema.prisma,
-- `pool_accounts`).
use solana_snake_arena.Base.{
  ℕ, ◌+◌, ◌<◌, ◌≡◌, ◌⊎◌, inl, inr, Bool, true, false, Option, none, some, List, [], ◌∷◌, arith,
  ◌==◌, if◌then◌else◌, any, find, Bool-cases,
}
use solana_snake_arena.Base.Int.{ℤ, pos, ◌+ℤ◌, int_laws, add_before}
use solana_snake_arena.Ledger.{
  PoolAccount, row_missing, Attempt, ok, fail, Ensures, find_owner, find_account, owned_by,
  update_account, total_balance,
}

abbrev pub has_id : ℕ → List PoolAccount → Bool
has_id id = any (λ (a : PoolAccount). a.id == id)

-- The primary key.
abbrev pub DistinctIds : List PoolAccount → Type 0
DistinctIds [] = Unit
DistinctIds (a ∷ rows) = (has_id a.id rows ≡ false) × DistinctIds rows

-- A row that has not been written since `r` was read, or has a later version.
abbrev pub IsPristine : PoolAccount → Option PoolAccount → Type 0
IsPristine r none = Unit
IsPristine r (some a) = (a ≡ r) ⊎ (r.version < a.version)

pub has_id-found :
    (id : ℕ) (rows : List PoolAccount) (a : PoolAccount)
    → find_account id rows ≡ some a
    → has_id id rows ≡ true
unfolding find_account
has_id-found id [] a h = cc
has_id-found id (b ∷ bs) a h = ground (arith, has_id-found id bs a)

pub find_account-id :
    (id : ℕ) (rows : List PoolAccount) (a : PoolAccount) → find_account id rows ≡ some a → a.id ≡ id
unfolding find_account
find_account-id id [] a h = cc
find_account-id id (b ∷ bs) a h = ground (arith, find_account-id id bs a)

-- The balance in an account, nothing when there is none.
abbrev pub balance_of : ℕ → List PoolAccount → ℤ
balance_of id rows = elim (find_account id rows) [ none ↦ pos 0 | some a ↦ a.balance ]

pub find_account-of_found :
    (p : PoolAccount → Bool) (rows : List PoolAccount) (a : PoolAccount)
    → DistinctIds rows
    → find p rows ≡ some a
    → find_account a.id rows ≡ some a
unfolding find_account
find_account-of_found p [] a d h = cc
find_account-of_found p (b ∷ bs) a d h = elim (Bool-cases (p b)) [
  | inl mine ↦ ground arith
  | inr other ↦
      let later : find p bs ≡ some a = ground arith in
      ground (
        arith,
        find_account-of_found p bs a d.1 later,
        has_id-found a.id bs a (find_account-of_found p bs a d.1 later),
      )
]

pub find_account-of_owner :
    (user : ℕ) (rows : List PoolAccount) (a : PoolAccount)
    → DistinctIds rows
    → find_owner user rows ≡ some a
    → find_account a.id rows ≡ some a
unfolding find_owner
find_account-of_owner user rows a d h = find_account-of_found (owned_by user) rows a d h

module _ (change : PoolAccount → PoolAccount) (keeps_id : (a : PoolAccount) → (change a).id ≡ a.id)
    (bumps : (a : PoolAccount) → (change a).version ≡ a.version + 1) where
  -- The row that an update found, and what it left.
  pub record Updated (id version : ℕ) (rows bs : List PoolAccount) : Type 0 where
    pub row : PoolAccount
    pub found : find_account id rows ≡ some row
    pub current : row.version ≡ version
    pub moved : total_balance bs +ℤ row.balance ≡ total_balance rows +ℤ (change row).balance
    pub ids : (j : ℕ) → has_id j bs ≡ has_id j rows
    pub distinct : DistinctIds rows → DistinctIds bs
    pub others :
        (j : ℕ) → find_account j bs ≡ (if j == id then some (change row) else find_account j rows)

  Updated-here :
      (id version : ℕ) (a : PoolAccount) (rows : List PoolAccount)
      → (a.id == id) ≡ true
      → (a.version == version) ≡ true
      → Updated id version (a ∷ rows) (change a ∷ rows)
  unfolding find_account total_balance
  Updated-here id version a rows here current = record {
    row = a;
    found = rw here;
    current = ground arith;
    moved = omega int_laws;
    ids = λ j. rw (keeps_id a);
    distinct = λ d. rw (keeps_id a) d;
    others = λ j. ground (arith, keeps_id a);
  }

  Updated-there :
      (id version : ℕ) (a : PoolAccount) (rows bs : List PoolAccount)
      → (a.id == id) ≡ false
      → Updated id version rows bs
      → Updated id version (a ∷ rows) (a ∷ bs)
  unfolding find_account total_balance
  Updated-there id version a rows bs other u = record {
    row = u.row;
    found = rw other u.found;
    current = u.current;
    moved =
        add_before a.balance (total_balance bs) u.row.balance (total_balance rows)
          (change u.row).balance u.moved;
    ids = λ j. rw (u.ids j);
    distinct = λ d. (rw (u.ids a.id) d.0, u.distinct d.1);
    others = λ j. ground (arith, u.others j);
  }

  first_row :
      (id version : ℕ) (a : PoolAccount) (rows : List PoolAccount)
      → (a.id == id) ≡ true
      → Ensures
          (Updated id version (a ∷ rows))
          (if a.version == version then ok (change a ∷ rows) else fail row_missing)
  first_row id version a rows here = elim (Bool-cases (a.version == version)) [
    | inl current ↦ rw current (Updated-here id version a rows here current)
    | inr stale ↦ rw stale tt
  ]

  after_first :
      (id version : ℕ) (a : PoolAccount) (rows : List PoolAccount) (r : Attempt (List PoolAccount))
      → (a.id == id) ≡ false
      → Ensures (Updated id version rows) r
      → Ensures (Updated id version (a ∷ rows)) (elim r [ ok bs ↦ ok (a ∷ bs) | fail e ↦ fail e ])
  after_first id version a rows (ok bs) other u = Updated-there id version a rows bs other u
  after_first id version a rows (fail e) other u = tt

  pub update_account-Updated :
      (id version : ℕ) (rows : List PoolAccount)
      → Ensures (Updated id version rows) (update_account id version change rows)
  unfolding update_account
  update_account-Updated id version [] = tt
  update_account-Updated id version (a ∷ rows) = elim (Bool-cases (a.id == id)) [
    | inl here ↦ rw (here, update_account) (first_row id version a rows here)
    | inr other ↦
        rw (other, update_account)
          (after_first id version a rows _ other (update_account-Updated id version rows))
  ]
