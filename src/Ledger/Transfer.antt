-- ===== src/Ledger/Transfer.antt =====
-- Transfers between one pool and many within a transaction: the loops of packages/db/src/stake.ts
-- and refund.ts keep the pool's balance in a variable and write it once, at the end.
use solana_snake_arena.Base.{
  ℕ, ◌+◌, ◌<◌, ◌≡◌, refl, sym, inl, inr, true, Option, none, some, List, arith, ◌==◌, any, ◌∙◌, ap,
  Bool-cases,
}
use solana_snake_arena.Base.Int.{ℤ, pos, ◌+ℤ◌, int_laws, parts_of_eq}
use solana_snake_arena.Ledger.{
  PoolAccount, Posting, Attempt, ok, fail, ◌>>=◌, ◌>>◌, Ensures, find_owner, find_account,
  update_account, set_balance, key_eq, post, move_and_post, total_balance, signed, net,
}
use solana_snake_arena.Ledger.Accounts.{
  has_id, DistinctIds, IsPristine, Updated, find_account-of_owner, update_account-Updated,
}

pub Ensures-bind {ℓ κ μ ν} :
    {A : Type ℓ} {B : Type κ} (P : A → Type μ) (Q : B → Type ν) (m : Attempt A) (f : A → Attempt B)
    → Ensures P m
    → ((a : A) → P a → Ensures Q (f a))
    → Ensures Q (m >>= f)
Ensures-bind P Q (ok a) f h k = k a h
Ensures-bind P Q (fail e) f h k = tt

pub Ensures-after {ℓ κ} :
    {A : Type ℓ} (P : A → Type κ) (m : Attempt (Unit {0})) (k : Attempt A)
    → Ensures P k
    → Ensures P (m >> k)
Ensures-after P (ok u) k h = h
Ensures-after P (fail e) k h = tt

pub Ensures-map {ℓ κ ν} :
    {A : Type ℓ} (P : A → Type κ) (Q : A → Type ν)
    → ((a : A) → P a → Q a)
    → (m : Attempt A) → Ensures P m
    → Ensures Q m
Ensures-map P Q k (ok a) h = k a h
Ensures-map P Q k (fail e) h = tt

pub post-net :
    (p : Posting) (ps : List Posting) → Ensures (λ qs. net qs ≡ signed p +ℤ net ps) (post p ps)
unfolding post net
post-net p ps = elim (Bool-cases (any (λ q. key_eq q.key p.key) ps)) [
  | inl taken ↦ rw taken tt
  | inr fresh ↦ rw fresh refl
]

-- The books in the middle of such a loop: the pool's row is as it was read, or has a later version.
pub record Moving (pool : PoolAccount) (total before : ℤ) (rows : List PoolAccount)
    (ps : List Posting) (balance : ℤ) : Type 0 where
  pub distinct : DistinctIds rows
  pub pristine : IsPristine pool (find_account pool.id rows)
  pub books : total_balance rows +ℤ balance ≡ total +ℤ pool.balance
  pub legs : net ps ≡ before

two_legs :
    (first second : Posting) (ps one both : List Posting)
    → net one ≡ signed first +ℤ net ps
    → net both ≡ signed second +ℤ net one
    → signed second +ℤ signed first ≡ pos 0
    → net both ≡ net ps
two_legs first second ps one both h k even = omega (
  int_laws,
  parts_of_eq (net one) (signed first +ℤ net ps) h,
  parts_of_eq (net both) (signed second +ℤ net one) k,
  parts_of_eq (signed second +ℤ signed first) (pos 0) even,
)

eq_test_self : (n : ℕ) → (n == n) ≡ true
eq_test_self n = ground arith

pub eq_of_test : (m n : ℕ) → (m == n) ≡ true → m ≡ n
eq_of_test m n h = ground arith

-- What one transfer leaves: the same accounts, with the books in the middle.
pub record Moved (pool : PoolAccount) (total before : ℤ) (rows : List PoolAccount) (balance : ℤ)
    (r : List PoolAccount × List Posting) : Type 0 where
  pub moving : Moving pool total before r.0 r.1 balance
  pub ids : (j : ℕ) → has_id j r.0 ≡ has_id j rows

Moved-intro :
    (pool : PoolAccount) (total before : ℤ) (rows : List PoolAccount) (balance : ℤ)
    (bs : List PoolAccount) (qs : List Posting)
    → Moving pool total before bs qs balance
    → ((j : ℕ) → has_id j bs ≡ has_id j rows)
    → Moved pool total before rows balance (bs, qs)
Moved-intro pool total before rows balance bs qs mv ids = record { moving = mv; ids = ids }

module _ (change : PoolAccount → PoolAccount) (keeps_id : (a : PoolAccount) → (change a).id ≡ a.id)
    (bumps : (a : PoolAccount) → (change a).version ≡ a.version + 1) where
  row-found :
      (custody : PoolAccount) (rows bs : List PoolAccount)
      → find_account custody.id rows ≡ some custody
      → (u : Updated change keeps_id bumps custody.id custody.version rows bs) → u.row ≡ custody
  row-found custody rows bs there u = let found = u.found in cc

  pristine-bumped :
      (pool row : PoolAccount) (o : Option PoolAccount)
      → o ≡ some row
      → IsPristine pool o
      → pool.version < (change row).version
  pristine-bumped pool row none h p = cc
  pristine-bumped pool row (some a) h (inl same) =
      let e : a ≡ row = cc in
      omega (arith, bumps row, ap (λ a. a.version) same, ap (λ a. a.version) e)
  pristine-bumped pool row (some a) h (inr later) =
      let e : a ≡ row = cc in omega (arith, bumps row, ap (λ a. a.version) e)

  IsPristine-update :
      (pool custody : PoolAccount) (rows bs : List PoolAccount)
      → IsPristine pool (find_account pool.id rows)
      → (u : Updated change keeps_id bumps custody.id custody.version rows bs)
      → IsPristine pool (find_account pool.id bs)
  IsPristine-update pool custody rows bs p u = elim (Bool-cases (pool.id == custody.id)) [
    | inl same ↦
        rw (u.others pool.id, same)
          (inr (
            pristine-bumped pool u.row (find_account pool.id rows)
              (rw (eq_of_test pool.id custody.id same) u.found) p))
    | inr other ↦ rw (u.others pool.id, other) p
  ]

  Moving-moved :
      (pool : PoolAccount) (total before : ℤ) (custody : PoolAccount) (rows bs : List PoolAccount)
      (ps qs : List Posting) (balance next : ℤ)
      → Moving pool total before rows ps balance
      → find_account custody.id rows ≡ some custody
      → (change custody).balance +ℤ next ≡ custody.balance +ℤ balance
      → net qs ≡ net ps
      → Updated change keeps_id bumps custody.id custody.version rows bs
      → Moving pool total before bs qs next
  Moving-moved pool total before custody rows bs ps qs balance next mv there flow even u =
      let same = row-found custody rows bs there u in
      record {
        distinct = u.distinct mv.distinct;
        pristine = IsPristine-update pool custody rows bs mv.pristine u;
        books = omega (
          int_laws,
          parts_of_eq _ _ mv.books,
          parts_of_eq _ _ flow,
          parts_of_eq (total_balance bs +ℤ custody.balance)
              (total_balance rows +ℤ (change custody).balance) (rw (sym same) u.moved),
        );
        legs = even ∙ mv.legs;
      }

  pub move_and_post-Moving_at :
      (pool : PoolAccount) (total before : ℤ) (custody : PoolAccount) (rows : List PoolAccount)
      (ps : List Posting) (balance next : ℤ) (first second : Posting)
      → Moving pool total before rows ps balance
      → find_account custody.id rows ≡ some custody
      → (change custody).balance +ℤ next ≡ custody.balance +ℤ balance
      → signed second +ℤ signed first ≡ pos 0
      → Ensures
          (Moved pool total before rows next)
          (move_and_post custody change first second rows ps)
  unfolding move_and_post
  move_and_post-Moving_at pool total before custody rows ps balance next first second mv there flow
        even =
      Ensures-bind (Updated change keeps_id bumps custody.id custody.version rows) _ _ _
        (update_account-Updated change keeps_id bumps custody.id custody.version rows)
        (λ bs u.
          Ensures-bind (λ qs. net qs ≡ signed first +ℤ net ps) _ _ _ (post-net first ps)
            (λ one h.
              Ensures-bind (λ qs. net qs ≡ signed second +ℤ net one)
                (Moved pool total before rows next) _ _ (post-net second one)
                (λ both k.
                  Moved-intro pool total before rows next bs both
                    (Moving-moved pool total before custody rows bs ps both balance next mv there
                      flow (two_legs first second ps one both h k even) u)
                    u.ids)))

  pub move_and_post-Moving :
      (pool : PoolAccount) (total before : ℤ) (user : ℕ) (custody : PoolAccount)
      (rows : List PoolAccount) (ps : List Posting) (balance next : ℤ) (first second : Posting)
      → Moving pool total before rows ps balance
      → find_owner user rows ≡ some custody
      → (change custody).balance +ℤ next ≡ custody.balance +ℤ balance
      → signed second +ℤ signed first ≡ pos 0
      → Ensures
          (Moved pool total before rows next)
          (move_and_post custody change first second rows ps)
  move_and_post-Moving pool total before user custody rows ps balance next first second mv mine flow
        even =
      move_and_post-Moving_at pool total before custody rows ps balance next first second mv
        (find_account-of_owner user rows custody mv.distinct mine) flow even

pristine-same :
    (pool row : PoolAccount) (o : Option PoolAccount)
    → o ≡ some row
    → row.version ≡ pool.version
    → IsPristine pool o
    → row ≡ pool
pristine-same pool row none h v p = cc
pristine-same pool row (some a) h v (inl same) = cc
pristine-same pool row (some a) h v (inr later) =
    let e : a ≡ row = cc in let f = ap (λ (a : PoolAccount). a.version) e in ground (arith, f)

-- The pool's own row is written last, under the version that was read first.
abbrev pub Closed : PoolAccount → ℤ → ℤ → List PoolAccount → Type 0
Closed pool total balance bs =
    DistinctIds bs
    × (find_account pool.id bs ≡ some (set_balance balance pool))
    × (total_balance bs ≡ total)

pub Moving-Closed :
    (pool : PoolAccount) (total before : ℤ) (rows : List PoolAccount) (ps : List Posting)
    (balance : ℤ)
    → Moving pool total before rows ps balance
    → Ensures
        (Closed pool total balance)
        (update_account pool.id pool.version (set_balance balance) rows)
Moving-Closed pool total before rows ps balance mv =
    Ensures-map (Updated (set_balance balance) (λ a. refl) (λ a. refl) pool.id pool.version rows) _
      (λ bs u.
        let same =
          pristine-same pool u.row (find_account pool.id rows) u.found u.current mv.pristine in
        (
          u.distinct mv.distinct,
          rw (u.others pool.id, eq_test_self pool.id) (ap (λ a. some (set_balance balance a)) same),
          omega (
            int_laws,
            parts_of_eq _ _ mv.books,
            parts_of_eq (total_balance bs +ℤ pool.balance) (total_balance rows +ℤ balance)
                (rw (sym same) u.moved),
          ),
        ))
      _
      (update_account-Updated (set_balance balance) (λ a. refl) (λ a. refl) pool.id pool.version
        rows)
