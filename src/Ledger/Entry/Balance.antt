-- ===== src/Ledger/Entry/Balance.antt =====
-- The books while an entry is posted (apps/gateway/src/services/ledger.ts).
use solana_snake_arena.Base.{
  ℕ, ◌+◌, ◌≡◌, refl, ap, not, ◌&&◌, Option, none, some, List, [], ◌∷◌, inl, inr, Bool-cases, ltb,
  length,
}
use solana_snake_arena.Base.Int.{
  ℤ, pos, ◌+ℤ◌, ◌-ℤ◌, ltb_ℤ, leb_ℤ, int_eq, int_laws, parts_of_eq, int_eq→eq,
}
use solana_snake_arena.Ledger.{
  PoolAccount, Posting, Direction, signed_amount, credit, debit, imbalance, invalid_leg,
  insufficient_pool_funds, LedgerError, Attempt, ok, fail, ◌>>=◌, Ensures, throw_if, or_throw,
  find_account, update_account, set_balance, total_balance, net,
}
use solana_snake_arena.Ledger.Accounts.{Updated, update_account-Updated, find_account-id}
use solana_snake_arena.Ledger.Transfer.{Ensures-after, Ensures-bind, Ensures-map, post-net}
use solana_snake_arena.Ledger.Entry.{
  LedgerLeg, PostEntryParams, Sums, sum_legs, check_sums, assert_balanced, may_go_negative, delta,
  add_leg, or_conflict, leg_posting, write_leg, post_on, post_leg, post_legs, name_duplicate,
  post_entry,
}

-- What the legs add to the pools, in all.
pub sum_delta : List LedgerLeg → ℤ
sum_delta [] = pos 0
sum_delta (leg ∷ legs) = delta leg +ℤ sum_delta legs

record Shifted (by : ℤ) (rows : List PoolAccount) (ps : List Posting)
    (r : List PoolAccount × List Posting) : Type 0 where
  pub accounts : total_balance r.0 ≡ by +ℤ total_balance rows
  pub entries : net r.1 ≡ by +ℤ net ps

pub Ensures-or_conflict {ℓ κ} :
    {A : Type ℓ} (P : A → Type κ) (m : Attempt A) → Ensures P m → Ensures P (or_conflict m)
Ensures-or_conflict P (ok a) h = h
Ensures-or_conflict P (fail e) h = tt

pub Ensures-or_throw {ℓ κ μ} :
    {A : Type ℓ} {B : Type κ} (P : B → Type μ) (o : Option A) (e : LedgerError) (f : A → Attempt B)
    → ((a : A) → o ≡ some a → Ensures P (f a))
    → Ensures P (or_throw o e >>= f)
Ensures-or_throw P none e f k = tt
Ensures-or_throw P (some a) e f k = k a refl

moved_lem : (t t0 b d r : ℤ) → r ≡ b → t +ℤ r ≡ t0 +ℤ (b +ℤ d) → t ≡ d +ℤ t0
moved_lem t t0 b d r e h =
    omega (int_laws, parts_of_eq r b e, parts_of_eq (t +ℤ r) (t0 +ℤ (b +ℤ d)) h)

same_row :
    (id : ℕ) (rows : List PoolAccount) (account row : PoolAccount)
    → find_account id rows ≡ some account
    → find_account account.id rows ≡ some row
    → row ≡ account
same_row id rows account row there found =
    let e = ap (λ i. find_account i rows) (find_account-id id rows account there) in cc

Shifted-moved :
    (by : ℤ) (rows : List PoolAccount) (ps : List Posting) (bs : List PoolAccount)
    (qs : List Posting)
    → total_balance bs ≡ by +ℤ total_balance rows
    → net qs ≡ by +ℤ net ps
    → Shifted by rows ps (bs, qs)
Shifted-moved by rows ps bs qs h k = record { accounts = h; entries = k }

write_leg-Shifted :
    (params : PostEntryParams) (index : ℕ) (leg : LedgerLeg) (account : PoolAccount)
    (rows : List PoolAccount) (ps : List Posting)
    → find_account leg.pool_account rows ≡ some account
    → Ensures
        (Shifted (delta leg) rows ps)
        (write_leg params index leg account (account.balance +ℤ delta leg) rows ps)
unfolding write_leg
write_leg-Shifted params index leg account rows ps there =
    let next = account.balance +ℤ delta leg in
    Ensures-bind
      (Updated (set_balance next) (λ a. refl) (λ a. refl) account.id account.version rows)
      (Shifted (delta leg) rows ps) _ _
      (Ensures-or_conflict _ (update_account account.id account.version (set_balance next) rows) (
        update_account-Updated (set_balance next) (λ a. refl) (λ a. refl) account.id account.version
          rows))
      (λ bs u.
        Ensures-bind (λ qs. net qs ≡ delta leg +ℤ net ps) (Shifted (delta leg) rows ps) _ _
          (post-net (leg_posting params index leg account next) ps)
          (λ qs h.
            Shifted-moved (delta leg) rows ps bs qs
              (moved_lem (total_balance bs) (total_balance rows) account.balance (delta leg)
                u.row.balance
                (ap (λ a. a.balance) (same_row leg.pool_account rows account u.row there u.found))
                u.moved)
              h))

post_on-Shifted :
    (params : PostEntryParams) (index : ℕ) (leg : LedgerLeg) (account : PoolAccount)
    (rows : List PoolAccount) (ps : List Posting)
    → find_account leg.pool_account rows ≡ some account
    → Ensures (Shifted (delta leg) rows ps) (post_on params index leg account rows ps)
post_on-Shifted params index leg account rows ps there =
    Ensures-after (Shifted (delta leg) rows ps)
      (throw_if (ltb_ℤ (account.balance +ℤ delta leg) (pos 0) && not (may_go_negative account.kind))
        insufficient_pool_funds)
      (write_leg params index leg account (account.balance +ℤ delta leg) rows ps)
      (write_leg-Shifted params index leg account rows ps there)

post_leg-Shifted :
    (params : PostEntryParams) (index : ℕ) (leg : LedgerLeg) (rows : List PoolAccount)
    (ps : List Posting)
    → Ensures (Shifted (delta leg) rows ps) (post_leg params index leg rows ps)
unfolding post_leg
post_leg-Shifted params index leg rows ps =
    Ensures-or_throw _ (find_account leg.pool_account rows) _ _
      (λ account there. post_on-Shifted params index leg account rows ps there)

add_zero : (a : ℤ) → a ≡ pos 0 +ℤ a
add_zero a = omega int_laws

both_lem : (d e a b c : ℤ) → b ≡ d +ℤ a → c ≡ e +ℤ b → c ≡ (d +ℤ e) +ℤ a
both_lem d e a b c h k = omega (int_laws, parts_of_eq b (d +ℤ a) h, parts_of_eq c (e +ℤ b) k)

post_legs-Shifted :
    (params : PostEntryParams) (index : ℕ) (legs : List LedgerLeg) (rows : List PoolAccount)
    (ps : List Posting)
    → Ensures (Shifted (sum_delta legs) rows ps) (post_legs params index legs rows ps)
unfolding post_legs sum_delta
post_legs-Shifted params index [] rows ps = record {
  accounts = add_zero (total_balance rows);
  entries = add_zero (net ps);
}
post_legs-Shifted params index (leg ∷ legs) rows ps =
    Ensures-bind (Shifted (delta leg) rows ps) _ (post_leg params index leg rows ps) _
      (post_leg-Shifted params index leg rows ps)
      (λ r h.
        Ensures-map (Shifted (sum_delta legs) r.0 r.1) _
          (λ q k. record {
            accounts =
                both_lem (delta leg) (sum_delta legs) (total_balance rows) (total_balance r.0)
                  (total_balance q.0) h.accounts k.accounts;
            entries =
                both_lem (delta leg) (sum_delta legs) (net ps) (net r.1) (net q.1) h.entries
                  k.entries;
          })
          (post_legs params (index + 1) legs r.0 r.1)
          (post_legs-Shifted params (index + 1) legs r.0 r.1))

even_credit : (c d l r x : ℤ) → x ≡ ((c +ℤ l) -ℤ d) +ℤ r → x ≡ (c -ℤ d) +ℤ (l +ℤ r)
even_credit c d l r x h = omega (int_laws, parts_of_eq x (((c +ℤ l) -ℤ d) +ℤ r) h)

even_debit : (c d l r x : ℤ) → x ≡ (c -ℤ (d +ℤ l)) +ℤ r → x ≡ (c -ℤ d) +ℤ ((pos 0 -ℤ l) +ℤ r)
even_debit c d l r x h = omega (int_laws, parts_of_eq x ((c -ℤ (d +ℤ l)) +ℤ r) h)

zero_after : (a : ℤ) → a ≡ a +ℤ pos 0
zero_after a = omega int_laws

add_leg-delta :
    (d : Direction) (l : ℤ) (s : Sums) (r x : ℤ)
    → x ≡ ((add_leg d l s).credits -ℤ (add_leg d l s).debits) +ℤ r
    → x ≡ (s.credits -ℤ s.debits) +ℤ (signed_amount d l +ℤ r)
add_leg-delta credit l s r x h = even_credit s.credits s.debits l r x h
add_leg-delta debit l s r x h = even_debit s.credits s.debits l r x h

sum_legs-delta :
    (legs : List LedgerLeg) (s : Sums)
    → Ensures
        (λ t. t.credits -ℤ t.debits ≡ (s.credits -ℤ s.debits) +ℤ sum_delta legs)
        (sum_legs legs s)
unfolding sum_legs sum_delta
sum_legs-delta [] s = zero_after (s.credits -ℤ s.debits)
sum_legs-delta (leg ∷ legs) s =
    let t = add_leg leg.direction leg.amount s in
    Ensures-after _ (throw_if (leb_ℤ leg.amount (pos 0)) invalid_leg) (sum_legs legs t) (
      Ensures-map (λ v. v.credits -ℤ v.debits ≡ (t.credits -ℤ t.debits) +ℤ sum_delta legs) _
        (λ v h. add_leg-delta leg.direction leg.amount s (sum_delta legs) (v.credits -ℤ v.debits) h)
        (sum_legs legs t) (sum_legs-delta legs t))

even_sums : (c d x : ℤ) → c ≡ d → c -ℤ d ≡ (pos 0 -ℤ pos 0) +ℤ x → x ≡ pos 0
even_sums c d x e h =
    omega (int_laws, parts_of_eq c d e, parts_of_eq (c -ℤ d) ((pos 0 -ℤ pos 0) +ℤ x) h)

check_sums-even :
    (s : Sums) (x : ℤ)
    → s.credits -ℤ s.debits ≡ (pos 0 -ℤ pos 0) +ℤ x
    → Ensures (λ _. x ≡ pos 0) (check_sums s)
check_sums-even s x h = elim (Bool-cases (int_eq s.credits s.debits)) [
  | inl same ↦ rw same (even_sums s.credits s.debits x (int_eq→eq s.credits s.debits same) h)
  | inr other ↦ rw other tt
]

assert_balanced-even :
    (legs : List LedgerLeg) → Ensures (λ _. sum_delta legs ≡ pos 0) (assert_balanced legs)
unfolding assert_balanced
assert_balanced-even legs =
    let start : Sums = record { credits = pos 0; debits = pos 0 } in
    Ensures-after (λ _. sum_delta legs ≡ pos 0)
      (throw_if (ltb (length legs) 2) (imbalance (pos 0) (pos 0)))
      (sum_legs legs start >>= check_sums)
      (Ensures-bind (λ t. t.credits -ℤ t.debits ≡ (pos 0 -ℤ pos 0) +ℤ sum_delta legs)
        (λ _. sum_delta legs ≡ pos 0) (sum_legs legs start) check_sums (sum_legs-delta legs start)
        (λ s h. check_sums-even s (sum_delta legs) h))

pub Ensures-name_duplicate {ℓ κ} :
    {A : Type ℓ} (P : A → Type κ) (m : Attempt A) → Ensures P m → Ensures P (name_duplicate m)
Ensures-name_duplicate P (ok a) h = h
Ensures-name_duplicate P (fail e) h = tt

same_lem : (x a b : ℤ) → x ≡ pos 0 → b ≡ x +ℤ a → b ≡ a
same_lem x a b e h = omega (int_laws, parts_of_eq x (pos 0) e, parts_of_eq b (x +ℤ a) h)

-- An entry that is posted leaves the sum of all balances as it was, and the net of all entries:
-- the books that agreed before agree after, whatever the accounts and the legs are.
pub post_entry_balanced :
    (params : PostEntryParams) (rows : List PoolAccount) (ps : List Posting)
    → Ensures
        (λ r. (total_balance r.0 ≡ total_balance rows) × (net r.1 ≡ net ps))
        (post_entry params rows ps)
unfolding post_entry
post_entry_balanced params rows ps =
    Ensures-bind (λ _. sum_delta params.legs ≡ pos 0) _ (assert_balanced params.legs) _
      (assert_balanced-even params.legs)
      (λ s even. Ensures-name_duplicate _ (post_legs params 0 params.legs rows ps) (
        Ensures-map (Shifted (sum_delta params.legs) rows ps) _
          (λ r h. (
            same_lem (sum_delta params.legs) (total_balance rows) (total_balance r.0) even
                h.accounts,
            same_lem (sum_delta params.legs) (net ps) (net r.1) even h.entries,
          ))
          (post_legs params 0 params.legs rows ps)
          (post_legs-Shifted params 0 params.legs rows ps)))
