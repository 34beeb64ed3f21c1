-- ===== src/Ledger/Stake/Reserve.antt =====
-- Reserving an entry fee once, and again (packages/db/src/stake.ts).
use solana_snake_arena.Base.{
  ℕ, ◌≤◌, ltb, ◌≡◌, refl, sym, ap, ◌∙◌, String, Bool, true, false, none, some, List, [], ◌∷◌, inl,
  inr, arith, ◌==◌, find, Bool-cases, if◌then◌else◌,
}
use text.Mathlib.Text.{◌==◌ as str_eq}
use text.Mathlib.TextEquality.{eq_iff}
use solana_snake_arena.Ledger.Accounts.{DistinctIds, find_account-of_found}
use solana_snake_arena.Base.Int.{ℤ, pos, ◌+ℤ◌, ◌-ℤ◌, ltb_ℤ, ◌≤ℤ◌, int_eq, int_laws}
use solana_snake_arena.Ledger.{
  PoolAccount, StakeReservation, Books, ok, find_account, find_custody, custody_named,
  update_account, set_reserved,
}
use solana_snake_arena.Ledger.Stake.{
  spendable, clamp, get_or_create_custody, find_reservation, reserve_new, reserve_tx, commit,
  reserve_entry_fee,
}

-- The table with one account changed.
abbrev pub replaced : ℕ → (PoolAccount → PoolAccount) → List PoolAccount → List PoolAccount
replaced id change [] = []
replaced id change (a ∷ rows) =
    let rest = replaced id change rows in if a.id == id then change a ∷ rows else a ∷ rest

pub current_row :
    (id : ℕ) (change : PoolAccount → PoolAccount) (rows : List PoolAccount) (a : PoolAccount)
    → find_account id rows ≡ some a
    → update_account id a.version change rows ≡ ok (replaced id change rows)
unfolding find_account update_account
current_row id change [] a h = cc
current_row id change (b ∷ rows) a h = elim (Bool-cases (b.id == id)) [
  | inl here ↦ ground (arith, current_row id change rows a)
  | inr other ↦ ground (arith, current_row id change rows a)
]

pub found_is :
    (p : PoolAccount → Bool) (rows : List PoolAccount) (a : PoolAccount)
    → find p rows ≡ some a
    → p a ≡ true
found_is p [] a h = cc
found_is p (b ∷ rows) a h = ground (arith, found_is p rows a)

find-replaced :
    (p : PoolAccount → Bool) (change : PoolAccount → PoolAccount) (rows : List PoolAccount)
    (a : PoolAccount)
    → find p rows ≡ some a
    → find_account a.id rows ≡ some a
    → p (change a) ≡ true
    → find p (replaced a.id change rows) ≡ some (change a)
unfolding find_account
find-replaced p change [] a h k t = cc
find-replaced p change (b ∷ rows) a h k t = elim (Bool-cases (b.id == a.id)) [
  | inl here ↦
      let same : b ≡ a = ground arith in
      let still : p (change b) ≡ true = ap (λ x. p (change x)) same ∙ t in
      rw here (rw still (ap (λ x. some (change x)) same))
  | inr other ↦ elim (Bool-cases (p b)) [
    | inl mine ↦ ground arith
    | inr not_mine ↦ ground (arith, find-replaced p change rows a)
  ]
]

not_less : (m n : ℕ) → ltb m n ≡ false → n ≤ m
not_less m n h = ground arith

nothing_left : (d l : ℤ) → ltb_ℤ d l ≡ false → ltb_ℤ (pos 0) (d -ℤ l) ≡ false → pos 0 ≡ d -ℤ l
nothing_left d l h k =
    let enough : l ≤ℤ d = not_less _ _ h in
    let no_more : d -ℤ l ≤ℤ pos 0 = not_less _ _ k in omega int_laws

clamp_poor : (d : ℤ) → ltb_ℤ (pos 0) d ≡ false → clamp d ≡ pos 0
clamp_poor d h = rw h refl

clamp_rich : (d : ℤ) → ltb_ℤ (pos 0) d ≡ true → clamp d ≡ d
clamp_rich d h = rw h refl

clamp-sub :
    (d l : ℤ) → ltb_ℤ (clamp d) l ≡ false → ltb_ℤ (pos 0) l ≡ true → clamp (d -ℤ l) ≡ clamp d -ℤ l
clamp-sub d l h k = elim (Bool-cases (ltb_ℤ (pos 0) d)) [
  | inr broke ↦
      let e = ap (λ x. ltb_ℤ x l) (clamp_poor d broke) in
      (let f : true ≡ false = sym k ∙ sym e ∙ h in cc)
  | inl rich ↦
      let e = clamp_rich d rich in
      let enough : ltb_ℤ d l ≡ false = ap (λ x. ltb_ℤ x l) (sym e) ∙ h in
      elim (Bool-cases (ltb_ℤ (pos 0) (d -ℤ l))) [
        | inl more ↦ clamp_rich (d -ℤ l) more ∙ ap (λ x. x -ℤ l) (sym e)
        | inr spent ↦
            clamp_poor (d -ℤ l) spent ∙ nothing_left d l enough spent ∙ ap (λ x. x -ℤ l) (sym e)
      ]
]

spendable_after :
    (b r l : ℤ)
    → ltb_ℤ (clamp (b -ℤ r)) l ≡ false
    → ltb_ℤ (pos 0) l ≡ true
    → clamp (b -ℤ (r +ℤ l)) ≡ clamp (b -ℤ r) -ℤ l
spendable_after b r l h k =
    let e : b -ℤ (r +ℤ l) ≡ (b -ℤ r) -ℤ l = omega int_laws in ap clamp e ∙ clamp-sub (b -ℤ r) l h k

abbrev pub reserving : ℤ → PoolAccount → PoolAccount
reserving lamports a = set_reserved (a.reserved +ℤ lamports) a

-- The books with one more reservation in them.
abbrev pub with_reservation : StakeReservation → PoolAccount → Books → Books
with_reservation params a b = record b {
  accounts = replaced a.id (set_reserved (a.reserved +ℤ params.lamports)) b.accounts;
  reservations = params ∷ b.reservations;
}

reserve_new-done :
    (params : StakeReservation) (a : PoolAccount) (b : Books)
    → find_account a.id b.accounts ≡ some a
    → ltb_ℤ (spendable a) params.lamports ≡ false
    → reserve_new params a b
      ≡ ok (
        with_reservation params a b,
        record {
          reserved = params.lamports;
          already = false;
          spendable_after = spendable a -ℤ params.lamports;
        },
      )
reserve_new-done params a b there enough =
    rw enough
      (rw (current_row a.id (set_reserved (a.reserved +ℤ params.lamports)) b.accounts a there) refl)

reserve_tx-new :
    (params : StakeReservation) (a : PoolAccount) (b : Books)
    → find_account a.id b.accounts ≡ some a
    → find_reservation params.user params.tier b.reservations ≡ none
    → ltb_ℤ (spendable a) params.lamports ≡ false
    → reserve_tx params a b
      ≡ ok (
        with_reservation params a b,
        record {
          reserved = params.lamports;
          already = false;
          spendable_after = spendable a -ℤ params.lamports;
        },
      )
unfolding reserve_tx
reserve_tx-new params a b there unreserved enough =
    rw (there, reserve_tx) (rw (unreserved, reserve_tx) (reserve_new-done params a b there enough))

reserve_tx-again :
    (params existing : StakeReservation) (a : PoolAccount) (b : Books)
    → find_account a.id b.accounts ≡ some a
    → find_reservation params.user params.tier b.reservations ≡ some existing
    → reserve_tx params a b
      ≡ ok (
        b,
        record { reserved = existing.lamports; already = true; spendable_after = spendable a },
      )
unfolding reserve_tx
reserve_tx-again params existing a b there reserved =
    rw (there, reserve_tx) (rw (reserved, reserve_tx) refl)

custody_kept :
    (user : ℕ) (b : Books) (a : PoolAccount)
    → find_custody user b.accounts ≡ some a
    → get_or_create_custody user b ≡ (b, a)
unfolding get_or_create_custody
custody_kept user b a h = rw (h, get_or_create_custody) refl

reserve_entry_fee-paid :
    (params : StakeReservation) (b : Books) (a : PoolAccount)
    → ltb_ℤ (pos 0) params.lamports ≡ true
    → find_custody params.user b.accounts ≡ some a
    → reserve_entry_fee params b ≡ commit b (reserve_tx params a b)
unfolding reserve_entry_fee
reserve_entry_fee-paid params b a paid h =
    let kept = custody_kept params.user b a h in
    let sound : ltb_ℤ params.lamports (pos 0) ≡ false = ground arith in
    let stakes : int_eq params.lamports (pos 0) ≡ false = ground arith in
    rw (kept, sound, stakes) refl

str_same : (s : String) → str_eq s s ≡ true
str_same s = (eq_iff s s).1 refl

reservation_there :
    (params : StakeReservation) (rs : List StakeReservation)
    → find_reservation params.user params.tier (params ∷ rs) ≡ some params
unfolding find_reservation
reservation_there params rs = let e = str_same params.tier in ground (arith, e)

spent_once :
    (a : PoolAccount) (l : ℤ)
    → ltb_ℤ (spendable a) l ≡ false
    → ltb_ℤ (pos 0) l ≡ true
    → spendable (set_reserved (a.reserved +ℤ l) a) ≡ spendable a -ℤ l
spent_once a l h k = spendable_after a.balance a.reserved l h k

-- A player who has a custody account, no reservation for the room yet, and at least the positive
-- fee to spend, account identifiers being distinct, reserves the fee: what is reserved goes up by
-- the fee and the reservation is stored. Asking again changes nothing and reports the same
-- reservation, as one that was already there, with the same rest to spend.
pub reserve_entry_fee_once :
    (params : StakeReservation) (b : Books) (a : PoolAccount)
    → DistinctIds b.accounts
    → find_custody params.user b.accounts ≡ some a
    → find_reservation params.user params.tier b.reservations ≡ none
    → ltb_ℤ (pos 0) params.lamports ≡ true
    → ltb_ℤ (spendable a) params.lamports ≡ false
    → (reserve_entry_fee params b ≡ (
      with_reservation params a b,
      ok (record {
        reserved = params.lamports;
        already = false;
        spendable_after = spendable a -ℤ params.lamports;
      }),
    ))
      × (reserve_entry_fee params (with_reservation params a b) ≡ (
        with_reservation params a b,
        ok (record {
          reserved = params.lamports;
          already = true;
          spendable_after = spendable a -ℤ params.lamports;
        }),
      ))
unfolding find_custody find_account
reserve_entry_fee_once params b a distinct mine unreserved paid enough =
    let there = find_account-of_found (custody_named params.user) b.accounts a distinct mine in
    let c : PoolAccount = set_reserved (a.reserved +ℤ params.lamports) a in
    let after = with_reservation params a b in
    let named : custody_named params.user c ≡ true =
      found_is (custody_named params.user) b.accounts a mine in
    let mine_after =
      find-replaced (custody_named params.user) (set_reserved (a.reserved +ℤ params.lamports))
        b.accounts a mine there named in
    let there_after =
      find-replaced (λ x. x.id == a.id) (set_reserved (a.reserved +ℤ params.lamports)) b.accounts a
        there there (found_is (λ x. x.id == a.id) b.accounts a there) in
    (
      reserve_entry_fee-paid params b a paid mine
          ∙ ap (commit b) (reserve_tx-new params a b there unreserved enough),
      reserve_entry_fee-paid params after c paid mine_after
          ∙ ap (commit after) (
              reserve_tx-again params params c after there_after
                (reservation_there params b.reservations))
          ∙ ap
              (λ s. (
                after,
                ok (record { reserved = params.lamports; already = true; spendable_after = s }),
              ))
              (spent_once a params.lamports enough paid),
    )
