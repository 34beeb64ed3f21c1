-- ===== src/Ledger/Entry/Overdraft.antt =====
-- Balances below zero, and the posting of an entry (apps/gateway/src/services/ledger.ts).
use solana_snake_arena.Base.{
  ℕ, ◌+◌, ◌≡◌, refl, ap, ◌∙◌, Bool, true, false, not, ◌&&◌, ◌||◌, some, List, [], ◌∷◌, inl, inr,
  arith, ◌==◌, Bool-cases, if◌then◌else◌, every,
}
use solana_snake_arena.Base.Int.{ℤ, pos, ◌+ℤ◌, ltb_ℤ, leb_ℤ}
use solana_snake_arena.Ledger.{
  PoolAccountKind, user_custody, game_escrow, treasury, rake, rewards, external, PoolAccount,
  Posting, row_missing, Attempt, ok, fail, Ensures, find_account, update_account, set_balance, post,
}
use solana_snake_arena.Ledger.Accounts.{find_account-id}
use solana_snake_arena.Ledger.Transfer.{Ensures-bind}
use solana_snake_arena.Ledger.Entry.{
  LedgerLeg, PostEntryParams, assert_balanced, may_go_negative, delta, leg_posting, write_leg,
  post_on, post_leg, post_legs, post_entry,
}
use solana_snake_arena.Ledger.Entry.Balance.{
  Ensures-or_conflict, Ensures-or_throw, Ensures-name_duplicate,
}

-- An account outside the system.
abbrev pub is_external : PoolAccountKind → Bool
is_external external = true
is_external _ = false

-- An account that is not overdrawn, or lies outside the system.
abbrev pub is_covered : PoolAccount → Bool
is_covered a = is_external a.kind || leb_ℤ (pos 0) a.balance

may_go_negative-external : (kind : PoolAccountKind) → may_go_negative kind ≡ is_external kind
may_go_negative-external user_custody = refl
may_go_negative-external game_escrow = refl
may_go_negative-external treasury = refl
may_go_negative-external rake = refl
may_go_negative-external rewards = refl
may_go_negative-external external = refl

guarded_is_covered :
    (kind : PoolAccountKind) (balance : ℤ)
    → (ltb_ℤ balance (pos 0) && not (may_go_negative kind)) ≡ false
    → (is_external kind || leb_ℤ (pos 0) balance) ≡ true
guarded_is_covered kind balance h = ground (arith, may_go_negative-external kind)

Ensures-unit {ℓ} : {A : Type ℓ} (m : Attempt A) → Ensures (λ a. Unit {0}) m
Ensures-unit (ok a) = tt
Ensures-unit (fail e) = tt

first_covered :
    (p : PoolAccount → Bool) (change : PoolAccount → PoolAccount) (version : ℕ) (b : PoolAccount)
    (rows : List PoolAccount)
    → p (change b) ≡ true
    → every p rows ≡ true
    → Ensures
        (λ bs. every p bs ≡ true)
        (if b.version == version then ok (change b ∷ rows) else fail row_missing)
first_covered p change version b rows now rest = elim (Bool-cases (b.version == version)) [
  | inl current ↦ rw current (rw now rest)
  | inr stale ↦ rw stale tt
]

rest_covered :
    (p : PoolAccount → Bool) (b : PoolAccount) (m : Attempt (List PoolAccount))
    → p b ≡ true
    → Ensures (λ bs. every p bs ≡ true) m
    → Ensures (λ bs. every p bs ≡ true) (elim m [ ok bs ↦ ok (b ∷ bs) | fail e ↦ fail e ])
rest_covered p b (ok bs) h k = rw h k
rest_covered p b (fail e) h k = tt

every-update_account :
    (p : PoolAccount → Bool) (id version : ℕ) (change : PoolAccount → PoolAccount)
    (rows : List PoolAccount) (a : PoolAccount)
    → every p rows ≡ true
    → find_account id rows ≡ some a
    → p (change a) ≡ true
    → Ensures (λ bs. every p bs ≡ true) (update_account id version change rows)
unfolding update_account find_account
every-update_account p id version change [] a h k t = tt
every-update_account p id version change (b ∷ rows) a h k t = elim (Bool-cases (b.id == id)) [
  | inl here ↦
      let same : b ≡ a = ground arith in
      let now : p (change b) ≡ true = ap (λ x. p (change x)) same ∙ t in
      let rest : every p rows ≡ true = ground arith in
      rw here (first_covered p change version b rows now rest)
  | inr other ↦
      let later : find_account id rows ≡ some a = ground arith in
      let mine : p b ≡ true = ground arith in
      let rest : every p rows ≡ true = ground arith in
      rw other (
        rest_covered p b (update_account id version change rows) mine
          (every-update_account p id version change rows a rest later t))
]

write_leg_covered :
    (params : PostEntryParams) (index : ℕ) (leg : LedgerLeg) (account : PoolAccount) (next : ℤ)
    (rows : List PoolAccount) (ps : List Posting)
    → every is_covered rows ≡ true
    → find_account account.id rows ≡ some account
    → is_covered (set_balance next account) ≡ true
    → Ensures (λ r. every is_covered r.0 ≡ true) (write_leg params index leg account next rows ps)
unfolding write_leg
write_leg_covered params index leg account next rows ps h there t =
    Ensures-bind (λ bs. every is_covered bs ≡ true) (λ r. every is_covered r.0 ≡ true) _ _
      (Ensures-or_conflict _ (update_account account.id account.version (set_balance next) rows) (
        every-update_account is_covered account.id account.version (set_balance next) rows account h
          there t))
      (λ bs k.
        Ensures-bind (λ qs. Unit {0}) (λ r. every is_covered r.0 ≡ true)
          (post (leg_posting params index leg account next) ps) _ (Ensures-unit _) (λ qs u. k))

post_on_covered :
    (params : PostEntryParams) (index : ℕ) (leg : LedgerLeg) (account : PoolAccount)
    (rows : List PoolAccount) (ps : List Posting)
    → every is_covered rows ≡ true
    → find_account account.id rows ≡ some account
    → Ensures (λ r. every is_covered r.0 ≡ true) (post_on params index leg account rows ps)
post_on_covered params index leg account rows ps h there =
    elim (Bool-cases
      (ltb_ℤ (account.balance +ℤ delta leg) (pos 0) && not (may_go_negative account.kind))) [
        | inl short ↦ rw short tt
        | inr covered ↦ rw covered (
            write_leg_covered params index leg account (account.balance +ℤ delta leg) rows ps h
              there (guarded_is_covered account.kind (account.balance +ℤ delta leg) covered))
      ]

post_leg_covered :
    (params : PostEntryParams) (index : ℕ) (leg : LedgerLeg) (rows : List PoolAccount)
    (ps : List Posting)
    → every is_covered rows ≡ true
    → Ensures (λ r. every is_covered r.0 ≡ true) (post_leg params index leg rows ps)
unfolding post_leg
post_leg_covered params index leg rows ps h =
    Ensures-or_throw (λ r. every is_covered r.0 ≡ true) (find_account leg.pool_account rows) _ _
      (λ account there. post_on_covered params index leg account rows ps h (
        ap (λ i. find_account i rows) (find_account-id leg.pool_account rows account there)
        ∙ there))

post_legs_covered :
    (params : PostEntryParams) (index : ℕ) (legs : List LedgerLeg) (rows : List PoolAccount)
    (ps : List Posting)
    → every is_covered rows ≡ true
    → Ensures (λ r. every is_covered r.0 ≡ true) (post_legs params index legs rows ps)
unfolding post_legs
post_legs_covered params index [] rows ps h = h
post_legs_covered params index (leg ∷ legs) rows ps h =
    Ensures-bind (λ r. every is_covered r.0 ≡ true) (λ r. every is_covered r.0 ≡ true)
      (post_leg params index leg rows ps) _ (post_leg_covered params index leg rows ps h)
      (λ r k. post_legs_covered params (index + 1) legs r.0 r.1 k)

-- Posting an entry, when it commits, overdraws no pool account but the external one: if none was
-- overdrawn before, none is after, whatever the order of the legs.
pub post_entry_covered :
    (params : PostEntryParams) (rows : List PoolAccount) (ps : List Posting)
    → every is_covered rows ≡ true
    → Ensures (λ r. every is_covered r.0 ≡ true) (post_entry params rows ps)
unfolding post_entry
post_entry_covered params rows ps h =
    Ensures-bind (λ s. Unit {0}) (λ r. every is_covered r.0 ≡ true) (assert_balanced params.legs) _
      (Ensures-unit _)
      (λ s u.
        Ensures-name_duplicate (λ r. every is_covered r.0 ≡ true)
          (post_legs params 0 params.legs rows ps)
          (post_legs_covered params 0 params.legs rows ps h))
