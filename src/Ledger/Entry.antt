-- ===== src/Ledger/Entry.antt =====
-- The gateway's double-entry writer (apps/gateway/src/services/ledger.ts): an entry is a group of
-- legs that must balance, posted with the pool balances in one transaction.
-- An entry's references to a deposit, a withdrawal or a reward only document it and are left out.
pub mod Balance
pub mod Overdraft
use solana_snake_arena.Base.{
  ℕ, ◌+◌, Bool, true, false, not, ◌&&◌, Option, none, some, List, [], ◌∷◌, if◌then◌else◌, ltb,
  length,
}
use solana_snake_arena.Base.Int.{ℤ, pos, ◌+ℤ◌, ◌-ℤ◌, ltb_ℤ, leb_ℤ, int_eq}
use solana_snake_arena.Ledger.{
  PoolAccountKind, user_custody, game_escrow, treasury, rake, rewards, external, PoolAccount,
  TransactionType, Direction, credit, debit, posted, entry_leg, Posting, imbalance, invalid_leg,
  insufficient_pool_funds, pool_account_missing, conflict, already_posted, duplicate_key,
  LedgerError, Attempt, ok, fail, ◌>>=◌, ◌>>◌, throw_if, or_throw, find_account, update_account,
  set_balance, post, signed_amount,
}

pub record LedgerLeg : Type 0 where
  pub pool_account : ℕ
  pub user : Option ℕ
  pub direction : Direction
  pub amount : ℤ

pub record PostEntryParams : Type 0 where
  pub type : TransactionType
  pub legs : List LedgerLeg
  pub idempotency_key_base : ℕ
  pub game : Option ℕ

pub record Sums : Type 0 where
  pub credits : ℤ
  pub debits : ℤ

abbrev pub add_leg : Direction → ℤ → Sums → Sums
add_leg credit amount s = record s { credits = s.credits +ℤ amount }
add_leg debit amount s = record s { debits = s.debits +ℤ amount }

-- The loop of `assertBalanced`.
pub sum_legs : List LedgerLeg → Sums → Attempt Sums
sum_legs [] s = ok s
sum_legs (leg ∷ legs) s =
    throw_if (leb_ℤ leg.amount (pos 0)) invalid_leg
    >> sum_legs legs (add_leg leg.direction leg.amount s)

abbrev pub check_sums : Sums → Attempt Sums
check_sums s = throw_if (not (int_eq s.credits s.debits)) (imbalance s.credits s.debits) >> ok s

pub assert_balanced : List LedgerLeg → Attempt Sums
assert_balanced legs =
    throw_if (ltb (length legs) 2) (imbalance (pos 0) (pos 0))
    >> (sum_legs legs (record { credits = pos 0; debits = pos 0 }) >>= check_sums)

abbrev pub may_go_negative : PoolAccountKind → Bool
may_go_negative external = true
may_go_negative _ = false

abbrev pub delta : LedgerLeg → ℤ
delta leg = signed_amount leg.direction leg.amount

-- `updateMany` found no row under the version that was read.
abbrev pub or_conflict {ℓ} : {A : Type ℓ} → Attempt A → Attempt A
or_conflict (ok a) = ok a
or_conflict (fail e) = fail conflict

abbrev pub leg_posting : PostEntryParams → ℕ → LedgerLeg → PoolAccount → ℤ → Posting
leg_posting params index leg account next = record {
  type = params.type;
  direction = leg.direction;
  status = posted;
  amount = leg.amount;
  balance_after = next;
  user = leg.user;
  account = account.id;
  game = params.game;
  key = entry_leg params.idempotency_key_base index;
}

-- The writes for one leg: the account, then the row of `transactions`.
pub write_leg :
    PostEntryParams
    → ℕ
    → LedgerLeg
    → PoolAccount
    → ℤ
    → List PoolAccount
    → List Posting
    → Attempt (List PoolAccount × List Posting)
write_leg params index leg account next rows ps = do
  updated ← or_conflict (update_account account.id account.version (set_balance next) rows)
  created ← post (leg_posting params index leg account next) ps
  ok (updated, created)

-- One turn of the loop of `postEntry`, on the account it read.
abbrev pub post_on :
    PostEntryParams
    → ℕ
    → LedgerLeg
    → PoolAccount
    → List PoolAccount
    → List Posting
    → Attempt (List PoolAccount × List Posting)
post_on params index leg account rows ps =
    throw_if (ltb_ℤ (account.balance +ℤ delta leg) (pos 0) && not (may_go_negative account.kind))
      insufficient_pool_funds
    >> write_leg params index leg account (account.balance +ℤ delta leg) rows ps

pub post_leg :
    PostEntryParams
    → ℕ
    → LedgerLeg
    → List PoolAccount
    → List Posting
    → Attempt (List PoolAccount × List Posting)
post_leg params index leg rows ps =
    or_throw (find_account leg.pool_account rows) pool_account_missing
    >>= (λ account. post_on params index leg account rows ps)

pub post_legs :
    PostEntryParams
    → ℕ
    → List LedgerLeg
    → List PoolAccount
    → List Posting
    → Attempt (List PoolAccount × List Posting)
post_legs params index [] rows ps = ok (rows, ps)
post_legs params index (leg ∷ legs) rows ps =
    post_leg params index leg rows ps >>= (λ r. post_legs params (index + 1) legs r.0 r.1)

abbrev pub named_error : LedgerError → LedgerError
named_error duplicate_key = already_posted
named_error e = e

abbrev pub name_duplicate {ℓ} : {A : Type ℓ} → Attempt A → Attempt A
name_duplicate (ok a) = ok a
name_duplicate (fail e) = fail (named_error e)

pub post_entry :
    PostEntryParams → List PoolAccount → List Posting → Attempt (List PoolAccount × List Posting)
post_entry params rows ps =
    assert_balanced params.legs
    >>= (λ sums. name_duplicate (post_legs params 0 params.legs rows ps))
