-- ===== src/Ledger.antt =====
-- The double-entry books: the tables of packages/db/prisma/schema.prisma that money moves through,
-- and what the database does for packages/db/src/stake.ts, refund.ts and the gateway's ledger.ts.
-- A database transaction is an `Attempt`: it commits a new state, or fails and leaves the old one.
-- Transactions are taken one after another; the version check of an update is kept, since within
-- one transaction it tells a row that was written in between.
-- Identifiers are numbers, and a new row takes the next one, with the schema's defaults.
pub mod Accounts
pub mod Transfer
pub mod Stake
pub mod Entry
pub mod Refund
pub mod Tests
use solana_snake_arena.Base.{
  ℕ, ◌+◌, String, Bool, true, false, not, ◌&&◌, Option, none, some, List, [], ◌∷◌, ◌++◌, ◌==◌,
  if◌then◌else◌, any, filter, find,
}
use solana_snake_arena.Base.Int.{ℤ, pos, ◌+ℤ◌, ◌-ℤ◌}

pub data PoolAccountKind : Type 0 where
  user_custody game_escrow treasury rake rewards external : PoolAccountKind

-- `name`, which is unique: `custody:<user>`, `escrow:<game>`, or a system account's.
pub data AccountName : Type 0 where
  custody_of escrow_of : ℕ → AccountName
  system_account : String → AccountName

pub record PoolAccount : Type 0 where
  pub id : ℕ
  pub name : AccountName
  pub kind : PoolAccountKind
  pub owner : Option ℕ
  pub game : Option ℕ
  pub balance : ℤ
  pub reserved : ℤ
  pub version : ℕ

pub data TransactionType : Type 0 where
  deposit withdrawal entry_fee payout rake_fee reward refund transfer adjustment : TransactionType

pub data Direction : Type 0 where
  credit debit : Direction

pub data TransactionStatus : Type 0 where
  pending posted reversed : TransactionStatus

-- The idempotency keys that the code writes, by their parts.
pub data IdempotencyKey : Type 0 where
  stake_leg stake_escrow_leg refund_leg refund_escrow_leg settle_leg settle_escrow_leg :
      (game user : ℕ) → IdempotencyKey
  rake_leg rake_escrow_leg : (game : ℕ) → IdempotencyKey
  entry_leg : (base index : ℕ) → IdempotencyKey

unfoldable pub key_eq : IdempotencyKey → IdempotencyKey → Bool
key_eq (stake_leg g u) (stake_leg h v) = g == h && u == v
key_eq (stake_escrow_leg g u) (stake_escrow_leg h v) = g == h && u == v
key_eq (refund_leg g u) (refund_leg h v) = g == h && u == v
key_eq (refund_escrow_leg g u) (refund_escrow_leg h v) = g == h && u == v
key_eq (settle_leg g u) (settle_leg h v) = g == h && u == v
key_eq (settle_escrow_leg g u) (settle_escrow_leg h v) = g == h && u == v
key_eq (rake_leg g) (rake_leg h) = g == h
key_eq (rake_escrow_leg g) (rake_escrow_leg h) = g == h
key_eq (entry_leg b i) (entry_leg c j) = b == c && i == j
key_eq _ _ = false

-- A row of `transactions`; what only documents it (description, metadata, group) is left out.
pub record Posting : Type 0 where
  pub type : TransactionType
  pub direction : Direction
  pub status : TransactionStatus
  pub amount : ℤ
  pub balance_after : ℤ
  pub user : Option ℕ
  pub account : ℕ
  pub game : Option ℕ
  pub key : IdempotencyKey

pub record StakeReservation : Type 0 where
  pub user : ℕ
  pub tier : String
  pub lamports : ℤ

-- The tables that a transaction reads and writes.
pub record Books : Type 0 where
  pub accounts : List PoolAccount
  pub postings : List Posting
  pub reservations : List StakeReservation
  pub next_id : ℕ

pub data LedgerError : Type 0 where
  negative_fee : LedgerError
  insufficient_balance : (required available : ℤ) → LedgerError
  stake_mismatch : (staked expected : ℤ) → LedgerError
  stake_exceeds_balance : (user : ℕ) → LedgerError
  row_missing : LedgerError  -- P2025: no row under that identifier and version
  duplicate_key : LedgerError  -- P2002 on the idempotency key
  game_not_found already_settled : (game : ℕ) → LedgerError
  refund_shortfall : (game : ℕ) (owed available : ℤ) → LedgerError
  imbalance : (credits debits : ℤ) → LedgerError
  invalid_leg insufficient_pool_funds pool_account_missing conflict already_posted : LedgerError

pub data Attempt {ℓ} (A : Type ℓ) : Type ℓ where
  ok : A → Attempt A
  fail : LedgerError → Attempt A

infixl 5 ◌>>=◌ ◌>>◌
abbrev pub ◌>>=◌ {ℓ κ} : {A : Type ℓ} {B : Type κ} → Attempt A → (A → Attempt B) → Attempt B
ok a >>= f = f a
fail e >>= f = fail e

abbrev pub ◌>>◌ {κ} : {B : Type κ} → Attempt (Unit {0}) → Attempt B → Attempt B
m >> k = m >>= λ _. k

-- `if (test) throw error`
abbrev pub throw_if : Bool → LedgerError → Attempt (Unit {0})
throw_if true e = fail e
throw_if false e = ok tt

-- `findUniqueOrThrow`
abbrev pub or_throw {ℓ} : {A : Type ℓ} → Option A → LedgerError → Attempt A
or_throw none e = fail e
or_throw (some a) e = ok a

-- What holds of the state that an attempt commits.
abbrev pub Ensures {ℓ κ} : {A : Type ℓ} → (A → Type κ) → Attempt A → Type κ
Ensures P (ok a) = P a
Ensures P (fail e) = Unit

abbrev pub owned_by : ℕ → PoolAccount → Bool
owned_by user a = elim a.owner [ none ↦ false | some u ↦ u == user ]

-- `poolAccount.findFirst({ where: { ownerUserId } })`
unfoldable pub find_owner : ℕ → List PoolAccount → Option PoolAccount
find_owner user = find (owned_by user)

unfoldable pub find_account : ℕ → List PoolAccount → Option PoolAccount
find_account id = find (λ a. a.id == id)

abbrev pub custody_named : ℕ → PoolAccount → Bool
custody_named user a = elim a.name [
  | custody_of u ↦ u == user
  | escrow_of g ↦ false
  | system_account s ↦ false
]

-- `poolAccount.findUnique({ where: { name: custody:<user> } })`
unfoldable pub find_custody : ℕ → List PoolAccount → Option PoolAccount
find_custody user = find (custody_named user)

-- `poolAccount.create({ data: { name, kind: USER_CUSTODY, ownerUserId } })`
abbrev pub new_custody : ℕ → ℕ → PoolAccount
new_custody id user = record {
  id = id;
  name = custody_of user;
  kind = user_custody;
  owner = some user;
  game = none;
  balance = pos 0;
  reserved = pos 0;
  version = 0;
}

abbrev pub create_custody : ℕ → Books → Books
create_custody user b = record b {
  accounts = new_custody b.next_id user ∷ b.accounts;
  next_id = b.next_id + 1;
}

-- `poolAccount.update({ where: { id, version }, data })`
pub update_account :
    ℕ → ℕ → (PoolAccount → PoolAccount) → List PoolAccount → Attempt (List PoolAccount)
update_account id version change [] = fail row_missing
update_account id version change (a ∷ rows) =
    let rest = update_account id version change rows in
    if a.id == id
    then (if a.version == version then ok (change a ∷ rows) else fail row_missing)
    else elim rest [ ok bs ↦ ok (a ∷ bs) | fail e ↦ fail e ]

-- `data: { balanceLamports, version: { increment: 1 } }`, and with `reservedLamports`.
abbrev pub set_balance : ℤ → PoolAccount → PoolAccount
set_balance balance a = record a { balance = balance; version = a.version + 1 }

abbrev pub set_reserved : ℤ → PoolAccount → PoolAccount
set_reserved reserved a = record a { reserved = reserved; version = a.version + 1 }

abbrev pub set_balances : ℤ → ℤ → PoolAccount → PoolAccount
set_balances balance reserved a = record a {
  balance = balance;
  reserved = reserved;
  version = a.version + 1;
}

-- An insert under the unique index on the idempotency key.
pub post : Posting → List Posting → Attempt (List Posting)
post p ps = if any (λ q. key_eq q.key p.key) ps then fail duplicate_key else ok (p ∷ ps)

-- One account's update and the two legs that record the transfer.
pub move_and_post :
    PoolAccount
    → (PoolAccount → PoolAccount)
    → (first second : Posting) → List PoolAccount
    → List Posting
    → Attempt (List PoolAccount × List Posting)
move_and_post custody change first second accounts postings = do
  moved ← update_account custody.id custody.version change accounts
  one ← post first postings
  both ← post second one
  ok (moved, both)

-- The lamports in all pools, and the net of all entries: the two sides of the books.
pub total_balance : List PoolAccount → ℤ
total_balance [] = pos 0
total_balance (a ∷ rows) = a.balance +ℤ total_balance rows

abbrev pub signed_amount : Direction → ℤ → ℤ
signed_amount credit amount = amount
signed_amount debit amount = pos 0 -ℤ amount

abbrev pub signed : Posting → ℤ
signed p = signed_amount p.direction p.amount

pub net : List Posting → ℤ
net [] = pos 0
net (p ∷ ps) = signed p +ℤ net ps
