-- ===== src/Ledger/Stake.antt =====
-- Entry fees (packages/db/src/stake.ts): reserving one when a player joins a paid room, releasing
-- it, and consuming a room's reservations into a game's escrow when the match starts.
-- `reserve_entry_fee` opens the custody account before its transaction, so the books it leaves
-- stand beside the transaction's result.
pub mod Reserve
pub mod Consume
pub mod Ready
pub mod Completes
use solana_snake_arena.Base.{
  ℕ, ◌+◌, String, Bool, true, false, not, ◌&&◌, Option, none, some, List, [], ◌∷◌, if◌then◌else◌,
  filter, find, ◌==◌,
}
use text.Mathlib.Text.{◌==◌ as str_eq}
use solana_snake_arena.Base.Int.{ℤ, pos, ◌+ℤ◌, ◌-ℤ◌, ltb_ℤ, int_eq}
use solana_snake_arena.Ledger.{
  PoolAccount, entry_fee, credit, debit, posted, IdempotencyKey, stake_leg, stake_escrow_leg,
  Posting, StakeReservation, Books, negative_fee, insufficient_balance, stake_mismatch,
  stake_exceeds_balance, row_missing, Attempt, ok, fail, ◌>>=◌, ◌>>◌, throw_if, or_throw,
  find_owner, find_account, find_custody, new_custody, create_custody, update_account, set_balance,
  set_reserved, set_balances, move_and_post,
}

-- `value > 0n ? value : 0n`
abbrev pub clamp : ℤ → ℤ
clamp value = if ltb_ℤ (pos 0) value then value else pos 0

-- `reserved > lamports ? reserved - lamports : 0n`
abbrev pub less_reserved : ℤ → ℤ → ℤ
less_reserved reserved lamports = if ltb_ℤ lamports reserved then reserved -ℤ lamports else pos 0

abbrev pub spendable : PoolAccount → ℤ
spendable a = clamp (a.balance -ℤ a.reserved)

pub get_or_create_custody : ℕ → Books → Books × PoolAccount
get_or_create_custody user b = elim (find_custody user b.accounts) [
  | some existing ↦ (b, existing)
  | none ↦ (create_custody user b, new_custody b.next_id user)
]

abbrev pub is_reservation : ℕ → String → StakeReservation → Bool
is_reservation user tier r = r.user == user && str_eq r.tier tier

-- `stakeReservation.findUnique({ where: { userId_tierId } })`
unfoldable pub find_reservation : ℕ → String → List StakeReservation → Option StakeReservation
find_reservation user tier = find (is_reservation user tier)

pub record ReserveResult : Type 0 where
  pub reserved : ℤ
  pub already : Bool
  pub spendable_after : ℤ

-- The transaction of `reserve_entry_fee` for a stake that is not there yet.
abbrev pub reserve_new : StakeReservation → PoolAccount → Books → Attempt (Books × ReserveResult)
reserve_new params account b = do
  throw_if (ltb_ℤ (spendable account) params.lamports)
      (insufficient_balance params.lamports (spendable account))
  rows ←
      update_account account.id account.version (set_reserved (account.reserved +ℤ params.lamports))
        b.accounts
  ok (
    record b { accounts = rows; reservations = params ∷ b.reservations },
    record {
      reserved = params.lamports;
      already = false;
      spendable_after = spendable account -ℤ params.lamports;
    },
  )

pub reserve_tx : StakeReservation → PoolAccount → Books → Attempt (Books × ReserveResult)
reserve_tx params custody b = do
  account ← or_throw (find_account custody.id b.accounts) row_missing
  elim (find_reservation params.user params.tier b.reservations) [
    | some existing ↦ ok (
      b,
      record { reserved = existing.lamports; already = true; spendable_after = spendable account },
    )
    | none ↦ reserve_new params account b
  ]

-- The books after a transaction: its own when it commits, those before it when it fails.
abbrev pub commit {ℓ} : {A : Type ℓ} → Books → Attempt (Books × A) → Books × Attempt A
commit b (ok r) = (r.0, ok r.1)
commit b (fail e) = (b, fail e)

pub reserve_entry_fee : StakeReservation → Books → Books × Attempt ReserveResult
reserve_entry_fee params b =
    let opened = get_or_create_custody params.user b in
    if ltb_ℤ params.lamports (pos 0)
    then (b, fail negative_fee)
    else if int_eq params.lamports (pos 0)
    then (
      opened.0,
      ok (record { reserved = pos 0; already = false; spendable_after = spendable opened.1 }),
    )
    else commit opened.0 (reserve_tx params opened.1 opened.0)

abbrev pub release_account :
    StakeReservation → PoolAccount → List PoolAccount → Attempt (List PoolAccount)
release_account existing custody rows =
    update_account custody.id custody.version
      (set_reserved (less_reserved custody.reserved existing.lamports)) rows

-- The books, and the lamports released.
pub release_entry_fee : ℕ → String → Books → Attempt (Books × ℤ)
release_entry_fee user tier b = elim (find_reservation user tier b.reservations) [
  | none ↦ ok (b, pos 0)
  | some existing ↦ do
    rows ← elim (find_owner user b.accounts) [
      | none ↦ ok b.accounts
      | some custody ↦ release_account existing custody b.accounts
    ]
    ok (
      record b {
        accounts = rows;
        reservations = filter (λ r. not (is_reservation user tier r)) b.reservations;
      },
      existing.lamports,
    )
]

abbrev pub in_tier : String → StakeReservation → Bool
in_tier tier r = str_eq r.tier tier

unfoldable pub reservations_for_tier : String → List StakeReservation → List StakeReservation
reservations_for_tier tier = filter (in_tier tier)

-- `rows.reduce((sum, row) => sum + row.lamports, 0n)`
pub staked_from : ℤ → List StakeReservation → ℤ
staked_from sum [] = sum
staked_from sum (r ∷ rs) = staked_from (sum +ℤ r.lamports) rs

-- The variables of the loop of `consume_reservations`, with the tables it writes.
pub record Consuming : Type 0 where
  pub accounts : List PoolAccount
  pub postings : List Posting
  pub escrow_balance : ℤ
  pub total : ℤ
  pub consumed : ℕ

abbrev pub stake_debit : ℕ → StakeReservation → PoolAccount → Posting
stake_debit game row custody = record {
  type = entry_fee;
  direction = debit;
  status = posted;
  amount = row.lamports;
  balance_after = custody.balance -ℤ row.lamports;
  user = some row.user;
  account = custody.id;
  game = some game;
  key = stake_leg game row.user;
}

abbrev pub stake_credit : ℕ → StakeReservation → PoolAccount → ℤ → Posting
stake_credit game row escrow after = record {
  type = entry_fee;
  direction = credit;
  status = posted;
  amount = row.lamports;
  balance_after = after;
  user = some row.user;
  account = escrow.id;
  game = some game;
  key = stake_escrow_leg game row.user;
}

-- One turn of the loop, for a player whose custody account was found.
abbrev pub consume_from :
    ℕ → PoolAccount → StakeReservation → PoolAccount → Consuming → Attempt Consuming
consume_from game escrow row custody s = do
  throw_if (ltb_ℤ custody.balance row.lamports) (stake_exceeds_balance row.user)
  both ←
      move_and_post custody
        (set_balances (custody.balance -ℤ row.lamports)
          (less_reserved custody.reserved row.lamports))
        (stake_debit game row custody)
        (stake_credit game row escrow (s.escrow_balance +ℤ row.lamports)) s.accounts s.postings
  ok (record {
    accounts = both.0;
    postings = both.1;
    escrow_balance = s.escrow_balance +ℤ row.lamports;
    total = s.total +ℤ row.lamports;
    consumed = s.consumed + 1;
  })

abbrev pub consume_row : ℕ → PoolAccount → StakeReservation → Consuming → Attempt Consuming
consume_row game escrow row s = elim (find_owner row.user s.accounts) [
  | none ↦ ok s
  | some custody ↦ consume_from game escrow row custody s
]

pub consume_rows : ℕ → PoolAccount → List StakeReservation → Consuming → Attempt Consuming
consume_rows game escrow [] s = ok s
consume_rows game escrow (row ∷ rows) s =
    consume_row game escrow row s >>= consume_rows game escrow rows

pub record ConsumeResult : Type 0 where
  pub consumed : ℕ
  pub total_lamports : ℤ

abbrev pub opening : PoolAccount → Books → Consuming
opening escrow b = record {
  accounts = b.accounts;
  postings = b.postings;
  escrow_balance = escrow.balance;
  total = pos 0;
  consumed = 0;
}

-- What is committed, and returned.
abbrev pub consumed_result : String → Books → Consuming → List PoolAccount → Books × ConsumeResult
consumed_result tier b s closed = (
  record b {
    accounts = closed;
    postings = s.postings;
    reservations = filter (λ r. not (in_tier tier r)) b.reservations;
  },
  record { consumed = s.consumed; total_lamports = s.total },
)

abbrev pub consume_into :
    String → ℕ → PoolAccount → List StakeReservation → Books → Attempt (Books × ConsumeResult)
consume_into tier game escrow rows b = do
  s ← consume_rows game escrow rows (opening escrow b)
  closed ← update_account escrow.id escrow.version (set_balance s.escrow_balance) s.accounts
  ok (consumed_result tier b s closed)

abbrev pub mismatch : Option ℤ → ℤ → Attempt (Unit {0})
mismatch none staked = ok tt
mismatch (some expected) staked =
    throw_if (not (int_eq staked expected)) (stake_mismatch staked expected)

abbrev pub consume_found :
    String → ℕ → ℕ → List StakeReservation → Books → Attempt (Books × ConsumeResult)
consume_found tier game escrow_id [] b = ok (b, record { consumed = 0; total_lamports = pos 0 })
consume_found tier game escrow_id (row ∷ more) b =
    or_throw (find_account escrow_id b.accounts) row_missing
    >>= (λ escrow. consume_into tier game escrow (row ∷ more) b)

pub consume_reservations : String → ℕ → ℕ → Option ℤ → Books → Attempt (Books × ConsumeResult)
consume_reservations tier game escrow_id expected b =
    let rows = reservations_for_tier tier b.reservations in
    mismatch expected (staked_from (pos 0) rows) >> consume_found tier game escrow_id rows b
