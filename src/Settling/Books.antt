-- ===== src/Settling/Books.antt =====
-- The double-entry legs of a settled match (apps/worker/src/settlement/settle.ts:
-- `postSettlementLedger` and `recordRewards`).
use solana_snake_arena.Base.{
  ℕ, Bool, true, false, not, ◌&&◌, Option, none, some, List, [], ◌∷◌, ◌==◌, if◌then◌else◌, find,
  any, String,
}
use text.Mathlib.Text.{◌==◌ as str_eq}
use solana_snake_arena.Base.Int.{ℤ, pos, ◌+ℤ◌, ◌-ℤ◌, ltb_ℤ}
use solana_snake_arena.Ledger.{
  PoolAccount, custody_of, escrow_of, system_account, TransactionType, payout, rake_fee, credit,
  debit, posted, settle_leg, settle_escrow_leg, rake_leg, rake_escrow_leg, Posting, Books, Attempt,
  ok, ◌>>=◌, find_owner, update_account, set_balance, move_and_post,
}
use solana_snake_arena.Ledger.Refund.{same_option}
use solana_snake_arena.Settlement.Payout.{PayoutShare}

abbrev pub escrow_named : ℕ → PoolAccount → Bool
escrow_named game a = elim a.name [
  | custody_of u ↦ false
  | escrow_of g ↦ g == game
  | system_account s ↦ false
]

abbrev pub system_named : String → PoolAccount → Bool
system_named name a = elim a.name [
  | custody_of u ↦ false
  | escrow_of g ↦ false
  | system_account s ↦ str_eq s name
]

-- `poolAccount.findUnique({ where: { name } })`, for an escrow and for a system account.
unfoldable pub find_escrow_named : ℕ → List PoolAccount → Option PoolAccount
find_escrow_named game = find (escrow_named game)

unfoldable pub find_system : String → List PoolAccount → Option PoolAccount
find_system name = find (system_named name)

abbrev pub is_payout_type : TransactionType → Bool
is_payout_type payout = true
is_payout_type _ = false

-- `transaction.findFirst({ where: { gameId, type: PAYOUT } })`
unfoldable pub already_posted_for : ℕ → List Posting → Bool
already_posted_for game =
    any (λ (p : Posting). same_option p.game (some game) && is_payout_type p.type)

abbrev pub payout_debit : ℕ → PayoutShare → PoolAccount → ℤ → Posting
payout_debit game share escrow after = record {
  type = payout;
  direction = debit;
  status = posted;
  amount = share.lamports;
  balance_after = after;
  user = none;
  account = escrow.id;
  game = some game;
  key = settle_escrow_leg game share.player_id;
}

abbrev pub payout_credit : ℕ → PayoutShare → PoolAccount → Posting
payout_credit game share custody = record {
  type = payout;
  direction = credit;
  status = posted;
  amount = share.lamports;
  balance_after = custody.balance +ℤ share.lamports;
  user = some share.player_id;
  account = custody.id;
  game = some game;
  key = settle_leg game share.player_id;
}

abbrev pub rake_debit : ℕ → ℤ → PoolAccount → ℤ → Posting
rake_debit game rake escrow after = record {
  type = rake_fee;
  direction = debit;
  status = posted;
  amount = rake;
  balance_after = after;
  user = none;
  account = escrow.id;
  game = some game;
  key = rake_escrow_leg game;
}

abbrev pub rake_credit : ℕ → ℤ → PoolAccount → Posting
rake_credit game rake account = record {
  type = rake_fee;
  direction = credit;
  status = posted;
  amount = rake;
  balance_after = account.balance +ℤ rake;
  user = none;
  account = account.id;
  game = some game;
  key = rake_leg game;
}

-- The loop's variable, with the tables it writes.
pub record Emptying : Type 0 where
  pub accounts : List PoolAccount
  pub postings : List Posting
  pub escrow_balance : ℤ

-- One transfer out of the escrow.
abbrev pub pay_account : PoolAccount → ℤ → Posting → Posting → Emptying → Attempt Emptying
pay_account account lamports first second s = do
  both ←
      move_and_post account (set_balance (account.balance +ℤ lamports)) first second s.accounts
        s.postings
  ok (record {
    accounts = both.0;
    postings = both.1;
    escrow_balance = s.escrow_balance -ℤ lamports;
  })

abbrev pub pay_share : ℕ → PoolAccount → PayoutShare → Emptying → Attempt Emptying
pay_share game escrow share s = elim (find_owner share.player_id s.accounts) [
  | none ↦ ok s
  | some custody ↦
      pay_account custody share.lamports
        (payout_debit game share escrow (s.escrow_balance -ℤ share.lamports))
        (payout_credit game share custody) s
]

unfoldable pub pay_shares : ℕ → PoolAccount → List PayoutShare → Emptying → Attempt Emptying
pay_shares game escrow [] s = ok s
pay_shares game escrow (share ∷ shares) s =
    pay_share game escrow share s >>= pay_shares game escrow shares

-- The platform fee, if there is one and an account for it.
abbrev pub pay_rake : ℕ → PoolAccount → ℤ → Emptying → Attempt Emptying
pay_rake game escrow rake s =
    if not (ltb_ℤ (pos 0) rake) then ok s else elim (find_system "rake" s.accounts) [
      | none ↦ ok s
      | some account ↦
          pay_account account rake (rake_debit game rake escrow (s.escrow_balance -ℤ rake))
            (rake_credit game rake account) s
    ]

abbrev pub close_escrow : PoolAccount → Books → Emptying → Attempt Books
close_escrow escrow b s =
    update_account escrow.id escrow.version (set_balance s.escrow_balance) s.accounts
    >>= (λ rows. ok (record b { accounts = rows; postings = s.postings }))

-- The transaction of `postSettlementLedger`.
unfoldable pub empty_escrow : ℕ → PoolAccount → List PayoutShare → ℤ → Books → Attempt Books
empty_escrow game escrow payouts rake b =
    (pay_shares game escrow payouts
        (record { accounts = b.accounts; postings = b.postings; escrow_balance = escrow.balance })
      >>= pay_rake game escrow rake)
    >>= close_escrow escrow b

unfoldable pub post_settlement_ledger : ℕ → List PayoutShare → ℤ → Books → Attempt Books
post_settlement_ledger game payouts rake b = elim (find_escrow_named game b.accounts) [
  | none ↦ ok b
  | some escrow ↦
      if already_posted_for game b.postings then ok b else empty_escrow game escrow payouts rake b
]
