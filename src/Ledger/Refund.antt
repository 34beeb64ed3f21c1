-- ===== src/Ledger/Refund.antt =====
-- Cancelling a game and returning its entry fees (packages/db/src/refund.ts). The amounts come from
-- the posted entries, grouped by player in the order of their first entry.
-- The caller's `audit` runs in the same transaction; it is a parameter, which may throw.
pub mod Balance
pub mod Cancel
use solana_snake_arena.Base.{
  ℕ, ◌+◌, Bool, true, false, not, ◌&&◌, ◌||◌, Option, none, some, List, [], ◌∷◌, if◌then◌else◌,
  filter, find, any, length, ◌==◌,
}
use solana_snake_arena.Base.Int.{ℤ, pos, ◌+ℤ◌, ◌-ℤ◌, ltb_ℤ, leb_ℤ}
use solana_snake_arena.Ledger.{
  PoolAccount, TransactionType, deposit, withdrawal, entry_fee, payout, rake_fee, reward, refund,
  transfer, adjustment, Direction, credit, debit, TransactionStatus, pending, posted, reversed,
  refund_leg, refund_escrow_leg, Posting, Books, game_not_found, already_settled, refund_shortfall,
  Attempt, ok, fail, ◌>>=◌, ◌>>◌, throw_if, or_throw, find_owner, new_custody, create_custody,
  update_account, set_balance, move_and_post,
}

pub data GameStatus : Type 0 where
  game_pending running completed cancelled : GameStatus

pub data SettlementStatus : Type 0 where
  not_required settlement_pending submitted confirmed failed : SettlementStatus

-- A row of `games`; the text that says why it was cancelled is left out.
pub record Game : Type 0 where
  pub id : ℕ
  pub status : GameStatus
  pub ended_at : Option ℕ
  pub settlement_status : SettlementStatus

pub record GameBooks : Type 0 where
  pub games : List Game
  pub books : Books

pub record RefundLeg : Type 0 where
  pub user : ℕ
  pub lamports : ℤ

pub record CancelGameResult : Type 0 where
  pub game_id : ℕ
  pub was_cancelled : Bool
  pub refunds : List RefundLeg
  pub total_lamports : ℤ
  pub already_refunded_count : ℕ

abbrev pub is_completed : GameStatus → Bool
is_completed completed = true
is_completed _ = false

abbrev pub is_cancelled : GameStatus → Bool
is_cancelled cancelled = true
is_cancelled _ = false

unfoldable pub find_game : ℕ → List Game → Option Game
find_game id = find (λ g. g.id == id)

abbrev pub same_option : Option ℕ → Option ℕ → Bool
same_option none none = true
same_option (some m) (some n) = m == n
same_option _ _ = false

-- `poolAccount.findUnique({ where: { gameId } })`
abbrev pub of_game : ℕ → PoolAccount → Bool
of_game game a = same_option a.game (some game)

pub find_escrow : ℕ → List PoolAccount → Option PoolAccount
find_escrow game = find (of_game game)

abbrev pub or_now : Option ℕ → ℕ → ℕ
or_now none at = at
or_now (some t) at = t

abbrev pub cancel : ℕ → Game → Game
cancel at before = record before {
  status = cancelled;
  ended_at = some (or_now before.ended_at at);
  settlement_status = not_required;
}

-- `cancelRow`: the table, and whether this call cancelled the game.
pub cancel_row : ℕ → Game → ℕ → List Game → List Game × Bool
cancel_row id before at [] = ([], not (is_cancelled before.status))
cancel_row id before at (g ∷ games) =
    let rest = cancel_row id before at games in
    ((if g.id == id then cancel at before else g) ∷ rest.0, rest.1)

abbrev pub is_posted : Posting → Bool
is_posted p = elim p.status [ posted ↦ true | pending ↦ false | reversed ↦ false ]

abbrev pub is_payout : TransactionType → Bool
is_payout payout = true
is_payout rake_fee = true
is_payout _ = false

abbrev pub is_entry_fee : TransactionType → Bool
is_entry_fee entry_fee = true
is_entry_fee _ = false

abbrev pub is_refund : TransactionType → Bool
is_refund refund = true
is_refund _ = false

abbrev pub is_credit : Direction → Bool
is_credit credit = true
is_credit debit = false

pub paid_out : ℕ → List Posting → Bool
paid_out game =
    any (λ (p : Posting). same_option p.game (some game) && is_payout p.type && is_posted p)

abbrev pub is_stake : ℕ → ℕ → Posting → Bool
is_stake game escrow p =
    same_option p.game (some game)
    && p.account == escrow
    && is_entry_fee p.type
    && is_credit p.direction
    && is_posted p

pub record Staked : Type 0 where
  pub user : Option ℕ
  pub amount : ℤ

pub add_stake : Option ℕ → ℤ → List Staked → List Staked
add_stake user amount [] = record { user = user; amount = amount } ∷ []
add_stake user amount (g ∷ gs) =
    let rest = add_stake user amount gs in
    if same_option g.user user then record g { amount = g.amount +ℤ amount } ∷ gs else g ∷ rest

-- `transaction.groupBy({ by: ['userId'], _sum })`; the newest entry is first in the table.
pub group_stakes : ℕ → ℕ → List Posting → List Staked
group_stakes game escrow [] = []
group_stakes game escrow (p ∷ ps) =
    let rest = group_stakes game escrow ps in
    if is_stake game escrow p then add_stake p.user p.amount rest else rest

abbrev pub is_repaid : ℕ → ℕ → Posting → Bool
is_repaid game escrow p =
    same_option p.game (some game)
    && p.account == escrow
    && is_refund p.type
    && not (is_credit p.direction)

-- The set of the users of the rows found, with one place for each.
pub refunded_users : ℕ → ℕ → List Posting → List (Option ℕ)
refunded_users game escrow [] = []
refunded_users game escrow (p ∷ ps) =
    let rest = refunded_users game escrow ps in
    if is_repaid game escrow p && not (any (same_option p.user) rest) then p.user ∷ rest else rest

abbrev pub owed_leg : List (Option ℕ) → Staked → Option RefundLeg
owed_leg refunded g = elim g.user [
  | none ↦ none
  | some user ↦
      if leb_ℤ g.amount (pos 0) || any (same_option (some user)) refunded
      then none
      else some (record { user = user; lamports = g.amount })
]

abbrev pub push_leg : Option RefundLeg → List RefundLeg → List RefundLeg
push_leg none legs = legs
push_leg (some leg) legs = leg ∷ legs

-- The loop over `staked`.
pub owed_legs : List (Option ℕ) → List Staked → List RefundLeg
owed_legs refunded [] = []
owed_legs refunded (g ∷ gs) = push_leg (owed_leg refunded g) (owed_legs refunded gs)

-- `owed.reduce((sum, leg) => sum + leg.lamports, 0n)`
pub owed_from : ℤ → List RefundLeg → ℤ
owed_from sum [] = sum
owed_from sum (leg ∷ legs) = owed_from (sum +ℤ leg.lamports) legs

-- `getCustodyAccount`
pub get_custody : ℕ → Books → Books × PoolAccount
get_custody user b = elim (find_owner user b.accounts) [
  | some existing ↦ (b, existing)
  | none ↦ (create_custody user b, new_custody b.next_id user)
]

abbrev pub refund_debit : ℕ → RefundLeg → PoolAccount → ℤ → Posting
refund_debit game leg escrow after = record {
  type = refund;
  direction = debit;
  status = posted;
  amount = leg.lamports;
  balance_after = after;
  user = some leg.user;
  account = escrow.id;
  game = some game;
  key = refund_escrow_leg game leg.user;
}

abbrev pub refund_credit : ℕ → RefundLeg → PoolAccount → Posting
refund_credit game leg custody = record {
  type = refund;
  direction = credit;
  status = posted;
  amount = leg.lamports;
  balance_after = custody.balance +ℤ leg.lamports;
  user = some leg.user;
  account = custody.id;
  game = some game;
  key = refund_leg game leg.user;
}

-- The loop's variable, with the tables it writes.
pub record Refunding : Type 0 where
  pub books : Books
  pub escrow_balance : ℤ

abbrev pub refund_to : ℕ → PoolAccount → RefundLeg → PoolAccount → Books → ℤ → Attempt Refunding
refund_to game escrow leg custody b balance = do
  both ←
      move_and_post custody (set_balance (custody.balance +ℤ leg.lamports))
        (refund_debit game leg escrow (balance -ℤ leg.lamports)) (refund_credit game leg custody)
        b.accounts b.postings
  ok (record {
    books = record b { accounts = both.0; postings = both.1 };
    escrow_balance = balance -ℤ leg.lamports;
  })

abbrev pub refund_one : ℕ → PoolAccount → RefundLeg → Refunding → Attempt Refunding
refund_one game escrow leg s =
    let found = get_custody leg.user s.books in
    refund_to game escrow leg found.1 found.0 s.escrow_balance

pub refund_all : ℕ → PoolAccount → List RefundLeg → Refunding → Attempt Refunding
refund_all game escrow [] s = ok s
refund_all game escrow (leg ∷ legs) s = refund_one game escrow leg s >>= refund_all game escrow legs

abbrev pub write_escrow : PoolAccount → List RefundLeg → Refunding → Attempt Books
write_escrow escrow [] s = ok s.books
write_escrow escrow (leg ∷ legs) s =
    update_account escrow.id escrow.version (set_balance s.escrow_balance) s.books.accounts
    >>= (λ rows. ok (record s.books { accounts = rows }))

-- The movements of `cancelGameAndRefund`: what is owed, from a pool that can pay it.
pub pay_back : ℕ → PoolAccount → List RefundLeg → Books → Attempt Books
pay_back game escrow owed b =
    throw_if (ltb_ℤ escrow.balance (owed_from (pos 0) owed))
      (refund_shortfall game (owed_from (pos 0) owed) escrow.balance)
    >> (refund_all game escrow owed (record { books = b; escrow_balance = escrow.balance })
        >>= write_escrow escrow owed)

-- `cancelRow`, the audit, and the result.
abbrev pub finish :
    ℕ
    → Game
    → ℕ
    → Attempt (Unit {0})
    → List RefundLeg
    → ℤ
    → ℕ
    → List Game
    → Books
    → Attempt (GameBooks × CancelGameResult)
finish id game at audit refunds total count games b =
    let row = cancel_row id game at games in
    audit
    >> ok (
      record { games = row.0; books = b },
      record {
        game_id = id;
        was_cancelled = row.1;
        refunds = refunds;
        total_lamports = total;
        already_refunded_count = count;
      },
    )

abbrev pub refund_from :
    ℕ
    → Game
    → ℕ
    → Attempt (Unit {0})
    → PoolAccount
    → GameBooks
    → Attempt (GameBooks × CancelGameResult)
refund_from id game at audit escrow s =
    let refunded = refunded_users id escrow.id s.books.postings in
    let owed = owed_legs refunded (group_stakes id escrow.id s.books.postings) in
    throw_if (paid_out id s.books.postings) (already_settled id)
    >> (pay_back id escrow owed s.books
        >>= finish id game at audit owed (owed_from (pos 0) owed) (length refunded) s.games)

-- What follows once the game is found open.
abbrev pub cancel_open :
    ℕ → Game → ℕ → Attempt (Unit {0}) → GameBooks → Attempt (GameBooks × CancelGameResult)
cancel_open id game at audit s = elim (find_escrow id s.books.accounts) [
  | none ↦ finish id game at audit [] (pos 0) 0 s.games s.books
  | some escrow ↦ refund_from id game at audit escrow s
]

pub cancel_game_and_refund :
    ℕ → ℕ → Attempt (Unit {0}) → GameBooks → Attempt (GameBooks × CancelGameResult)
cancel_game_and_refund id at audit s =
    or_throw (find_game id s.games) (game_not_found id) >>= (λ game.
      throw_if (is_completed game.status) (already_settled id) >> cancel_open id game at audit s)
