-- ===== src/Settling/World.antt =====
-- What the post-game pipeline reads and writes (apps/worker/src/settlement/settle.ts): the tables, what
-- Redis holds, what the chain answers, and the outcomes. A failed call of the chain is an error by the
-- marker in its message.
use solana_snake_arena.Base.{ℕ, Bool, Option, List}
use solana_snake_arena.Base.Int.{ℤ}
use solana_snake_arena.Ledger.{Books}
use solana_snake_arena.Ledger.Refund.{GameStatus, SettlementStatus}
use solana_snake_arena.Settlement.Standing.{Metric}
use solana_snake_arena.Settlement.Verify.{MatchResultReport, VerificationFailure}
use solana_snake_arena.Settling.Leaderboard.{LeaderboardRow}

pub record GamePlayer : Type 0 where
  pub user : ℕ
  pub placement : Option ℤ
  pub score : Metric
  pub kills : Metric
  pub survived_ms : Metric
  pub survived : Bool

-- A row of `games` with its room's rake.
pub record GameRow : Type 0 where
  pub id : ℕ
  pub status : GameStatus
  pub node_id : Option ℕ
  pub pot_lamports : ℕ
  pub settlement_status : SettlementStatus
  pub settlement_attempts : ℕ
  pub signature : Option ℕ
  pub payout_lamports : ℤ
  pub rake_lamports : ℤ
  pub rake_bps : ℕ
  pub players : List GamePlayer

-- A row of `rewards`, under its idempotency key `payout:<game>:<user>`.
pub record Reward : Type 0 where
  pub game : ℕ
  pub user : ℕ
  pub amount : ℤ

pub record World : Type 0 where
  pub game : Option GameRow
  pub books : Books
  pub rewards : List Reward
  pub leaderboard : List LeaderboardRow

pub data StoredResult : Type 0 where
  missing not_json : StoredResult
  reported : MatchResultReport → StoredResult

pub data ChainError : Type 0 where
  room_not_open room_not_in_progress prize_not_unlocked room_already_settled already_in_use :
      ChainError
  other_failure : ChainError

pub data ChainResult : Type 0 where
  done : (signature : ℕ) → ChainResult
  refused : ChainError → ChainResult

pub record Wallet : Type 0 where
  pub user : ℕ
  pub address : ℕ

pub record Chain : Type 0 where
  pub stored : StoredResult
  pub wallets : List Wallet  -- the verified ones, a user's primary one first
  pub has_entry : ℕ → Bool  -- whether the room's entry account for an address exists
  pub can_sign : Bool
  pub vault_balance : Option ℕ
  pub rent_floor : Option ℕ
  pub start_room : ChainResult
  pub unlock_prize : ChainResult
  pub settle_to_winner : ChainResult
  pub day : ℕ

pub data SettleRejection : Type 0 where
  was_cancelled invalid_json no_winner too_many_winners not_the_prize no_wallet : SettleRejection
  unverified : List VerificationFailure → SettleRejection

pub data SettleOutcome : Type 0 where
  settled : (winner : ℕ) (prize_pool rake : ℤ) (signature : Option ℕ) → SettleOutcome
  no_result already_settled : SettleOutcome
  rejected : SettleRejection → SettleOutcome

pub data Run : Type 0 where
  returned : SettleOutcome → World → Run
  threw : World → Run
