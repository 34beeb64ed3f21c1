-- ===== src/Settling/Tests.antt =====
-- A match of two that is settled (apps/worker/src/settlement/settle.ts), and the theorems at inputs
-- that meet their hypotheses.
use solana_snake_arena.Base.{ℕ, ◌≡◌, refl, true, false, some, none, [], ◌∷◌, arith, ◌+◌}
use solana_snake_arena.Base.Int.{pos}
use solana_snake_arena.Ledger.{PoolAccount, user_custody, game_escrow, custody_of, escrow_of, Books}
use solana_snake_arena.Ledger.Refund.{running, not_required}
use solana_snake_arena.Settlement.Standing.{finite, ReportedStanding}
use solana_snake_arena.Settlement.Verify.{MatchResultReport}
use solana_snake_arena.Settling.Leaderboard.{update_leaderboard, games_of}
use solana_snake_arena.Settling.World.{
  GamePlayer, GameRow, World, Chain, reported, done, refused, room_not_open, room_not_in_progress,
}
use solana_snake_arena.Settling.Pipeline.{settle_game}
use solana_snake_arena.Settling.Fair.{Safe, settle_game-Safe}
use solana_snake_arena.Settling.Replay.{Final, settle_game-Final, Accounted, settle_game-Accounted}
use solana_snake_arena.Settling.Backing.{Unpaid, settle_game-Unpaid}
use solana_snake_arena.Settling.Counts.{update_leaderboard_counts, standings_of}

abbrev standing : ℕ → ℕ → ReportedStanding
standing id place = record {
  player_id = id;
  placement = pos place;
  score = finite (pos 120);
  kills = finite (pos 1);
  survived_ms = finite (pos 60_000);
}

abbrev custody : PoolAccount
custody = record {
  id = 1;
  name = custody_of 2;
  kind = user_custody;
  owner = some 2;
  game = none;
  balance = pos 500;
  reserved = pos 0;
  version = 3;
}

abbrev escrow : PoolAccount
escrow = record {
  id = 2;
  name = escrow_of 9;
  kind = game_escrow;
  owner = none;
  game = some 9;
  balance = pos 1000;
  reserved = pos 0;
  version = 0;
}

abbrev books : Books
books = record { accounts = custody ∷ escrow ∷ []; postings = []; reservations = []; next_id = 3 }

abbrev player : ℕ → GamePlayer
player id = record {
  user = id;
  placement = none;
  score = finite (pos 0);
  kills = finite (pos 0);
  survived_ms = finite (pos 0);
  survived = false;
}

abbrev game : GameRow
game = record {
  id = 9;
  status = running;
  node_id = some 4;
  pot_lamports = 1000;
  settlement_status = not_required;
  settlement_attempts = 0;
  signature = none;
  payout_lamports = pos 0;
  rake_lamports = pos 0;
  rake_bps = 1000;
  players = player 1 ∷ player 2 ∷ [];
}

abbrev world : World
world = record { game = some game; books = books; rewards = []; leaderboard = [] }

abbrev report : MatchResultReport
report = record {
  game_id = 9;
  room_id = 9;
  node_id = 4;
  standings = standing 1 2 ∷ standing 2 1 ∷ [];
  ended_at_ms = 0;
}

abbrev chain : Chain
chain = record {
  stored = reported report;
  wallets = record { user = 2; address = 22 } ∷ [];
  has_entry = λ address. true;
  can_sign = true;
  vault_balance = some 5000;
  rent_floor = some 890;
  start_room = done 75;
  unlock_prize = done 76;
  settle_to_winner = done 77;
  day = 20;
}

-- A room that a run before has unlocked.
abbrev unlocked : Chain
unlocked = record chain {
  start_room = refused room_not_open;
  unlock_prize = refused room_not_in_progress;
}

settle_game-Safe_example : Safe chain game books (settle_game chain world)
settle_game-Safe_example = settle_game-Safe chain game world refl (refl, (refl, tt))

settle_game-Final_example : Final (settle_game chain world)
settle_game-Final_example = settle_game-Final chain game world refl

settle_game-Accounted_example : Accounted (settle_game chain world)
settle_game-Accounted_example = settle_game-Accounted chain game world refl (omega arith)

settle_game-Unpaid_example : Unpaid (settle_game unlocked world)
settle_game-Unpaid_example = settle_game-Unpaid unlocked game world refl refl refl refl

update_leaderboard_counts_example :
    (games_of (some 20) 2 (update_leaderboard 20 report.standings [])
      ≡ standings_of 2 report.standings + games_of (some 20) 2 [])
    × (games_of none 2 (update_leaderboard 20 report.standings [])
        ≡ standings_of 2 report.standings + games_of none 2 [])
update_leaderboard_counts_example = update_leaderboard_counts 20 2 report.standings []
