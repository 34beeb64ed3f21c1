-- ===== src/Settling/Counts.antt =====
-- What the leaderboard counts (apps/worker/src/settlement/settle.ts: `updateLeaderboard`).
use solana_snake_arena.Base.{
  ℕ, ◌+◌, ◌≡◌, ◌==◌, ◌&&◌, some, List, [], ◌∷◌, arith, Option, none, if◌then◌else◌,
}
use solana_snake_arena.Ledger.Refund.{same_option}
use solana_snake_arena.Settlement.Standing.{ReportedStanding}
use solana_snake_arena.Settling.Leaderboard.{
  LeaderboardRow, upsert_row, update_leaderboard, games_of,
}

-- How often a player stands in a result.
unfoldable pub standings_of : ℕ → List ReportedStanding → ℕ
standings_of user [] = 0
standings_of user (s ∷ ss) = (if s.player_id == user then 1 else 0) + standings_of user ss

upsert_row_counts :
    (period other : Option ℕ) (user : ℕ) (s : ReportedStanding) (rows : List LeaderboardRow)
    → games_of period user (upsert_row other s rows)
      ≡ (if same_option other period && s.player_id == user then 1 else 0)
        + games_of period user rows
unfolding upsert_row games_of
upsert_row_counts period other user s [] = ground arith
upsert_row_counts period other user s (row ∷ rows) =
    let ih = upsert_row_counts period other user s rows in ground arith

-- Bringing the leaderboard up to date counts one more game for a player, today and for all time, for
-- each place of the player in the result, whatever the board held: counting a result again counts its
-- games again.
pub update_leaderboard_counts :
    (day user : ℕ) (standings : List ReportedStanding) (rows : List LeaderboardRow)
    → (games_of (some day) user (update_leaderboard day standings rows)
        ≡ standings_of user standings + games_of (some day) user rows)
      × (games_of none user (update_leaderboard day standings rows)
          ≡ standings_of user standings + games_of none user rows)
unfolding update_leaderboard standings_of
update_leaderboard_counts day user [] rows = (omega arith, omega arith)
update_leaderboard_counts day user (s ∷ ss) rows =
    let daily = upsert_row (some day) s rows in
    let ih = update_leaderboard_counts day user ss (upsert_row none s daily) in
    (
      ground (
        arith,
        ih.0,
        upsert_row_counts (some day) none user s daily,
        upsert_row_counts (some day) (some day) user s rows,
      ),
      ground (
        arith,
        ih.1,
        upsert_row_counts none none user s daily,
        upsert_row_counts none (some day) user s rows,
      ),
    )
