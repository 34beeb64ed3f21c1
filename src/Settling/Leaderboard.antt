-- ===== src/Settling/Leaderboard.antt =====
-- The rolling leaderboard windows (apps/worker/src/settlement/settle.ts: `updateLeaderboard`).
-- Scores and kills are those of a verified result, which are finite; a period is a day's number,
-- and `none` for all time. A row's rank and time are left out.
use solana_snake_arena.Base.{
  ℕ, ◌+◌, Bool, ◌&&◌, Option, none, some, List, [], ◌∷◌, ◌==◌, if◌then◌else◌,
}
use solana_snake_arena.Base.Int.{ℤ, pos, ◌+ℤ◌, leb_ℤ, int_eq}
use solana_snake_arena.Ledger.Refund.{same_option}
use solana_snake_arena.Settlement.Standing.{Metric, finite, non_finite, ReportedStanding}

pub record LeaderboardRow : Type 0 where
  pub period : Option ℕ
  pub user : ℕ
  pub score : ℤ
  pub games_played : ℕ
  pub wins : ℕ
  pub kills : ℤ

abbrev pub metric_value : Metric → ℤ
metric_value (finite n) = n
metric_value non_finite = pos 0

abbrev pub max_ℤ : ℤ → ℤ → ℤ
max_ℤ a b = if leb_ℤ a b then b else a

abbrev pub win_of : ReportedStanding → ℕ
win_of s = if int_eq s.placement (pos 1) then 1 else 0

abbrev pub is_row : Option ℕ → ℕ → LeaderboardRow → Bool
is_row period user row = same_option row.period period && row.user == user

abbrev pub played_again : ReportedStanding → LeaderboardRow → LeaderboardRow
played_again s row = record row {
  score = max_ℤ row.score (metric_value s.score);
  games_played = row.games_played + 1;
  wins = row.wins + win_of s;
  kills = row.kills +ℤ metric_value s.kills;
}

abbrev pub first_row : Option ℕ → ReportedStanding → LeaderboardRow
first_row period s = record {
  period = period;
  user = s.player_id;
  score = metric_value s.score;
  games_played = 1;
  wins = win_of s;
  kills = metric_value s.kills;
}

-- The update of one row, or its insertion.
unfoldable pub upsert_row : Option ℕ → ReportedStanding → List LeaderboardRow → List LeaderboardRow
upsert_row period s [] = first_row period s ∷ []
upsert_row period s (row ∷ rows) =
    let rest = upsert_row period s rows in
    if is_row period s.player_id row then played_again s row ∷ rows else row ∷ rest

unfoldable pub update_leaderboard :
    ℕ → List ReportedStanding → List LeaderboardRow → List LeaderboardRow
update_leaderboard day [] rows = rows
update_leaderboard day (s ∷ standings) rows =
    update_leaderboard day standings (upsert_row none s (upsert_row (some day) s rows))

-- How many games a player has in a period, by the board.
unfoldable pub games_of : Option ℕ → ℕ → List LeaderboardRow → ℕ
games_of period user [] = 0
games_of period user (row ∷ rows) =
    let rest = games_of period user rows in
    if is_row period user row then row.games_played else rest
