-- ===== src/Settling/Pipeline.antt =====
-- The post-game pipeline (apps/worker/src/settlement/settle.ts: `settleGame` and what it calls).
-- What Redis holds and what the chain answers are a parameter, `Chain`. A run returns an outcome or
-- throws, and either way leaves its writes. Logs and the notification, whose failure is ignored, are
-- left out.
use solana_snake_arena.Base.{
  ℕ, ◌+◌, ◌-◌, Bool, true, false, not, ◌&&◌, ◌||◌, Option, none, some, List, [], ◌∷◌, map, ◌==◌,
  ltb, leb, if◌then◌else◌, filter, find, any, is_some,
}
use solana_snake_arena.Base.Int.{ℤ, pos, int_eq}
use solana_snake_arena.Ledger.{ok, fail}
use solana_snake_arena.Ledger.Refund.{
  completed, is_cancelled, SettlementStatus, not_required, settlement_pending, confirmed, failed,
}
use solana_snake_arena.Settlement.Standing.{ReportedStanding}
use solana_snake_arena.Settlement.Verify.{
  MatchResultReport, VerifiedResult, verify_result, detect_winner,
}
use solana_snake_arena.Settlement.Payout.{
  PayoutShare, compute_payouts, split_pot, total_payout, within_transaction_limit,
}
use solana_snake_arena.Settling.Books.{post_settlement_ledger}
use solana_snake_arena.Settling.Leaderboard.{update_leaderboard}
use solana_snake_arena.Settling.World.{
  GamePlayer, GameRow, Reward, World, missing, not_json, reported, ChainError, room_not_open,
  prize_not_unlocked, room_already_settled, already_in_use, ChainResult, done, refused, Wallet,
  Chain, was_cancelled, invalid_json, no_winner, too_many_winners, not_the_prize, no_wallet,
  unverified, settled, no_result, already_settled, rejected, Run, returned, threw,
}

abbrev pub is_confirmed : SettlementStatus → Bool
is_confirmed confirmed = true
is_confirmed _ = false

-- /already|InvalidRoomStatus|RoomNotOpen/i
abbrev pub start_tolerated : ChainError → Bool
start_tolerated room_not_open = true
start_tolerated room_already_settled = true
start_tolerated already_in_use = true
start_tolerated _ = false

abbrev pub is_already_done : ChainError → Bool
is_already_done prize_not_unlocked = true
is_already_done room_already_settled = true
is_already_done already_in_use = true
is_already_done _ = false

-- `resolveWallets(...).get(userId)`
abbrev pub wallet_of : ℕ → List Wallet → Option Wallet
wallet_of user = find (λ (w : Wallet). w.user == user)

-- `prisma.game.update`
abbrev pub update_game : (GameRow → GameRow) → World → World
update_game f w = record w { game = elim w.game [ none ↦ none | some g ↦ some (f g) ] }

abbrev pub finish_row : SettlementStatus → Option ℕ → GameRow → GameRow
finish_row status signature g = record g {
  status = completed;
  settlement_status = status;
  signature = elim signature [ none ↦ g.signature | some s ↦ some s ];
}

abbrev pub finish_game : SettlementStatus → Option ℕ → World → World
finish_game status signature = update_game (finish_row status signature)

abbrev pub mark_failed : World → World
mark_failed = update_game (λ g. record g { settlement_status = failed })

abbrev pub is_none_left : List ℕ → Bool
is_none_left [] = true
is_none_left (x ∷ xs) = false

abbrev pub has_paid : Chain → ℕ → Bool
has_paid chain player = elim (wallet_of player chain.wallets) [
  | none ↦ false
  | some w ↦ chain.has_entry w.address
]

-- The players that the chain says have paid, among those reported.
abbrev pub paid_players : Chain → MatchResultReport → List ℕ
paid_players chain report =
    filter (has_paid chain) (map (λ (s : ReportedStanding). s.player_id) report.standings)

abbrev pub recorded_players : GameRow → List ℕ
recorded_players g = map (λ (p : GamePlayer). p.user) g.players

abbrev pub adopts : Chain → GameRow → MatchResultReport → Bool
adopts chain g report =
    is_none_left (recorded_players g) && not (is_none_left (paid_players chain report))

unfoldable pub verified_by : Chain → GameRow → MatchResultReport → VerifiedResult
verified_by chain g report = verify_result report (record {
  game_id = g.id;
  entrants = if adopts chain g report then paid_players chain report else recorded_players g;
  expected_node_id = if adopts chain g report then some report.node_id else g.node_id;
})

abbrev pub is_first : ReportedStanding → Bool
is_first s = int_eq s.placement (pos 1)

-- `gamePlayer.updateMany` for one standing.
abbrev pub persist_one : ReportedStanding → GamePlayer → GamePlayer
persist_one s p =
    if p.user == s.player_id
    then record p {
      placement = some s.placement;
      score = s.score;
      kills = s.kills;
      survived_ms = s.survived_ms;
      survived = is_first s;
    }
    else p

pub persist_players : List ReportedStanding → List GamePlayer → List GamePlayer
persist_players [] players = players
persist_players (s ∷ standings) players = persist_players standings (map (persist_one s) players)

abbrev pub persist_row : List ReportedStanding → GameRow → GameRow
persist_row standings g = record g { players = persist_players standings g.players }

abbrev pub persist : List ReportedStanding → World → World
persist standings = update_game (persist_row standings)

abbrev pub or_zero : Option ℕ → ℕ
or_zero none = 0
or_zero (some n) = n

-- A vault that holds nothing beyond its rent; a failed read says nothing.
abbrev pub is_vault_empty : Chain → Bool
is_vault_empty chain = elim chain.vault_balance [
  | none ↦ false
  | some balance ↦ leb balance (or_zero chain.rent_floor)
]

-- The pot: what is recorded, or else what the vault holds beyond its rent.
abbrev pub pot_of : Chain → GameRow → ℕ
pot_of chain g =
    if g.pot_lamports == 0
    then or_zero chain.vault_balance - or_zero chain.rent_floor
    else g.pot_lamports

abbrev pub note_pot : Chain → GameRow → World → World
note_pot chain g w =
    if g.pot_lamports == 0 && ltb (or_zero chain.rent_floor) (or_zero chain.vault_balance)
    then update_game (λ row. record row { pot_lamports = pot_of chain g }) w
    else w

abbrev pub has_reward : ℕ → ℕ → List Reward → Bool
has_reward game user = any (λ (r : Reward). r.game == game && r.user == user)

-- A unique violation is ignored.
abbrev pub grant : ℕ → PayoutShare → List Reward → List Reward
grant game share rewards =
    if has_reward game share.player_id rewards
    then rewards
    else record { game = game; user = share.player_id; amount = share.lamports } ∷ rewards

pub grant_all : ℕ → List PayoutShare → List Reward → List Reward
grant_all game [] rewards = rewards
grant_all game (share ∷ shares) rewards = grant_all game shares (grant game share rewards)

abbrev pub reward_row : List PayoutShare → ℤ → GameRow → GameRow
reward_row payouts rake g = record g {
  payout_lamports = total_payout payouts;
  rake_lamports = rake;
}

-- `recordRewards` up to the ledger.
abbrev pub with_rewards : ℕ → List PayoutShare → ℤ → World → World
with_rewards game payouts rake w =
    update_game (reward_row payouts rake) (record w { rewards = grant_all game payouts w.rewards })

abbrev pub with_leaderboard : Chain → List ReportedStanding → World → World
with_leaderboard chain standings w = record w {
  leaderboard = update_leaderboard chain.day standings w.leaderboard;
}

pub record Plan : Type 0 where
  pub game : GameRow
  pub standings : List ReportedStanding
  pub winner : ℕ
  pub prize_pool : ℤ
  pub rake : ℤ
  pub payouts : List PayoutShare

-- Steps 6 to 8, once the chain has paid or is not used.
unfoldable pub book : Chain → Plan → Option ℕ → World → Run
book chain plan signature w =
    let rewarded = with_rewards plan.game.id plan.payouts plan.rake w in
    elim (post_settlement_ledger plan.game.id plan.payouts plan.rake w.books) [
      | fail e ↦ threw rewarded
      | ok books ↦ returned (settled plan.winner plan.prize_pool plan.rake signature) (
          finish_game confirmed signature
            (with_leaderboard chain plan.standings (record rewarded { books = books })))
    ]

-- Step 5, to the winner's wallet.
unfoldable pub pay_winner : Chain → Plan → World → Run
pay_winner chain plan w =
    if not (is_some (wallet_of plan.winner chain.wallets))
    then returned (rejected no_wallet) (mark_failed w)
    else elim chain.settle_to_winner [
      | done signature ↦ book chain plan (some signature) w
      | refused e ↦ if is_already_done e then book chain plan none w else threw (mark_failed w)
    ]

-- The error that leaves the `try` of step 4, if one does.
abbrev pub error_of : (started unlocked : ChainResult) → Option ChainError
error_of (done signature) (done second) = none
error_of (done signature) (refused e) = some e
error_of (refused e) (done second) = if start_tolerated e then none else some e
error_of (refused e) (refused f) = if start_tolerated e then some f else some e

abbrev pub unlock_error : Chain → Option ChainError
unlock_error chain = error_of chain.start_room chain.unlock_prize

-- Steps 4 and 5, if the chain can be written.
unfoldable pub pay_on_chain : Chain → Plan → World → Run
pay_on_chain chain plan w = elim (unlock_error chain) [
  | none ↦ pay_winner chain plan w
  | some e ↦ if is_already_done e then pay_winner chain plan w else threw w
]

abbrev pub pending_row : GameRow → GameRow
pending_row g = record g {
  settlement_status = settlement_pending;
  settlement_attempts = g.settlement_attempts + 1;
}

abbrev pub mark_pending : World → World
mark_pending = update_game pending_row

abbrev pub has_no_shares : List PayoutShare → Bool
has_no_shares [] = true
has_no_shares (p ∷ ps) = false

-- From the split of the pot on.
unfoldable pub pay_out : Chain → Plan → ℕ → World → Run
pay_out chain plan pot w =
    if pot == 0 || has_no_shares plan.payouts
    then returned (settled plan.winner (pos 0) (pos 0) none)
        (with_leaderboard chain plan.standings (finish_game not_required none w))
    else if not (within_transaction_limit plan.payouts)
    then returned (rejected too_many_winners) w
    else if not (int_eq (total_payout plan.payouts) plan.prize_pool)
    then returned (rejected not_the_prize) w
    else if chain.can_sign
    then pay_on_chain chain plan (mark_pending w)
    else book chain plan none (mark_pending w)

abbrev pub plan_for : Chain → GameRow → VerifiedResult → ReportedStanding → Plan
plan_for chain g verified winner =
    let split = split_pot (pot_of chain g) g.rake_bps in
    record {
      game = g;
      standings = verified.standings;
      winner = winner.player_id;
      prize_pool = split.0;
      rake = pos split.1;
      payouts = compute_payouts verified.standings split.0;
    }

-- From a verified result with a winner on.
unfoldable pub settle_verified : Chain → GameRow → VerifiedResult → ReportedStanding → World → Run
settle_verified chain g verified winner w =
    let persisted = persist verified.standings w in
    if ltb 0 g.pot_lamports && chain.can_sign && is_vault_empty chain
    then returned already_settled (finish_game confirmed none persisted)
    else pay_out chain (plan_for chain g verified winner) (pot_of chain g)
        (note_pot chain g persisted)

unfoldable pub judge : Chain → GameRow → MatchResultReport → World → Run
judge chain g report w =
    let verified = verified_by chain g report in
    if not verified.ok
    then returned (rejected (unverified verified.failures)) (mark_failed w)
    else elim (detect_winner verified) [
      | none ↦ returned (rejected no_winner) w
      | some winner ↦ settle_verified chain g verified winner w
    ]

unfoldable pub settle_row : Chain → GameRow → World → Run
settle_row chain g w =
    if is_confirmed g.settlement_status
    then returned already_settled w
    else if is_cancelled g.status
    then returned (rejected was_cancelled) w
    else elim chain.stored [
      | missing ↦ returned no_result w
      | not_json ↦ returned (rejected invalid_json) w
      | reported report ↦ judge chain g report w
    ]

unfoldable pub settle_game : Chain → World → Run
settle_game chain w = elim w.game [ none ↦ returned no_result w | some g ↦ settle_row chain g w ]
