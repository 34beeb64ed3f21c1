-- ===== src/Settlement/Tests.antt =====
-- Settlement (apps/worker/src/settlement: verify.ts and payout.ts) on a match of two, and its
-- theorems at inputs that meet their hypotheses.
use solana_snake_arena.Base.{ℕ, ◌≡◌, refl, true, some, List, [], ◌∷◌, arith}
use solana_snake_arena.Base.Int.{pos}
use solana_snake_arena.Settlement.Standing.{finite, ReportedStanding, sort_placements}
use solana_snake_arena.Settlement.Verify.{
  MatchResultReport, VerificationContext, unknown_player, missing_player, verify_result,
  all_failures, origin_failures, check_standings, check_entrants, gapless_from, unique,
  failure_code,
}
use solana_snake_arena.Settlement.Verify.Exact.{is_acceptable, verify_result-ok}
use solana_snake_arena.Settlement.Verify.Winner.{HasWinner}
use solana_snake_arena.Settlement.Payout.{PayoutShare, compute_payouts, within_transaction_limit}
use solana_snake_arena.Settlement.Payout.Shares.{sole_payout, verified_payout}

abbrev standing : ℕ → ℕ → ReportedStanding
standing id place = record {
  player_id = id;
  placement = pos place;
  score = finite (pos 120);
  kills = finite (pos 1);
  survived_ms = finite (pos 60_000);
}

abbrev context : VerificationContext
context = record { game_id = 9; entrants = 1 ∷ 2 ∷ []; expected_node_id = some 4 }

abbrev report : List ReportedStanding → MatchResultReport
report ss = record { game_id = 9; room_id = 9; node_id = 4; standings = ss; ended_at_ms = 0 }

abbrev fair : MatchResultReport
fair = report (standing 1 2 ∷ standing 2 1 ∷ [])

-- A stranger in second place, and an entrant who is left out.
forged :
    (verify_result (report (standing 2 1 ∷ standing 5 2 ∷ [])) context).failures
    ≡ unknown_player ∷ missing_player ∷ []
unfolding verify_result all_failures origin_failures check_standings check_entrants gapless_from
    unique failure_code sort_placements
forged = refl

fair-ok : (verify_result fair context).ok ≡ true
unfolding verify_result all_failures origin_failures check_standings check_entrants gapless_from
    unique failure_code sort_placements
fair-ok = refl

verify_result-ok_example : (verify_result fair context).ok ≡ is_acceptable fair context
verify_result-ok_example = verify_result-ok fair context

verified_payout_example :
    (w : HasWinner context (verify_result fair context)) × (compute_payouts
        (verify_result fair context).standings
        (pos 18)
      ≡ sole_payout w.winner (pos 18))
    × (within_transaction_limit (compute_payouts (verify_result fair context).standings (pos 18))
        ≡ true)
verified_payout_example = verified_payout fair context (pos 18) fair-ok (omega arith)

abbrev share : ℕ → ℕ → PayoutShare
share id amount = record { player_id = id; placement = pos id; lamports = pos amount }
