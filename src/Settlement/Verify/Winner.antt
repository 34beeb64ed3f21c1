-- ===== src/Settlement/Verify/Winner.antt =====
-- The winner of a verified result (apps/worker/src/settlement/verify.ts: `detectWinner`).
use solana_snake_arena.Base.{
  ℕ, ◌≡◌, refl, sym, ◌∙◌, Bool, true, false, some, List, [], ◌∷◌, map, arith, any, every,
}
use mathlib.Core.Bool.{false≢true}
use solana_snake_arena.Base.Int.{pos}
use solana_snake_arena.Settlement.Standing.{
  ReportedStanding, placement_of, by_placement, sort_placements, map-sort_by, any-sort_by,
  every-sort_by,
}
use solana_snake_arena.Settlement.Verify.{
  MatchResultReport, VerifiedResult, VerificationContext, has, gapless_from, player_ids, is_empty,
  verify_result, detect_winner,
}
use solana_snake_arena.Settlement.Verify.Exact.{is_acceptable, gapless_from-same, verify_result-ok}

-- The winner heads the standings, is placed first, and has paid to enter.
pub record HasWinner (context : VerificationContext) (result : VerifiedResult) : Type 0 where
  pub winner : ReportedStanding
  pub others : List ReportedStanding
  pub ranked : result.standings ≡ winner ∷ others
  pub detected : detect_winner result ≡ some winner
  pub first : winner.placement ≡ pos 1
  pub entered : has context.entrants winner.player_id ≡ true

pub verified-standings :
    (report : MatchResultReport) (context : VerificationContext)
    → (verify_result report context).ok ≡ true
    → (verify_result report context).standings ≡ by_placement report.standings
unfolding verify_result
verified-standings report context h = ground arith

every-map :
    (p : ℕ → Bool) (ss : List ReportedStanding)
    → every p (player_ids ss) ≡ every (λ (s : ReportedStanding). p s.player_id) ss
every-map p [] = refl
every-map p (s ∷ ss) = ground (arith, every-map p ss)

-- The parts of acceptability that the winner rests on, over the sorted standings.
record Ranked (context : VerificationContext) (sorted : List ReportedStanding) : Type 0 where
  inhabited : any (λ (s : ReportedStanding). true) sorted ≡ true
  entrants : every (λ (s : ReportedStanding). has context.entrants s.player_id) sorted ≡ true
  placed : gapless_from 0 (map placement_of sorted) ≡ true

inhabited :
    (ss : List ReportedStanding)
    → is_empty ss ≡ false
    → any (λ (s : ReportedStanding). true) ss ≡ true
inhabited [] h = cc
inhabited (s ∷ ss) h = refl

acceptable-Ranked :
    (report : MatchResultReport) (context : VerificationContext)
    → is_acceptable report context ≡ true
    → Ranked context (by_placement report.standings)
unfolding by_placement sort_placements
acceptable-Ranked report context h =
    let ss : List ReportedStanding = report.standings in
    let entered : ReportedStanding → Bool = λ s. has context.entrants s.player_id in
    record {
      inhabited = any-sort_by placement_of (λ s. true) ss ∙ inhabited ss (ground arith);
      entrants =
          every-sort_by placement_of entered ss
          ∙ ground (arith, every-map (has context.entrants) ss);
      placed =
          rw (map-sort_by placement_of ss)
            (gapless_from-same 0 (sort_placements (map placement_of ss)) ∙ ground arith);
    }

Ranked-wins :
    (context : VerificationContext) (result : VerifiedResult) (sorted : List ReportedStanding)
    → result.ok ≡ true
    → result.standings ≡ sorted
    → Ranked context sorted
    → HasWinner context result
unfolding detect_winner gapless_from
Ranked-wins context result [] ok e r = absurd (false≢true r.inhabited)
Ranked-wins context result (w ∷ ws) ok e r = record {
  winner = w;
  others = ws;
  ranked = e;
  detected = rw (ok, e) (ground (arith, r.placed));
  first = ground (arith, r.placed);
  entered = ground (arith, r.entrants);
}

-- A verified result has a winner: the first of its standings, placed 1, and one of the entrants.
pub verified_winner :
    (report : MatchResultReport) (context : VerificationContext)
    → (verify_result report context).ok ≡ true
    → HasWinner context (verify_result report context)
verified_winner report context ok =
    Ranked-wins context (verify_result report context) (by_placement report.standings) ok
      (verified-standings report context ok)
      (acceptable-Ranked report context (sym (verify_result-ok report context) ∙ ok))
