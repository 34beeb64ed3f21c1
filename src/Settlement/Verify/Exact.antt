-- ===== src/Settlement/Verify/Exact.antt =====
-- A description of an acceptable result, independent of the collected failures, and the verifier
-- (apps/worker/src/settlement/verify.ts).
use solana_snake_arena.Base.{
  ℕ, ◌≡◌, refl, Bool, true, false, not, ◌&&◌, Option, none, some, List, [], ◌∷◌, ◌++◌, map, ◌==◌,
  arith, every, zero, suc, ◌+◌, length,
}
use solana_snake_arena.Base.Int.{ℤ, pos, int_eq, leb_ℤ}
use solana_snake_arena.Settlement.Standing.{
  Metric, finite, non_finite, ReportedStanding, placement_of, sort_placements,
}
use solana_snake_arena.Settlement.Verify.{
  MatchResultReport, VerificationContext, VerificationFailure, push_if, has, bad_metric,
  bad_metrics, check_standings, check_entrants, gapless_from, unique, is_empty, origin_failures,
  player_ids, all_failures, verify_result,
}

-- No player appears twice.
abbrev pub distinct : List ReportedStanding → Bool
distinct [] = true
distinct (s ∷ ss) = not (has (player_ids ss) s.player_id) && distinct ss

-- The node that the game was placed on, where one is on record.
abbrev pub from_node : Option ℕ → ℕ → Bool
from_node none node = true
from_node (some expected) node = node == expected

-- A metric that is finite and not negative.
abbrev pub is_natural : Metric → Bool
is_natural (finite v) = leb_ℤ (pos 0) v
is_natural non_finite = false

abbrev pub has_natural_metrics : ReportedStanding → Bool
has_natural_metrics s = is_natural s.score && (is_natural s.kills && is_natural s.survived_ms)

-- The places after the `i`-th, `n` of them.
abbrev pub places : ℕ → ℕ → List ℤ
places i zero = []
places i (suc n) = pos (i + 1) ∷ places (i + 1) n

abbrev pub same_places : List ℤ → List ℤ → Bool
same_places [] [] = true
same_places (p ∷ ps) (q ∷ qs) = int_eq p q && same_places ps qs
same_places _ _ = false

-- What a report must satisfy: the right game and node, standings at all, each player once, exactly
-- the entrants, sound metrics, placements 1 to N.
abbrev pub is_acceptable : MatchResultReport → VerificationContext → Bool
is_acceptable report context =
    (report.game_id == context.game_id)
    && (from_node context.expected_node_id report.node_id
        && (not (is_empty report.standings)
            && (distinct report.standings
                && (every (has context.entrants) (player_ids report.standings)
                    && (every has_natural_metrics report.standings
                        && (every (has (player_ids report.standings)) context.entrants
                            && (let sorted = sort_placements (map placement_of report.standings) in
                                same_places sorted (places 0 (length sorted)))))))))

pub gapless_from-same :
    (i : ℕ) (ps : List ℤ) → gapless_from i ps ≡ same_places ps (places i (length ps))
unfolding gapless_from
gapless_from-same i [] = refl
gapless_from-same i (p ∷ ps) = ground (arith, gapless_from-same (i + 1) ps)

bad_metric-natural : (m : Metric) → not (bad_metric m) ≡ is_natural m
bad_metric-natural (finite v) = ground arith
bad_metric-natural non_finite = refl

every-natural :
    (ss : List ReportedStanding)
    → every (λ s. not (bad_metrics s)) ss ≡ every has_natural_metrics ss
every-natural [] = refl
every-natural (s ∷ ss) = ground (
  arith,
  bad_metric-natural s.score,
  bad_metric-natural s.kills,
  bad_metric-natural s.survived_ms,
  every-natural ss,
)

module _ {ℓ} {A : Type ℓ} where
  is_empty-append : (xs ys : List A) → is_empty (xs ++ ys) ≡ (is_empty xs && is_empty ys)
  is_empty-append [] ys = refl
  is_empty-append (x ∷ xs) ys = refl

is_empty-push_if : (b : Bool) (f : VerificationFailure) → is_empty (push_if b f) ≡ not b
is_empty-push_if true f = refl
is_empty-push_if false f = refl

is_empty-unique : (fs : List VerificationFailure) → is_empty (unique fs) ≡ is_empty fs
unfolding unique
is_empty-unique [] = refl
is_empty-unique (f ∷ fs) = refl

-- None of the listed players has been seen before.
abbrev unseen : List ℕ → List ReportedStanding → Bool
unseen seen ss = every (λ (s : ReportedStanding). not (has seen s.player_id)) ss

unseen-cons :
    (seen : List ℕ) (id : ℕ) (ss : List ReportedStanding)
    → unseen (id ∷ seen) ss ≡ (unseen seen ss && not (has (player_ids ss) id))
unseen-cons seen id [] = refl
unseen-cons seen id (s ∷ ss) = ground (arith, unseen-cons seen id ss)

check_standings-empty :
    (entrants seen : List ℕ) (ss : List ReportedStanding)
    → is_empty (check_standings entrants seen ss) ≡ (
        unseen seen ss
        && (distinct ss
            && (every (has entrants) (player_ids ss) && every (λ s. not (bad_metrics s)) ss)))
unfolding check_standings
check_standings-empty entrants seen [] = refl
check_standings-empty entrants seen (s ∷ ss) =
    ground (
      arith,
      check_standings-empty entrants (s.player_id ∷ seen) ss,
      unseen-cons seen s.player_id ss,
    )

check_entrants-empty : (seen es : List ℕ) → is_empty (check_entrants seen es) ≡ every (has seen) es
unfolding check_entrants
check_entrants-empty seen [] = refl
check_entrants-empty seen (e ∷ es) = ground (arith, check_entrants-empty seen es)

origin_failures-empty :
    (report : MatchResultReport) (context : VerificationContext)
    → is_empty (origin_failures report context)
      ≡ ((report.game_id == context.game_id) && from_node context.expected_node_id report.node_id)
unfolding origin_failures
origin_failures-empty report context = ground arith

unseen-nil : (ss : List ReportedStanding) → unseen [] ss ≡ true
unseen-nil [] = refl
unseen-nil (s ∷ ss) = unseen-nil ss

all_failures-empty :
    (report : MatchResultReport) (context : VerificationContext)
    → is_empty (all_failures report context) ≡ (
        is_empty (origin_failures report context)
        && (is_empty (check_standings context.entrants [] report.standings)
            && (is_empty (check_entrants (player_ids report.standings) context.entrants)
                && gapless_from 0 (sort_placements (map placement_of report.standings)))))
unfolding all_failures
all_failures-empty report context =
    let gapless = gapless_from 0 (sort_placements (map placement_of report.standings)) in
    rw (is_empty-append (origin_failures report context) _) (
      rw (is_empty-append (check_standings context.entrants [] report.standings) _) (
        rw (is_empty-append (check_entrants (player_ids report.standings) context.entrants) _)
          (ground arith)))

-- A reported result verifies exactly if it is acceptable: it is for this game, from the node on
-- record, lists each entrant once and nobody else, has sound metrics, and places 1 to N.
pub verify_result-ok :
    (report : MatchResultReport) (context : VerificationContext)
    → (verify_result report context).ok ≡ is_acceptable report context
unfolding verify_result
verify_result-ok report context = ground (
  arith,
  is_empty-unique (all_failures report context),
  all_failures-empty report context,
  origin_failures-empty report context,
  check_standings-empty context.entrants [] report.standings,
  unseen-nil report.standings,
  check_entrants-empty (player_ids report.standings) context.entrants,
  every-natural report.standings,
  gapless_from-same 0 (sort_placements (map placement_of report.standings)),
)
