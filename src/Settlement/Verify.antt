-- ===== src/Settlement/Verify.antt =====
-- Verification of a reported result (apps/worker/src/settlement/verify.ts): every failure is
-- collected. An unset or empty `expectedNodeId` is `none`.
pub mod Exact
pub mod Winner
use solana_snake_arena.Base.{
  ℕ, ◌+◌, Bool, true, false, not, ◌&&◌, ◌||◌, Option, none, some, List, [], ◌∷◌, ◌++◌, map, ◌==◌,
  if◌then◌else◌, any, filter, find, length, suc,
}
use solana_snake_arena.Base.Int.{ℤ, pos, ltb_ℤ, int_eq}
use solana_snake_arena.Settlement.Standing.{
  Metric, finite, non_finite, ReportedStanding, placement_of, by_placement, sort_placements,
}

pub record MatchResultReport : Type 0 where
  pub game_id : ℕ
  pub room_id : ℕ
  pub node_id : ℕ
  pub standings : List ReportedStanding
  pub ended_at_ms : ℕ

pub data VerificationFailure : Type 0 where
  no_standings unknown_player missing_player duplicate_player : VerificationFailure
  invalid_placement negative_metric wrong_game wrong_node : VerificationFailure

pub record VerifiedResult : Type 0 where
  pub ok : Bool
  pub failures : List VerificationFailure
  pub standings : List ReportedStanding

pub record VerificationContext : Type 0 where
  pub game_id : ℕ
  pub entrants : List ℕ
  pub expected_node_id : Option ℕ

-- `if (b) failures.push(f)`
abbrev pub push_if : Bool → VerificationFailure → List VerificationFailure
push_if b f = if b then f ∷ [] else []

-- `set.has(id)`
abbrev pub has : List ℕ → ℕ → Bool
has ids id = any (λ x. x == id) ids

-- `!Number.isFinite(m) || m < 0`
abbrev pub bad_metric : Metric → Bool
bad_metric (finite v) = ltb_ℤ v (pos 0)
bad_metric non_finite = true

abbrev pub bad_metrics : ReportedStanding → Bool
bad_metrics s = bad_metric s.score || bad_metric s.kills || bad_metric s.survived_ms

-- The loop over the standings; `seen` holds the players met so far.
unfoldable pub check_standings : List ℕ → List ℕ → List ReportedStanding → List VerificationFailure
check_standings entrants seen [] = []
check_standings entrants seen (s ∷ ss) =
    push_if (has seen s.player_id) duplicate_player
    ++ (push_if (not (has entrants s.player_id)) unknown_player
        ++ (push_if (bad_metrics s) negative_metric
            ++ check_standings entrants (s.player_id ∷ seen) ss))

-- The loop over the entrants.
unfoldable pub check_entrants : List ℕ → List ℕ → List VerificationFailure
check_entrants seen [] = []
check_entrants seen (e ∷ es) = push_if (not (has seen e)) missing_player ++ check_entrants seen es

-- Whether placements run from `i + 1` on with no gap; the source's loop stops at the first that
-- does not fit.
unfoldable pub gapless_from : ℕ → List ℤ → Bool
gapless_from i [] = true
gapless_from i (p ∷ ps) = int_eq p (pos (i + 1)) && gapless_from (i + 1) ps

unfoldable pub failure_code : VerificationFailure → ℕ
failure_code no_standings = 0
failure_code unknown_player = 1
failure_code missing_player = 2
failure_code duplicate_player = 3
failure_code invalid_placement = 4
failure_code negative_metric = 5
failure_code wrong_game = 6
failure_code wrong_node = 7

-- `[...new Set(failures)]`: each failure once, at its first place.
unfoldable pub unique : List VerificationFailure → List VerificationFailure
unique [] = []
unique (f ∷ fs) = f ∷ filter (λ g. not (failure_code g == failure_code f)) (unique fs)

abbrev pub is_empty {ℓ} : {A : Type ℓ} → List A → Bool
is_empty [] = true
is_empty (x ∷ xs) = false

unfoldable pub origin_failures : MatchResultReport → VerificationContext → List VerificationFailure
origin_failures report context =
    push_if (not (report.game_id == context.game_id)) wrong_game ++ elim context.expected_node_id [
      | none ↦ []
      | some node ↦ push_if (not (report.node_id == node)) wrong_node
    ]

abbrev pub player_ids : List ReportedStanding → List ℕ
player_ids = map (λ (s : ReportedStanding). s.player_id)

-- The failures before they are made unique, of a report with standings.
unfoldable pub all_failures : MatchResultReport → VerificationContext → List VerificationFailure
all_failures report context =
    origin_failures report context
    ++ (check_standings context.entrants [] report.standings
        ++ (check_entrants (player_ids report.standings) context.entrants
            ++ push_if (not (gapless_from 0 (sort_placements (map placement_of report.standings))))
                invalid_placement))

unfoldable pub verify_result : MatchResultReport → VerificationContext → VerifiedResult
verify_result report context =
    if is_empty report.standings
    then record {
      ok = false;
      failures = origin_failures report context ++ no_standings ∷ [];
      standings = [];
    }
    else (let found = unique (all_failures report context) in
        if is_empty found
        then record { ok = true; failures = []; standings = by_placement report.standings }
        else record { ok = false; failures = found; standings = [] })

pub detect_winner : VerifiedResult → Option ReportedStanding
detect_winner result =
    if result.ok then find (λ s. int_eq (placement_of s) (pos 1)) result.standings else none
