-- ===== src/Placement.antt =====
-- Choosing the node for a new room (apps/matchmaker/src/placement/strategy.ts). A saturation is a
-- fraction, counted here in basis points; times are milliseconds, and `now - at <= age` is
-- `now <= at + age`.
pub mod Sorting
pub mod Choice
pub mod Tests
use solana_snake_arena.Base.{
  ℕ, ◌+◌, String, Bool, true, false, not, ◌&&◌, Option, none, some, List, [], ◌∷◌, if◌then◌else◌,
  ltb, leb, filter,
}
use text.Mathlib.Text.{◌==◌ as str_eq}

pub record NodeCandidate : Type 0 where
  pub node_id : String
  pub advertise_url : String
  pub region : String
  pub rooms : ℕ
  pub players : ℕ
  pub max_rooms : ℕ
  pub saturation : ℕ
  pub updated_at : ℕ
  pub draining : Bool

pub record PlacementRequest : Type 0 where
  pub mode : String
  pub region : String
  pub player_id : String

pub record PlacementDecision : Type 0 where
  pub node_id : String
  pub advertise_url : String

pub data PlacementStrategy : Type 0 where
  least_loaded best_fit region_affinity : PlacementStrategy

abbrev pub is_healthy : ℕ → ℕ → NodeCandidate → Bool
is_healthy max_age now node =
    not node.draining && ltb node.rooms node.max_rooms && leb now (node.updated_at + max_age)

pub filter_healthy : List NodeCandidate → ℕ → ℕ → List NodeCandidate
filter_healthy candidates max_age now = filter (is_healthy max_age now) candidates

-- The comparison of the sort: `a` does not come after `b`.
abbrev pub not_after : PlacementStrategy → NodeCandidate → NodeCandidate → Bool
not_after least_loaded a b = leb a.saturation b.saturation
not_after best_fit a b = leb b.saturation a.saturation
not_after region_affinity a b = leb b.saturation a.saturation

pub insert_node : PlacementStrategy → NodeCandidate → List NodeCandidate → List NodeCandidate
insert_node strategy a [] = a ∷ []
insert_node strategy a (b ∷ bs) =
    let rest = insert_node strategy a bs in if not_after strategy a b then a ∷ b ∷ bs else b ∷ rest

-- A stable sort.
pub sort_nodes : PlacementStrategy → List NodeCandidate → List NodeCandidate
sort_nodes strategy [] = []
sort_nodes strategy (a ∷ bs) = insert_node strategy a (sort_nodes strategy bs)

abbrev pub or_else : List NodeCandidate → List NodeCandidate → List NodeCandidate
or_else [] others = others
or_else (a ∷ bs) others = a ∷ bs

abbrev pub in_region : PlacementRequest → NodeCandidate → Bool
in_region request node = str_eq node.region request.region

abbrev pub is_affine : PlacementStrategy → Bool
is_affine region_affinity = true
is_affine _ = false

pub node_pool : List NodeCandidate → PlacementRequest → PlacementStrategy → List NodeCandidate
node_pool candidates request strategy =
    let local = filter (in_region request) candidates in
    if is_affine strategy then local else or_else local candidates

abbrev pub is_usable : NodeCandidate → Bool
is_usable node = ltb node.saturation 8500

pub final_pool : List NodeCandidate → List NodeCandidate
final_pool pool = or_else (filter is_usable pool) pool

abbrev pub decide : List NodeCandidate → Option PlacementDecision
decide [] = none
decide (chosen ∷ rest) =
    some (record { node_id = chosen.node_id; advertise_url = chosen.advertise_url })

-- The list that the choice is the head of.
pub ranked : List NodeCandidate → PlacementRequest → PlacementStrategy → List NodeCandidate
ranked candidates request strategy =
    sort_nodes strategy (final_pool (node_pool candidates request strategy))

pub select_placement :
    List NodeCandidate → PlacementRequest → PlacementStrategy → Option PlacementDecision
select_placement candidates request strategy = decide (ranked candidates request strategy)
