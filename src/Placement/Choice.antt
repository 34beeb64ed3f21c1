-- ===== src/Placement/Choice.antt =====
-- What the chosen node is, among the candidates (apps/matchmaker/src/placement/strategy.ts).
use solana_snake_arena.Base.{
  ℕ, ◌≡◌, refl, ◌∙◌, Bool, true, ◌&&◌, ◌||◌, not, ltb, ◌≤◌, ◌⊎◌, List, [], ◌∷◌, filter, every, any,
  arith, Bool-cases, inl, inr, every-filter_self,
}
use solana_snake_arena.Placement.{
  NodeCandidate, PlacementRequest, PlacementStrategy, least_loaded, best_fit, region_affinity,
  is_healthy, filter_healthy, or_else, in_region, is_affine, node_pool, is_usable, final_pool,
  ranked,
}
use solana_snake_arena.Placement.Sorting.{every-sort_nodes}

every-or_else :
    (p : NodeCandidate → Bool) (xs bs : List NodeCandidate)
    → every p xs ≡ true
    → every p bs ≡ true
    → every p (or_else xs bs) ≡ true
every-or_else p [] bs h k = k
every-or_else p (x ∷ xs) bs h k = h

every-filter_of :
    (p q : NodeCandidate → Bool) (bs : List NodeCandidate)
    → every p bs ≡ true
    → every p (filter q bs) ≡ true
every-filter_of p q [] h = refl
every-filter_of p q (b ∷ bs) h = ground (arith, every-filter_of p q bs)

every-pool :
    (p : NodeCandidate → Bool) (candidates : List NodeCandidate) (request : PlacementRequest)
    (s : PlacementStrategy)
    → every p candidates ≡ true
    → every p (node_pool candidates request s) ≡ true
unfolding node_pool
every-pool p candidates request s h = elim (Bool-cases (is_affine s)) [
  | inl affine ↦ rw affine (every-filter_of p (in_region request) candidates h)
  | inr other ↦ rw other (
      every-or_else p (filter (in_region request) candidates) candidates
        (every-filter_of p (in_region request) candidates h) h)
]

every-ranked :
    (p : NodeCandidate → Bool) (candidates : List NodeCandidate) (request : PlacementRequest)
    (s : PlacementStrategy)
    → every p candidates ≡ true
    → every p (ranked candidates request s) ≡ true
unfolding ranked final_pool
every-ranked p candidates request s h =
    let pool = node_pool candidates request s in
    let k = every-pool p candidates request s h in
    every-sort_nodes p s (or_else (filter is_usable pool) pool)
    ∙ every-or_else p (filter is_usable pool) pool (every-filter_of p is_usable pool k) k

-- Whatever holds of every candidate holds of every node that is ranked, so of the chosen one: a
-- node chosen among those that `filterHealthy` keeps is not draining, has a room left and has a
-- heartbeat within the age.
pub ranked_healthy :
    (candidates : List NodeCandidate) (max_age now : ℕ) (request : PlacementRequest)
    (s : PlacementStrategy)
    → every (is_healthy max_age now) (ranked (filter_healthy candidates max_age now) request s)
      ≡ true
unfolding filter_healthy
ranked_healthy candidates max_age now request s =
    every-ranked (is_healthy max_age now) (filter (is_healthy max_age now) candidates) request s
      (every-filter_self (is_healthy max_age now) candidates)

or_else-filter :
    (p : NodeCandidate → Bool) (bs others : List NodeCandidate)
    → any p bs ≡ true
    → or_else (filter p bs) others ≡ filter p bs
or_else-filter p [] others h = cc
or_else-filter p (b ∷ bs) others h = ground (arith, or_else-filter p bs others)

-- When any node of the pool is within the saturation budget, every node that is ranked is, so the
-- chosen one.
pub ranked_usable :
    (candidates : List NodeCandidate) (request : PlacementRequest) (s : PlacementStrategy)
    → any is_usable (node_pool candidates request s) ≡ true
    → every is_usable (ranked candidates request s) ≡ true
unfolding ranked final_pool
ranked_usable candidates request s h =
    let pool = node_pool candidates request s in
    every-sort_nodes is_usable s (or_else (filter is_usable pool) pool)
    ∙ rw (or_else-filter is_usable pool pool h) (every-filter_self is_usable pool)

-- The candidates that a room may be placed on: those of the region, or all when there are none and the
-- strategy does not insist; among these those below 85% of saturation, or all when there are none.
abbrev pub is_local :
    List NodeCandidate → PlacementRequest → PlacementStrategy → NodeCandidate → Bool
is_local candidates request s c =
    in_region request c || (not (is_affine s) && not (any (in_region request) candidates))

abbrev pub has_headroom : NodeCandidate → Bool
has_headroom c = ltb c.saturation 8500

abbrev pub is_eligible :
    List NodeCandidate → PlacementRequest → PlacementStrategy → NodeCandidate → Bool
is_eligible candidates request s c =
    is_local candidates request s c
    && (has_headroom c
        || not (any (λ d. is_local candidates request s d && has_headroom d) candidates))

-- How the chosen node compares with another, by the strategy.
abbrev pub Precedes : PlacementStrategy → NodeCandidate → NodeCandidate → Type 0
Precedes least_loaded a b = a.saturation ≤ b.saturation
Precedes best_fit a b = b.saturation ≤ a.saturation
Precedes region_affinity a b = b.saturation ≤ a.saturation

abbrev pub IsIn : NodeCandidate → List NodeCandidate → Type 0
IsIn c [] = ⊥
IsIn c (b ∷ bs) = (c ≡ b) ⊎ IsIn c bs
