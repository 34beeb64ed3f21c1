-- ===== src/Placement/Sorting.antt =====
-- The sort of the nodes (apps/matchmaker/src/placement/strategy.ts): it keeps them all and leads with the
-- one that the strategy prefers.
use solana_snake_arena.Base.{
  ◌≡◌, refl, sym, ◌∙◌, subst, Bool, true, false, ◌&&◌, List, [], ◌∷◌, every, arith, Bool-cases, inl,
  inr,
}
use solana_snake_arena.Placement.{
  NodeCandidate, PlacementStrategy, least_loaded, best_fit, region_affinity, not_after, insert_node,
  sort_nodes,
}

every-insert_node :
    (p : NodeCandidate → Bool) (s : PlacementStrategy) (a : NodeCandidate) (bs : List NodeCandidate)
    → every p (insert_node s a bs) ≡ (p a && every p bs)
unfolding insert_node
every-insert_node p s a [] = refl
every-insert_node p s a (b ∷ bs) = ground (arith, every-insert_node p s a bs)

pub every-sort_nodes :
    (p : NodeCandidate → Bool) (s : PlacementStrategy) (bs : List NodeCandidate)
    → every p (sort_nodes s bs) ≡ every p bs
unfolding sort_nodes
every-sort_nodes p s [] = refl
every-sort_nodes p s (b ∷ bs) =
    ground (arith, every-insert_node p s b (sort_nodes s bs), every-sort_nodes p s bs)

not_after_trans :
    (s : PlacementStrategy) (a b c : NodeCandidate)
    → not_after s a b ≡ true
    → not_after s b c ≡ true
    → not_after s a c ≡ true
not_after_trans least_loaded a b c h k = ground arith
not_after_trans best_fit a b c h k = ground arith
not_after_trans region_affinity a b c h k = ground arith

not_after_total :
    (s : PlacementStrategy) (a b : NodeCandidate) → not_after s a b ≡ false → not_after s b a ≡ true
not_after_total least_loaded a b h = ground arith
not_after_total best_fit a b h = ground arith
not_after_total region_affinity a b h = ground arith

not_after_refl : (s : PlacementStrategy) (a : NodeCandidate) → not_after s a a ≡ true
not_after_refl least_loaded a = ground arith
not_after_refl best_fit a = ground arith
not_after_refl region_affinity a = ground arith

every_after :
    (s : PlacementStrategy) (a b : NodeCandidate) (cs : List NodeCandidate)
    → not_after s a b ≡ true
    → every (not_after s b) cs ≡ true
    → every (not_after s a) cs ≡ true
every_after s a b [] h k = refl
every_after s a b (c ∷ cs) h k =
    let kc : not_after s b c ≡ true = ground arith in
    let kcs : every (not_after s b) cs ≡ true = ground arith in
    ground (arith, not_after_trans s a b c h kc, every_after s a b cs h kcs)

-- The head comes before all others.
abbrev IsLed : PlacementStrategy → List NodeCandidate → Type 0
IsLed s [] = Unit
IsLed s (a ∷ bs) = every (not_after s a) bs ≡ true

insert_node-IsLed :
    (s : PlacementStrategy) (a : NodeCandidate) (bs : List NodeCandidate)
    → IsLed s bs
    → IsLed s (insert_node s a bs)
unfolding insert_node
insert_node-IsLed s a [] h = refl
insert_node-IsLed s a (b ∷ bs) h = elim (Bool-cases (not_after s a b)) [
  | inl before ↦ rw before (rw before (every_after s a b bs before h))
  | inr after ↦
      rw after (every-insert_node (not_after s b) s a bs ∙ rw (not_after_total s a b after) h)
]

sort_nodes-IsLed : (s : PlacementStrategy) (bs : List NodeCandidate) → IsLed s (sort_nodes s bs)
unfolding sort_nodes
sort_nodes-IsLed s [] = tt
sort_nodes-IsLed s (b ∷ bs) = insert_node-IsLed s b (sort_nodes s bs) (sort_nodes-IsLed s bs)

pub led_every :
    (s : PlacementStrategy) (node : NodeCandidate) (rest bs : List NodeCandidate)
    → sort_nodes s bs ≡ node ∷ rest
    → every (not_after s node) bs ≡ true
led_every s node rest bs h =
    let led : IsLed s (node ∷ rest) = subst (IsLed s) h (sort_nodes-IsLed s bs) in
    sym (every-sort_nodes (not_after s node) s bs) ∙ rw (h, not_after_refl s node) led
