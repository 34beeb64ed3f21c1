-- ===== src/Tiers/Tests.antt =====
-- Runs of the tier table (packages/protocol/src/tiers.ts).
use solana_snake_arena.Base.{◌≡◌, refl, [], ◌∷◌, map}
use solana_snake_arena.Tiers.{RoomTier, affordable_tiers}

affordable_at_gold :
    map (λ (tier : RoomTier). tier.id) (affordable_tiers 100_000_000)
    ≡ "practice" ∷ "bronze" ∷ "silver" ∷ "gold" ∷ []
unfolding affordable_tiers
affordable_at_gold = refl
