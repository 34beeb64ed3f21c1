-- ===== src/Tiers.antt =====
-- The room ladder of packages/protocol/src/tiers.ts: the fixed table of tiers and its look-ups.
-- Lamports and basis points are never negative in the table, so they are natural numbers. A tier's
-- `name` and `description` are display text that no code branches on; only the name is kept.
mod Tests
use solana_snake_arena.Base.{
  ℕ, ◌*◌, ◌/◌, String, Bool, Option, none, some, List, [], ◌∷◌, map, leb, filter, find,
}
use text.Mathlib.Text.{◌==◌ as str_eq}

pub record RoomTier : Type 0 where
  pub id : String
  pub name : String
  pub entry_fee_lamports : ℕ
  pub min_players : ℕ
  pub max_players : Option ℕ  -- `none` is the source's `null`, no limit
  pub rake_bps : ℕ
  pub countdown_seconds : ℕ
  pub ready_countdown_seconds : ℕ

abbrev pub lamports_per_sol : ℕ
lamports_per_sol = 1_000_000_000

-- `sol(value)` at a value given in thousandths, which is what `Math.round(value * 1_000)` is.
abbrev sol : ℕ → ℕ
sol milli = milli * lamports_per_sol / 1_000

-- The six paid rows of the table differ in identifier, name and fee only.
abbrev paid_tier : String → String → ℕ → RoomTier
paid_tier id name fee = record {
  id = id;
  name = name;
  entry_fee_lamports = fee;
  min_players = 2;
  max_players = none;
  rake_bps = 1_000;
  countdown_seconds = 45;
  ready_countdown_seconds = 5;
}

abbrev pub practice : RoomTier
practice = record {
  id = "practice";
  name = "Practice Pit";
  entry_fee_lamports = 0;
  min_players = 1;
  max_players = none;
  rake_bps = 0;
  countdown_seconds = 10;
  ready_countdown_seconds = 5;
}

abbrev pub bronze : RoomTier
bronze = paid_tier "bronze" "Bronze Arena" (sol 10)

abbrev pub silver : RoomTier
silver = paid_tier "silver" "Silver Arena" (sol 50)

abbrev pub gold : RoomTier
gold = paid_tier "gold" "Gold Arena" (sol 100)

abbrev pub platinum : RoomTier
platinum = paid_tier "platinum" "Platinum Arena" (sol 500)

abbrev pub diamond : RoomTier
diamond = paid_tier "diamond" "Diamond Arena" (sol 1_000)

abbrev pub whale : RoomTier
whale = paid_tier "whale" "Whale's Deep" (sol 5_000)

abbrev pub room_tiers : List RoomTier
room_tiers = practice ∷ bronze ∷ silver ∷ gold ∷ platinum ∷ diamond ∷ whale ∷ []

-- `BY_ID.get(id)`; the source's `Map` keeps the last row of an identifier, and the identifiers of
-- the table are distinct.
unfoldable pub get_tier : String → Option RoomTier
get_tier id = find (λ tier. str_eq tier.id id) room_tiers

abbrev pub tier_ids : List String
tier_ids = map (λ (tier : RoomTier). tier.id) room_tiers

pub affordable_tiers : ℕ → List RoomTier
affordable_tiers spendable =
    filter (λ (tier : RoomTier). leb tier.entry_fee_lamports spendable) room_tiers
