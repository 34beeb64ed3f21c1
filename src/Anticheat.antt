-- ===== src/Anticheat.antt =====
-- Limits on what a client may send (apps/realtime/src/anticheat and io/middleware/connection-guard.ts).
-- Tokens are counted in whole parts: so many parts make a token, and so many come back in a millisecond.
pub mod Connections
pub mod Inputs
pub mod Rate
pub mod Eviction
pub mod Soundness
pub mod Tests
use solana_snake_arena.Base.{ℕ, ◌+◌, ◌-◌, ◌*◌, Bool, true, false, ltb, if◌then◌else◌}

pub record Limit : Type 0 where
  pub parts_per_token : ℕ
  pub parts_per_ms : ℕ
  pub burst : ℕ

pub record Bucket : Type 0 where
  pub tokens : ℕ
  pub last_refill_ms : ℕ

abbrev pub min_ℕ : ℕ → ℕ → ℕ
min_ℕ m n = if ltb n m then n else m

abbrev pub full : Limit → ℕ
full limit = limit.burst * limit.parts_per_token

abbrev pub new_bucket : Limit → ℕ → Bucket
new_bucket limit now = record { tokens = full limit; last_refill_ms = now }

-- A clock that went back refills nothing.
abbrev pub refilled : Limit → ℕ → Bucket → ℕ
refilled limit now b = min_ℕ (full limit) (b.tokens + (now - b.last_refill_ms) * limit.parts_per_ms)

unfoldable pub consume_input_budget : Limit → ℕ → Bucket → Bool × Bucket
consume_input_budget limit now b =
    let tokens = refilled limit now b in
    if ltb tokens limit.parts_per_token
    then (false, record { tokens = tokens; last_refill_ms = now })
    else (true, record { tokens = tokens - limit.parts_per_token; last_refill_ms = now })
