-- ===== src/Anticheat/Connections.antt =====
-- Budgets for each event of a socket and for each address that connects
-- (apps/realtime/src/anticheat/event-guard.ts, apps/realtime/src/io/middleware/connection-guard.ts). A map is
-- a function from its keys.
use solana_snake_arena.Base.{
  ℕ, ◌+◌, ◌-◌, ◌*◌, Bool, true, ◌&&◌, ltb, leb, ◌==◌, Option, none, some, if◌then◌else◌,
}
use solana_snake_arena.Anticheat.{Limit, Bucket, full, new_bucket, consume_input_budget}

pub data Event : Type 0 where
  chat ping respawn join other : Event

abbrev pub event_code : Event → ℕ
event_code chat = 0
event_code ping = 1
event_code respawn = 2
event_code join = 3
event_code other = 4

-- Rates of half a token, four tokens and one token a second, in 2000ths of a token.
abbrev pub event_limits : Event → Option Limit
event_limits chat = some (record { parts_per_token = 2000; parts_per_ms = 1; burst = 3 })
event_limits ping = some (record { parts_per_token = 2000; parts_per_ms = 8; burst = 8 })
event_limits respawn = some (record { parts_per_token = 2000; parts_per_ms = 1; burst = 3 })
event_limits join = some (record { parts_per_token = 2000; parts_per_ms = 2; burst = 3 })
event_limits other = none

abbrev pub Budgets : Type 0
Budgets = ℕ → Option Bucket

abbrev pub put_bucket : ℕ → Bucket → Budgets → Budgets
put_bucket key b budgets k = if k == key then some b else budgets k

abbrev pub bucket_or_new : Limit → ℕ → Option Bucket → Bucket
bucket_or_new limit now none = new_bucket limit now
bucket_or_new limit now (some b) = b

-- `EventGuard.allow`
unfoldable pub allow : Event → ℕ → Budgets → Bool × Budgets
allow event now budgets = elim (event_limits event) [
  | none ↦ (true, budgets)
  | some limit ↦
      let r =
        consume_input_budget limit now (bucket_or_new limit now (budgets (event_code event))) in
      (r.0, put_bucket (event_code event) r.1 budgets)
]

pub record ConnectionGuardOptions : Type 0 where
  pub rate_per_second : ℕ
  pub burst : ℕ
  pub idle_ttl_ms : ℕ

-- In thousandths of a token, a rate for each second is one for each millisecond.
abbrev pub limit_of : ConnectionGuardOptions → Limit
limit_of o = record { parts_per_token = 1000; parts_per_ms = o.rate_per_second; burst = o.burst }

unfoldable pub try_consume : ConnectionGuardOptions → ℕ → ℕ → Budgets → Bool × Budgets
try_consume o address now buckets =
    let r =
      consume_input_budget (limit_of o) now (bucket_or_new (limit_of o) now (buckets address)) in
    (r.0, put_bucket address r.1 buckets)

abbrev pub is_evicted : ConnectionGuardOptions → ℕ → Bucket → Bool
is_evicted o now b =
    let idle = now - b.last_refill_ms in
    ltb o.idle_ttl_ms idle && leb (full (limit_of o)) (b.tokens + idle * o.rate_per_second)

-- The map that `sweep` leaves; the number it returns is left out.
unfoldable pub sweep : ConnectionGuardOptions → ℕ → Budgets → Budgets
sweep o now buckets address = elim (buckets address) [
  | none ↦ none
  | some b ↦ if is_evicted o now b then none else some b
]
