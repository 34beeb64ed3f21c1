-- ===== src/Settlement.antt =====
-- Settling a match: the reported standings, their verification, and the split of the pot
-- (apps/worker/src/settlement: verify.ts and payout.ts).
pub mod Standing
pub mod Verify
pub mod Payout
mod Tests
