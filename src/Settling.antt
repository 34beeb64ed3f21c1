-- ===== src/Settling.antt =====
-- Settling a match (apps/worker/src/settlement/settle.ts): the report is verified, the pot is paid
-- out on chain and in the books, and the leaderboard is brought up to date.
pub mod Books
pub mod Leaderboard
pub mod World
pub mod Pipeline
pub mod Conserves
pub mod Ends
pub mod Fair
pub mod Backing
pub mod Counts
pub mod Replay
pub mod Tests
