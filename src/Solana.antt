-- ===== src/Solana.antt =====
-- The client of the on-chain program (packages/solana/src): instructions are encoded by hand, so that no
-- generated client is needed.
pub mod Encode
pub mod Reader
pub mod Pda
pub mod Instructions
pub mod Rooms
pub mod Payouts
pub mod Parse
pub mod Credit
pub mod RoundTrip
pub mod Arguments
pub mod Distribution
pub mod Withdrawal
pub mod Declared
pub mod Covers
pub mod Tests
