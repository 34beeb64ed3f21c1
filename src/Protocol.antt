-- ===== src/Protocol.antt =====
-- The binary messages between client and realtime node (packages/protocol/src/binary.ts).
pub mod Snapshot
pub mod Decode
pub mod Size
pub mod Fields
pub mod RoundTrip
pub mod Input
pub mod Hostile
pub mod Batches
pub mod Tests
