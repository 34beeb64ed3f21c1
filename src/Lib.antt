-- ===== src/Lib.antt =====
-- A verification library for the Solana snake arena: the services that queue players, take their
-- entry fees, settle their matches and keep the books.
--
-- The program. Players queue in one lobby for each room tier. The lobby service of
-- packages/lobby keeps the lobbies in a store shared by several replicas, applies events to them
-- by compare-and-set, and launches a match when a countdown expires. Joining a paid room reserves
-- the entry fee in the player's custody account (packages/db/src/stake.ts); starting the match
-- consumes the reservations into the game's escrow. apps/worker verifies the reported result and
-- computes the payouts (settlement/), along the plan of cycle/plan.ts; a game that cannot be
-- settled is cancelled and refunded (packages/db/src/refund.ts). apps/gateway posts all other
-- movements through services/ledger.ts. apps/matchmaker places rooms on nodes (placement/), and
-- calls to the chain run under the circuit breaker and the retry loop of packages/solana/src/tx.
-- Instructions for the chain are encoded by hand in packages/solana/src. Snapshots of a match and
-- the commands of its players travel as the binary messages of packages/protocol/src/binary.ts;
-- the realtime node limits and validates what a client sends (apps/realtime/src/anticheat).
--
-- The files.
--   Base          shared names, list and integer lemmas; `int_laws` is the rule set for integers
--   Tiers         packages/protocol/src/tiers.ts
--   Lobby         packages/lobby/src/state.ts: `reduce_lobby` is reduceLobby, `settle` is settle
--   LobbyService  packages/lobby/src/service.ts, store.ts and redis-store.ts: `apply` is apply,
--                 with what other replicas do between a load and a save as a parameter
--   Settlement    apps/worker/src/settlement/verify.ts and payout.ts
--   Ledger        packages/db/prisma/schema.prisma, the tables; Ledger/Accounts and Transfer are
--                 the lemmas on updates and on transfers between one pool and many
--   Ledger/Stake  packages/db/src/stake.ts
--   Ledger/Refund packages/db/src/refund.ts
--   Ledger/Entry  apps/gateway/src/services/ledger.ts
--   CircuitBreaker, Retry   packages/solana/src/tx/circuit-breaker.ts and retry.ts
--   Placement     apps/matchmaker/src/placement/strategy.ts
--   Cycle         apps/worker/src/cycle/plan.ts
--   Settling      apps/worker/src/settlement/settle.ts: World is what it reads and writes, Books
--                 its postings, Leaderboard its windows, Pipeline `settle_game`, which is
--                 settleGame; Ends gives the ends that a run can have, and Fair, Backing, Replay,
--                 Conserves and Counts prove by them
--   Wire          bytes, little-endian words and readers, shared by the next two
--   Solana        packages/solana/src: Encode is tx/encode.ts, Pda pda.ts, Instructions, Rooms and
--                 Payouts instructions.ts, Parse tx/parse.ts; Reader is a description of Borsh and
--                 Declared one of the accounts of programs/programs/arena/src/instructions, to
--                 compare with
--   Protocol      packages/protocol/src/binary.ts: Snapshot packs, Decode unpacks, Input does both
--                 for commands
--   Anticheat     apps/realtime/src/anticheat/validators.ts (Inputs, and the budget itself),
--                 event-guard.ts and io/middleware/connection-guard.ts (Connections)
--   TickLoop      apps/realtime/src/rooms/room-manager.ts, the loop that ticks all rooms of a node
-- Each Tests module holds runs and the witnesses of the theorems beside it.
--
-- State and errors. A component's state is a record and an operation returns the new one. A
-- database transaction is an `Attempt`, which commits a state or fails and leaves the old one;
-- `Ensures` says what holds of what is committed. Transactions are taken one at a time, as
-- serializable ones are; the version check of every update is kept. Amounts of lamports are
-- unbounded integers, as `bigint` is, and times are natural numbers of milliseconds, except in
-- TickLoop, whose unit makes the interval between ticks a whole number.
--
-- Bounds. The service tries a compare-and-set five times, the source's own limit, and the model
-- takes it as the number of turns; the retry loop takes as many turns as `maxAttempts`. Everything
-- else is recursion on a list or on a count that a message announces.
--
-- Not modelled: the web application, HTTP and socket layers, the game's floating-point simulation,
-- the on-chain program (Rust), third-party libraries, and what only documents a row (descriptions,
-- metadata). The launch callback, the audit callback, what a retried call returns and the backoff
-- are parameters. So are, for a settlement, what Redis holds and what each call of the chain
-- answers (`Chain`), and for the client of the chain, the hash and the derivation of addresses
-- (`Web3`). The rounding of angles, radii and positions to the units of a message is floating-point
-- arithmetic and is left out: the messages are modelled in those units.
pub mod Base
pub mod Wire
pub mod Tiers
pub mod Lobby
pub mod LobbyService
pub mod Settlement
pub mod Ledger
pub mod CircuitBreaker
pub mod Retry
pub mod Placement
pub mod Cycle
pub mod Settling
pub mod Solana
pub mod Protocol
pub mod Anticheat
pub mod TickLoop
