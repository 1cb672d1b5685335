-- ===== src/Indexer.antt =====
-- The event indexer of backend/src/workers/soroban-event-worker.ts, over the tables of
-- backend/prisma/schema.prisma.
pub mod Xdr
pub mod Tables
pub mod Bodies
pub mod Reads
pub mod Transactions
pub mod Handlers
pub mod Poll
pub mod Rows
pub mod Replay
pub mod Health
pub mod Isolation
pub mod Batch
pub mod Integers
pub mod Validity
pub mod Post
pub mod Keys
pub mod Preservation
pub mod Processing
pub mod Amounts
pub mod Reachable
pub mod Renewal
pub mod DeadLetters
mod Tests
