-- ===== src/Runner/Store.antt =====
-- packages/runner/src/store.ts and sqlite/store.ts: the durable job store.
pub mod Db
pub mod Instances
pub mod Jobs
pub mod Leases
pub mod Legs
pub mod Effects
pub mod Streams
pub mod Change
pub mod Run
pub mod Prog
pub mod Gives
pub mod Replay
pub mod Mandate
pub mod Ownership
pub mod Invariant
