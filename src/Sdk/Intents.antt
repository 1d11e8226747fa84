-- ===== src/Sdk/Intents.antt =====
-- packages/sdk/src/intent-store.ts and intent-shape.ts: one idempotency key for one intent.
pub mod Canonical
pub mod Shape
pub mod Ledger
pub mod Files
