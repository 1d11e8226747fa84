-- ===== src/Runner/Strategy.antt =====
-- packages/runner/src/strategy.
pub mod Cancel
pub mod Gateway
pub mod World
pub mod Preflight
pub mod Driver
pub mod Shares
pub mod Intent
