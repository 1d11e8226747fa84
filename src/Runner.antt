-- ===== src/Runner.antt =====
-- packages/runner: the self-hosted Runner.
pub mod StateMachine
pub mod Secrets
pub mod Job
pub mod Store
pub mod Recovery
pub mod Detail
pub mod Reconciler
pub mod Strategy
pub mod Supervisor
pub mod Scheduler
pub mod Drain
pub mod Prices
