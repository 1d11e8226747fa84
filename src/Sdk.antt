-- ===== src/Sdk.antt =====
-- packages/sdk: the execution core.
pub mod Decimal
pub mod Intents
pub mod QuoteStream
