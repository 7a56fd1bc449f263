-- ===== src/Core.antt =====
-- packages/core/src/autotrader/core: the models and contracts that every service shares.
pub mod Time
pub mod Models
pub mod Broker
pub mod Codec
pub mod Bus
pub mod Ledger
pub mod Events
pub mod Sessions
