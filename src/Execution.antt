-- ===== src/Execution.antt =====
-- packages/execution, and the check of a decision in packages/core/src/autotrader/core/signing.py that
-- execution makes.
pub mod Requests
pub mod Views
pub mod Later
pub mod Verifier
pub mod Journal
pub mod Quotes
pub mod World
pub mod Orders
pub mod Stops
pub mod Entries
pub mod Deals
pub mod Ends
pub mod Reconcile
pub mod Watchdog
pub mod Service
pub mod Startup
pub mod Kept
pub mod Steps
pub mod Calls
mod Tests
pub mod BusService
