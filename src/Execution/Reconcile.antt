-- ===== src/Execution/Reconcile.antt =====
-- Reconciliation of packages/execution/src/autotrader/execution/reconcile.py: the comparison and its texts (Report, Texts), the
-- check (Check), the resync (Resync), the 60 second job and the owner's resync (Episode).
pub mod Texts
pub mod Report
pub mod Agreement
pub mod Check
pub mod Resync
pub mod Episode
