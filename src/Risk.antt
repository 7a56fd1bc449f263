-- ===== src/Risk.antt =====
-- packages/risk: the risk gate, its persistent state and its service.
pub mod Config
pub mod State
pub mod Events
pub mod Exposure
pub mod Work
pub mod Checks
pub mod Gate
pub mod Service
