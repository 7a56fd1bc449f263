-- ===== src/Lifecycle.antt =====
-- packages/lifecycle: the promotion ladder.
pub mod Reasons
pub mod Ladder
pub mod Registry
pub mod Config
pub mod Stats
pub mod Champion
pub mod Evaluator
