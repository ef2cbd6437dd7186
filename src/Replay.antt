-- ===== src/Replay.antt =====
-- engine/replay.py.
pub mod State
pub mod Fold
pub mod Queries
pub mod Order
pub mod Slots
pub mod Invariant
pub mod Readiness
pub mod Progress
pub mod Compensation
pub mod Status
mod Examples
