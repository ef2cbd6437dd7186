-- ===== src/Service.antt =====
-- engine/service.py: the transactions on runs, their logs and the task queue.
pub mod Exec
pub mod Store
pub mod Log
pub mod Runs
pub mod Gapless
pub mod Approval
pub mod Reaper
pub mod Logged
pub mod Stuck
pub mod SameQueue
pub mod Transacts
pub mod Kept
pub mod Recovers
pub mod Stored
pub mod Sweep
pub mod Projection
pub mod Returns
pub mod Live
pub mod Scheduled
pub mod Onward
pub mod Begun
pub mod Calls
pub mod Definitions
mod Examples
