-- ===== src/PowerManager.antt =====
-- firmware/deployment/PowerManager.{h,cpp}: the deployment policy.
pub mod State
pub mod Names
pub mod Actions
pub mod Tick
pub mod Rules
pub mod Invariant
pub mod Stages
pub mod TickInvariant
pub mod ChargeSafety
pub mod Requests
pub mod Once
pub mod Runs
pub mod Stale
pub mod ChargeOnce
pub mod Deadline
pub mod Shutdown
mod Tests
