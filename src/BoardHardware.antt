-- ===== src/BoardHardware.antt =====
-- firmware/deployment/BoardHardware.{h,cpp}: the expanders, the analog inputs and the direct pins.
pub mod Bits
pub mod State
pub mod Registers
pub mod Monitoring
pub mod Operations
pub mod Reconcile
pub mod Charge
pub mod Ports
pub mod Service
pub mod Pins
mod Closed
mod Quiet
mod QuietStages
mod CeSafety
mod Arming
pub mod Tests
