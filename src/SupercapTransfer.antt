-- ===== src/SupercapTransfer.antt =====
-- firmware/board_control_test/SupercapTransfer.{h,cpp}: charging the supercap and supervising the
-- transfer between the main source and the backup.
pub mod State
pub mod Shutdown
pub mod Charge
pub mod Service
mod Core
mod Cutoff
mod Deadline
mod Runs
mod Tests
