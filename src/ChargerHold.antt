-- ===== src/ChargerHold.antt =====
-- firmware/board_control_test/ChargerHold.{h,cpp}: the unloaded measurement of the charger's voltage.
pub mod Hold
mod Guards
pub mod Tests
