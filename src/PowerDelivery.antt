-- ===== src/PowerDelivery.antt =====
-- firmware/deployment/PowerDelivery.{h,cpp}: the USB-PD contract with the CYPD3177.
pub mod Reading
pub mod Bus
pub mod Budget
mod Frame
mod Poll
mod Bytes
mod Contract
mod Runs
mod Tests
