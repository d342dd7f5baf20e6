-- ===== src/UsbOutput.antt =====
-- firmware/deployment/JsonOutput.h: the message buffer and the USB output queue.
pub mod Message
pub mod Queue
pub mod Window
pub mod Enqueue
pub mod Service
pub mod Session
mod Tests
