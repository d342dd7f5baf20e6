-- ===== src/Application.antt =====
-- `deployment/Application.cpp`: what a request, an action of the manager and a shutdown do.
pub mod State
pub mod Output
pub mod Outcomes
pub mod Actions
pub mod Handle
pub mod Loop
mod Cached
mod Remembered
mod Quiet
mod Supervised
mod Ports
mod Release
mod Replayed
mod Tests
