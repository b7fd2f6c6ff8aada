-- ===== src/Link.antt =====
-- tools/service-template/src: supervision of a vehicle's link from its heartbeats.
pub mod Monitor
pub mod Supervise
pub mod Stdout
pub mod Program
mod Tests
