-- ===== src/Gateway.antt =====
-- backend/api-gateway/src: the gateway between the clients and the platform.
pub mod Value
pub mod Streams
pub mod Session
pub mod Access
pub mod Routes
mod Tests
