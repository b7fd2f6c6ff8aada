-- ===== src/Common.antt =====
-- backend/services/common: the library that every service links.
pub mod Result
pub mod Config
pub mod Dedup
pub mod Sequence
pub mod Stream
pub mod Json
pub mod Logger
pub mod Health
pub mod Metrics
pub mod Server
pub mod Uuid
