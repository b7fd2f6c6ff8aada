-- ===== src/Common/Config.antt =====
-- backend/services/common/src/config.cpp and include/uaop/common/config.h: the layered
-- configuration of a service.
pub mod Line
pub mod Trim
pub mod Written
pub mod File
pub mod Sound
pub mod Numbers
pub mod Store
mod Tests
pub mod Layers
pub mod Loading
pub mod Require
