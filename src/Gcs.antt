-- ===== src/Gcs.antt =====
-- frontend/qt-desktop-gcs/src: the desktop ground station's panels, workspaces and map tiles.
pub mod Panels
pub mod Workspaces
pub mod Wiring
pub mod Startup
pub mod Tiles
pub mod Mbtiles
pub mod Telemetry
mod Tests
