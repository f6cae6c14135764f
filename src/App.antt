-- ===== src/App.antt =====
-- The application layer around the engine: src/app.
pub mod Devices
pub mod Generator
