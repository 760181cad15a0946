-- ===== src/App.antt =====
-- The start of the application (internal/app).
pub mod Storages
pub mod Bgp
pub mod Forwarder
