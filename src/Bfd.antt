-- ===== src/Bfd.antt =====
-- Bidirectional forwarding detection (pkg/bfd): packets, sessions and the control of sessions.
pub mod Packet
pub mod Session
pub mod Receive
pub mod Lifecycle
pub mod Control
pub mod Removal
pub mod Coding
