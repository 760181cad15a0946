-- ===== src/Service.antt =====
-- The handling of BGP updates (internal/service): floating ips and tunnels, the updates from
-- Tungsten Fabric and from the physical network, and the events of peers.
pub mod Parse
pub mod World
pub mod Tunnels
pub mod Watch
pub mod Updates
pub mod Peers
