-- ===== src/Imdb.antt =====
-- The storages in memory (internal/repository/imdb), over the tables of go-memdb.
pub mod Memdb
pub mod Table
pub mod BgpPeers
pub mod BgpVrfs
pub mod VppVrfs
pub mod FipRoutes
pub mod UdpTunnels
