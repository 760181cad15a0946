-- ===== src/Model.antt =====
-- The data that the parts of the gateway exchange (internal/model, pkg/gobgpapi/gobgp_struct.go).
-- A `uint32` that is only stored and compared is a number; where the code computes with one, the
-- wrap-around is written out.
pub mod Route
pub mod Peer
pub mod Vrf
pub mod Tunnel
pub mod Nlri
