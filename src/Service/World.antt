-- ===== src/Service/World.antt =====
-- What the service works on: the storages, the stream to the forwarder, the BGP server and the
-- configuration (internal/service, internal/repository/imdb/imdb.go).
use cloudgw.Imdb.Memdb.{MemDb}
use cloudgw.Imdb.BgpPeers.{BgpPeerStorage}
use cloudgw.Imdb.BgpVrfs.{BgpVrfStorage}
use cloudgw.Imdb.VppVrfs.{VppVrfStorage}
use cloudgw.Imdb.FipRoutes.{FipRouteStorage}
use cloudgw.Imdb.UdpTunnels.{UdpTunnelStorage}
use cloudgw.Netutils.{NetApi}
use cloudgw.Vpp.{VppApi}
use cloudgw.Gobgp.{BgpApi}
use cloudgw.Prelude.{String, ℕ}

-- The libraries: the tables by strings and by numbers, addresses, the forwarder, the BGP server.
pub record Libs : Type 1 where
  pub by_string : MemDb String
  pub by_number : MemDb ℕ
  pub net_api : NetApi
  pub vpp_api : VppApi
  pub bgp_api : BgpApi

-- The fields of the configuration that the handlers read.
pub record Config : Type 0 where
  pub tun_local_ip : String
  pub main_interface_id : ℕ
  pub tf_asn : ℕ
  pub local_asn : ℕ

pub record World (l : Libs) : Type 0 where
  pub peers : BgpPeerStorage (Libs.by_string l)
  pub bgp_vrfs : BgpVrfStorage (Libs.by_number l)
  pub vpp_vrfs : VppVrfStorage (Libs.by_number l)
  pub fips : FipRouteStorage (Libs.by_string l)
  pub tunnels : UdpTunnelStorage (Libs.by_string l)
  pub stream : VppApi.Stream (Libs.vpp_api l)
  pub server : BgpApi.Server (Libs.bgp_api l)
