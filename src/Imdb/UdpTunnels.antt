-- ===== src/Imdb/UdpTunnels.antt =====
-- The storage of UDP tunnels (internal/repository/imdb/udp_tunnel.go).
pub mod Refinement
use cloudgw.Model.Tunnel.{VppUdpTunnel}
use cloudgw.Imdb.Memdb.{MemDb, Error, no_vpp_udp_tunnel_found}
use cloudgw.Imdb.Table.{
  Schema, Store, new_store, string_index, delete, change, get, rows, clear, add, is_present,
}
use cloudgw.Prelude.{
  Bool, List, Option, String, if◌then◌else◌, none, some, true, ℕ, ◌%◌, ◌+◌, ◌-◌, ◌==◌, ◌^◌, nat_Eq,
}

abbrev pub udp_tunnel_schema : Schema String VppUdpTunnel
udp_tunnel_schema = record {
  id_of = λ tunnel. string_index tunnel.dst_ip;
  has_others = λ tunnel. true;
}

-- `tunnel.FIPServed++` and `tunnel.FIPServed--` on a uint32; the second stops at 0.
abbrev pub tunnel_inc : VppUdpTunnel → Option VppUdpTunnel
tunnel_inc tunnel = some (record tunnel { fip_served = (tunnel.fip_served + 1) % 2 ^ 32 })

abbrev pub tunnel_dec : VppUdpTunnel → Option VppUdpTunnel
tunnel_dec tunnel =
    if tunnel.fip_served == 0
    then none
    else some (record tunnel { fip_served = tunnel.fip_served - 1 })

module _ (m : MemDb String) where
  abbrev pub UdpTunnelStorage : Type 0
  UdpTunnelStorage = Store m VppUdpTunnel

  unfoldable pub new_udp_tunnel_storage : UdpTunnelStorage
  unfolding new_store
  new_udp_tunnel_storage = new_store m udp_tunnel_schema

  unfoldable pub add_udp_tunnel : VppUdpTunnel → UdpTunnelStorage → Option Error × UdpTunnelStorage
  unfolding add
  add_udp_tunnel tunnel s = add m udp_tunnel_schema tunnel s

  unfoldable pub del_udp_tunnel : String → UdpTunnelStorage → Option Error × UdpTunnelStorage
  unfolding delete
  del_udp_tunnel dst_ip s = delete m udp_tunnel_schema no_vpp_udp_tunnel_found dst_ip s

  unfoldable pub del_udp_tunnels : UdpTunnelStorage → Option Error × UdpTunnelStorage
  unfolding clear
  del_udp_tunnels s = clear m udp_tunnel_schema s

  unfoldable pub get_udp_tunnel : String → UdpTunnelStorage → Option VppUdpTunnel
  unfolding get
  get_udp_tunnel dst_ip s = get m udp_tunnel_schema dst_ip s

  unfoldable pub get_udp_tunnels : UdpTunnelStorage → List VppUdpTunnel
  unfolding rows
  get_udp_tunnels s = rows m udp_tunnel_schema (MemDb.walk_id m s.db) s

  unfoldable pub inc_fip_served : String → UdpTunnelStorage → UdpTunnelStorage
  unfolding change
  inc_fip_served dst_ip s = (change m udp_tunnel_schema true none tunnel_inc dst_ip s).1

  unfoldable pub dec_fip_served : String → UdpTunnelStorage → UdpTunnelStorage
  unfolding change
  dec_fip_served dst_ip s = (change m udp_tunnel_schema true none tunnel_dec dst_ip s).1

  unfoldable pub get_fip_served : String → UdpTunnelStorage → ℕ
  unfolding get
  get_fip_served dst_ip s = elim (get m udp_tunnel_schema dst_ip s) [
    | none ↦ 0
    | some tunnel ↦ tunnel.fip_served
  ]

  unfoldable pub is_udp_tunnel_exist : String → UdpTunnelStorage → Bool
  unfolding is_present
  is_udp_tunnel_exist dst_ip s = is_present m udp_tunnel_schema dst_ip s
