-- ===== src/Model/Tunnel.antt =====
-- MPLS over UDP tunnels to the vRouters (internal/model/vpp_tunnel.go).
use cloudgw.Prelude.{String, ℕ, ◌%◌, ◌+◌, ◌-◌, ◌^◌}

pub record VppUdpTunnel : Type 0 where
  pub routing_table_id : ℕ
  pub tunnel_id : ℕ
  pub src_ip : String
  pub dst_ip : String
  pub src_port : ℕ
  pub dst_port : ℕ
  pub fip_served : ℕ

abbrev pub undefined_tunnel_id : ℕ
undefined_tunnel_id = 2 ^ 32 - 1

-- `draw` is what rand.UintN(16384) returned.
unfoldable pub rand_udp_tunnel_src_port : ℕ → ℕ
rand_udp_tunnel_src_port draw = (draw + 49152) % 2 ^ 16

unfoldable pub new_vpp_udp_tunnel : ℕ → String → String → ℕ → VppUdpTunnel
new_vpp_udp_tunnel tunnel_id src_ip dst_ip src_port = record {
  routing_table_id = 0;
  tunnel_id = tunnel_id;
  src_ip = src_ip;
  dst_ip = dst_ip;
  src_port = src_port;
  dst_port = 6635;
  fip_served = 0;
}
