-- ===== src/Model/Peer.antt =====
-- BGP peers (internal/model/bgp_peer.go). The peer types are the constants TF = 0 and PHYNET = 1
-- of an `int`, the session states the enumeration of the BGP library.
use cloudgw.Prelude.{Bool, Option, String, false, if◌then◌else◌, none, ℕ, ◌==◌, nat_Eq}

pub data SessionState : Type 0 where
  unknown idle connect active opensent openconfirm established : SessionState

pub data Safi : Type 0 where
  safi_unspecified mpls_vpn unicast : Safi

abbrev pub tf : ℕ
tf = 0

abbrev pub phynet : ℕ
phynet = 1

pub record BfdPeer : Type 0 where
  pub bfd_enabled : Bool
  pub bfd_peer_ip : String
  pub bfd_peer_established : Bool
  pub bfd_local_ip : String
  pub bfd_tx_rate : ℕ
  pub bfd_rx_min : ℕ
  pub bfd_multiplier : ℕ

-- The family is always IPv4 and is left out; `bfd_peering` is a pointer, nil for TF controllers.
pub record BgpPeer : Type 0 where
  pub peer_type : ℕ
  pub peer_asn : ℕ
  pub peer_address : String
  pub peer_port : ℕ
  pub md5_password : String
  pub ebgp_multi_hop : Bool
  pub ebgp_multi_hop_ttl : ℕ
  pub vrf_name : String
  pub safi : Safi
  pub keep_alive_timer : ℕ
  pub hold_timer : ℕ
  pub bgp_peer_state : SessionState
  pub bgp_peer_prev_state : SessionState
  pub bgp_peer_last_activity : ℕ
  pub bfd_peering : Option BfdPeer

-- The arguments of the constructor.
pub record PeerArgs : Type 0 where
  pub peer_type : ℕ
  pub peer_asn : ℕ
  pub peer_address : String
  pub peer_port : ℕ
  pub md5_password : String
  pub ebgp_multi_hop : Bool
  pub ebgp_multi_hop_ttl : ℕ
  pub vrf_name : String
  pub keep_alive_timer : ℕ
  pub hold_timer : ℕ

-- The zero value of the struct, which the constructor returns for any other peer type.
abbrev pub zero_peer : BgpPeer
zero_peer = record {
  peer_type = 0;
  peer_asn = 0;
  peer_address = "";
  peer_port = 0;
  md5_password = "";
  ebgp_multi_hop = false;
  ebgp_multi_hop_ttl = 0;
  vrf_name = "";
  safi = safi_unspecified;
  keep_alive_timer = 0;
  hold_timer = 0;
  bgp_peer_state = unknown;
  bgp_peer_prev_state = unknown;
  bgp_peer_last_activity = 0;
  bfd_peering = none;
}

abbrev filled_peer : PeerArgs → Safi → ℕ → BgpPeer
filled_peer a safi now = record {
  peer_type = a.peer_type;
  peer_asn = a.peer_asn;
  peer_address = a.peer_address;
  peer_port = a.peer_port;
  md5_password = a.md5_password;
  ebgp_multi_hop = a.ebgp_multi_hop;
  ebgp_multi_hop_ttl = a.ebgp_multi_hop_ttl;
  vrf_name = a.vrf_name;
  safi = safi;
  keep_alive_timer = a.keep_alive_timer;
  hold_timer = a.hold_timer;
  bgp_peer_state = unknown;
  bgp_peer_prev_state = unknown;
  bgp_peer_last_activity = now;
  bfd_peering = none;
}

unfoldable pub new_bgp_peer : PeerArgs → ℕ → BgpPeer
new_bgp_peer a now =
    if a.peer_type == tf
    then filled_peer a mpls_vpn now
    else if a.peer_type == phynet
    then filled_peer a unicast now
    else zero_peer

unfoldable pub new_bfd_peer : Bool → String → String → ℕ → ℕ → ℕ → BfdPeer
new_bfd_peer enabled peer_ip local_ip tx_rate rx_min multiplier = record {
  bfd_enabled = enabled;
  bfd_peer_ip = peer_ip;
  bfd_peer_established = false;
  bfd_local_ip = local_ip;
  bfd_tx_rate = tx_rate;
  bfd_rx_min = rx_min;
  bfd_multiplier = multiplier;
}
