-- ===== src/Gobgp/Server.antt =====
-- Requests to the BGP server (internal/repository/gobgp/gobgp.go). The methods of the library's
-- server are a parameter, which also stands for those of the client of its API. Constants of a
-- message (the family, the origin, the type of the table) are left out.
use cloudgw.Imdb.Memdb.{Error, Result}
use cloudgw.Model.Nlri.{BgpNlriAttrs}
use cloudgw.Model.Peer.{BgpPeer, Safi}
use cloudgw.Model.Vrf.{BgpVrfTable, RouteDistinguisher, RouteTarget}
use cloudgw.Netutils.{NetApi, addr, mask_len}
use cloudgw.Gobgp.{VpnPath}
use cloudgw.Prelude.{Bool, List, Option, String, if◌then◌else◌, ℕ}

pub record Global : Type 0 where
  pub asn : ℕ
  pub router_id : String
  pub listen_port : ℕ

pub record VrfMessage : Type 0 where
  pub name : String
  pub id : ℕ
  pub rd : RouteDistinguisher
  pub import_rt : List RouteTarget
  pub export_rt : List RouteTarget

pub record PeerMessage : Type 0 where
  pub neighbor_address : String
  pub peer_asn : ℕ
  pub auth_password : String
  pub vrf : String
  pub multihop_enabled : Bool
  pub multihop_ttl : ℕ
  pub keepalive_interval : ℕ
  pub hold_time : ℕ
  pub remote_port : ℕ
  pub safi : Safi

pub record IpPath : Type 0 where
  pub prefix : String
  pub prefix_len : ℕ
  pub next_hop : String

-- A set of prefixes, each with the lengths that it stands for, or of neighbors.
pub record PrefixRange : Type 0 where
  pub ip_prefix : String
  pub mask_length_min : ℕ
  pub mask_length_max : ℕ

pub data DefinedSet : Type 0 where
  prefix_set : String → List PrefixRange → DefinedSet
  neighbor_set : String → List String → DefinedSet

pub data RouteAction : Type 0 where
  accept reject : RouteAction

pub record Statement : Type 0 where
  pub name : String
  pub prefixes : String
  pub neighbors : String
  pub action : RouteAction

pub record Policy : Type 0 where
  pub name : String
  pub statements : List Statement

-- The assignment of policies to the exports of the global table.
pub record Assignment : Type 0 where
  pub policies : List Policy
  pub default_action : RouteAction

-- What one Recv of a list of peers gives.
pub data Received : Type 0 where
  received : PeerMessage → Received
  end_of_list : Received
  unreceived : Error → Received

pub data TableType : Type 0 where
  adj_in adj_out : TableType

pub record BgpControl : Type 1 where
  pub Conn : Type 0
  pub start_bgp : Global → Conn → Option Error × Conn
  pub get_bgp : Conn → Result Global
  pub add_vrf : VrfMessage → Conn → Option Error × Conn
  pub delete_vrf : String → Conn → Option Error × Conn
  pub list_vrf : String → Conn → Result (Result VrfMessage)
  pub add_peer : PeerMessage → Conn → Option Error × Conn
  pub delete_peer : String → Conn → Option Error × Conn
  pub Peers : Type 0
  pub list_peer : Conn → Result Peers
  pub recv : Peers → Received × Peers
  pub add_ip_path : IpPath → Conn → Option Error × Conn
  pub delete_ip_path : IpPath → Conn → Option Error × Conn
  pub add_vpn_path : VpnPath → Conn → Option Error × Conn
  pub delete_vpn_path : VpnPath → Conn → Option Error × Conn
  pub add_defined_set : DefinedSet → Conn → Option Error × Conn
  pub add_policy : Policy → Conn → Option Error × Conn
  pub add_policy_assignment : Assignment → Conn → Option Error × Conn
  pub get_table : TableType → Safi → String → Conn → Result ℕ

abbrev pub vrf_message : BgpVrfTable → VrfMessage
vrf_message vrf = record {
  name = vrf.name;
  id = vrf.id;
  rd = vrf.rd;
  import_rt = vrf.import_rt;
  export_rt = vrf.export_rt;
}

abbrev pub peer_message : BgpPeer → PeerMessage
peer_message peer = record {
  neighbor_address = peer.peer_address;
  peer_asn = peer.peer_asn;
  auth_password = peer.md5_password;
  vrf = peer.vrf_name;
  multihop_enabled = peer.ebgp_multi_hop;
  multihop_ttl = peer.ebgp_multi_hop_ttl;
  keepalive_interval = peer.keep_alive_timer;
  hold_time = peer.hold_timer;
  remote_port = peer.peer_port;
  safi = peer.safi;
}

module _ (c : BgpControl) where
  open c use {
    Conn, start_bgp, get_bgp, add_vrf, delete_vrf, add_peer, delete_peer, add_ip_path,
    delete_ip_path, get_table,
  }

  unfoldable pub set_gobgp_local_config : ℕ → String → ℕ → Conn → Option Error × Conn
  set_gobgp_local_config asn router_id port conn =
      start_bgp (record { asn = asn; router_id = router_id; listen_port = port }) conn

  unfoldable pub get_gobgp_local_config : Conn → Result Global
  get_gobgp_local_config conn = get_bgp conn

  unfoldable pub add_gobgp_vrf : BgpVrfTable → Conn → Option Error × Conn
  add_gobgp_vrf vrf conn = add_vrf (vrf_message vrf) conn

  unfoldable pub del_gobgp_vrf : String → Conn → Option Error × Conn
  del_gobgp_vrf vrf_name conn = delete_vrf vrf_name conn

  unfoldable pub gobgp_add_bgp_peer : BgpPeer → Conn → Option Error × Conn
  gobgp_add_bgp_peer peer conn = add_peer (peer_message peer) conn

  unfoldable pub gobgp_del_bgp_peer : BgpPeer → Conn → Option Error × Conn
  gobgp_del_bgp_peer peer conn = delete_peer peer.peer_address conn

  unfoldable pub adv_wdraw_ipv4_prefix : NetApi → Bool → BgpNlriAttrs → Conn → Option Error × Conn
  adv_wdraw_ipv4_prefix n is_advertise attrs conn =
      let path : IpPath = record {
        prefix = addr n attrs.prefix;
        prefix_len = mask_len n attrs.prefix;
        next_hop = attrs.next_hop;
      } in
      if is_advertise then add_ip_path path conn else delete_ip_path path conn

  -- The number of destinations of a table, as it is before the conversion to a float.
  unfoldable pub update_gobgp_per_peer_metrics : TableType → Safi → String → Conn → Result ℕ
  update_gobgp_per_peer_metrics table safi bgp_peer conn = get_table table safi bgp_peer conn
