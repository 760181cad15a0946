-- ===== src/Gobgpapi.antt =====
-- Requests through the client of the BGP server's API (pkg/gobgpapi/gobgp_api.go). The structs of
-- a routing table and of a peer have the same fields as those of internal/model but for BFD.
pub mod Listed
use cloudgw.Gobgp.{VpnPath}
use cloudgw.Gobgp.Server.{
  BgpControl, Global, IpPath, PeerMessage, VrfMessage, received, end_of_list, unreceived,
  vrf_message,
}
use cloudgw.Imdb.Memdb.{Error, Result, value, failed}
use cloudgw.Model.Nlri.{BgpNlriAttrs}
use cloudgw.Model.Peer.{
  PeerArgs, Safi, SessionState, safi_unspecified, mpls_vpn, unicast, unknown, tf, phynet,
}
use cloudgw.Model.Vrf.{BgpVrfTable}
use cloudgw.Netutils.{NetApi, addr, mask_len}
use cloudgw.Prelude.{
  Bool, List, Option, Outcome, String, [], false, if◌then◌else◌, index, suc, zero, ℕ, ◌++◌, ◌==◌,
  ◌>>=◌, ◌∷◌, ok, nat_Eq,
}

-- BGPPeer of pkg/gobgpapi/gobgp_struct.go
pub record ApiPeer : Type 0 where
  pub peer_type : ℕ
  pub peer_asn : ℕ
  pub peer_address : String
  pub peer_port : ℕ
  pub md5_password : String
  pub ebgp_multi_hop : Bool
  pub ebgp_multi_hop_ttl : ℕ
  pub vrf_name : String
  pub safi : Safi
  pub keep_alive_timer : ℕ
  pub hold_timer : ℕ
  pub bgp_peer_state : SessionState
  pub bgp_peer_prev_state : SessionState
  pub bgp_peer_last_activity : ℕ

abbrev filled_api_peer : PeerArgs → Safi → ℕ → ApiPeer
filled_api_peer a safi now = record {
  peer_type = a.peer_type;
  peer_asn = a.peer_asn;
  peer_address = a.peer_address;
  peer_port = a.peer_port;
  md5_password = a.md5_password;
  ebgp_multi_hop = a.ebgp_multi_hop;
  ebgp_multi_hop_ttl = a.ebgp_multi_hop_ttl;
  vrf_name = a.vrf_name;
  safi = safi;
  keep_alive_timer = a.keep_alive_timer;
  hold_timer = a.hold_timer;
  bgp_peer_state = unknown;
  bgp_peer_prev_state = unknown;
  bgp_peer_last_activity = now;
}

abbrev zero_api_peer : ApiPeer
zero_api_peer = record {
  peer_type = 0;
  peer_asn = 0;
  peer_address = "";
  peer_port = 0;
  md5_password = "";
  ebgp_multi_hop = false;
  ebgp_multi_hop_ttl = 0;
  vrf_name = "";
  safi = safi_unspecified;
  keep_alive_timer = 0;
  hold_timer = 0;
  bgp_peer_state = unknown;
  bgp_peer_prev_state = unknown;
  bgp_peer_last_activity = 0;
}

unfoldable pub new_api_peer : PeerArgs → ℕ → ApiPeer
new_api_peer a now =
    if a.peer_type == tf
    then filled_api_peer a mpls_vpn now
    else if a.peer_type == phynet
    then filled_api_peer a unicast now
    else zero_api_peer

-- The list of peers, an error of the call or of a Recv, or a stream that has not ended.
pub data Listing : Type 0 where
  listed : List PeerMessage → Listing
  refused : Error → Listing
  unfinished : Listing

module _ (c : BgpControl) where
  open c use {
    Conn, Peers, start_bgp, get_bgp, add_vrf, delete_vrf, list_vrf, add_peer, delete_peer,
    list_peer, recv, add_ip_path, delete_ip_path, add_vpn_path, delete_vpn_path,
  }

  unfoldable pub set_gobgp_local_config_by_api : ℕ → String → ℕ → Conn → Option Error × Conn
  set_gobgp_local_config_by_api local_asn router_id port conn =
      start_bgp (record { asn = local_asn; router_id = router_id; listen_port = port }) conn

  unfoldable pub get_gobgp_local_config_by_api : Conn → Result Global
  get_gobgp_local_config_by_api conn = get_bgp conn

  unfoldable pub add_gobgp_vrf_by_api : BgpVrfTable → Conn → Option Error × Conn
  add_gobgp_vrf_by_api vrf conn = add_vrf (vrf_message vrf) conn

  unfoldable pub del_gobgp_vrf_by_api : String → Conn → Option Error × Conn
  del_gobgp_vrf_by_api vrf_name conn = delete_vrf vrf_name conn

  -- The first message of the stream.
  unfoldable pub get_gobgp_vrfs_by_api : String → Conn → Result VrfMessage
  get_gobgp_vrfs_by_api vrf_name conn = elim (list_vrf vrf_name conn) [
    | failed e ↦ failed e
    | value first ↦ first
  ]

  unfoldable pub add_gobgp_peer_by_api : ApiPeer → Conn → Option Error × Conn
  add_gobgp_peer_by_api peer conn =
      add_peer
        (record {
          neighbor_address = peer.peer_address;
          peer_asn = peer.peer_asn;
          auth_password = peer.md5_password;
          vrf = peer.vrf_name;
          multihop_enabled = peer.ebgp_multi_hop;
          multihop_ttl = peer.ebgp_multi_hop_ttl;
          keepalive_interval = peer.keep_alive_timer;
          hold_time = peer.hold_timer;
          remote_port = peer.peer_port;
          safi = peer.safi;
        })
        conn

  unfoldable pub del_gobgp_peer_by_api : String → Conn → Option Error × Conn
  del_gobgp_peer_by_api peer_address conn = delete_peer peer_address conn

  -- The loop over the stream, on fuel.
  unfoldable pub recv_peers : ℕ → List PeerMessage → Peers → Listing
  recv_peers zero peers st = unfinished
  recv_peers (suc fuel) peers st =
      let (r, st1) = recv st in
      elim r [
        | end_of_list ↦ listed peers
        | unreceived e ↦ refused e
        | received peer ↦ recv_peers fuel (peers ++ peer ∷ []) st1
      ]

  unfoldable pub get_gobgp_peers_by_api : ℕ → Conn → Listing
  unfolding recv_peers
  get_gobgp_peers_by_api fuel conn = elim (list_peer conn) [
    | failed e ↦ refused e
    | value st ↦ recv_peers fuel [] st
  ]

  unfoldable pub adv_wdraw_ipv4_prefix_by_api :
      NetApi → Bool → BgpNlriAttrs → Conn → Option Error × Conn
  adv_wdraw_ipv4_prefix_by_api n is_advertise attrs conn =
      let path : IpPath = record {
        prefix = addr n attrs.prefix;
        prefix_len = mask_len n attrs.prefix;
        next_hop = attrs.next_hop;
      } in
      if is_advertise then add_ip_path path conn else delete_ip_path path conn

  -- `rt[0]` is indexed.
  unfoldable pub adv_wdraw_vpnv4_prefix_by_api :
      NetApi → Bool → BgpNlriAttrs → ℕ → Conn → Outcome (Option Error × Conn)
  adv_wdraw_vpnv4_prefix_by_api n is_advertise attrs source_asn conn = do
    target ← index attrs.rt 0
    let path : VpnPath = record {
      labels = attrs.mpls_label;
      path_rd = attrs.rd;
      prefix = addr n attrs.prefix;
      prefix_len = mask_len n attrs.prefix;
      target = target;
      next_hop = attrs.next_hop;
      as_path = source_asn ∷ [];
    }
    ok (if is_advertise then add_vpn_path path conn else delete_vpn_path path conn)
