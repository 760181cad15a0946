-- ===== src/App/Storages.antt =====
-- The storages at the start of the application (internal/app/init_imdb.go), filled from the
-- configuration. All peers are given one time of day.
pub mod Filled
pub mod Counted
pub mod Complete
pub mod Peers
pub mod Vrfs
use cloudgw.Config.{AppConfig, VrfConfig, TfController}
use cloudgw.Imdb.Memdb.{MemDb, Error}
use cloudgw.Imdb.BgpPeers.{BgpPeerStorage, new_bgp_peer_storage, add_bgp_peer, get_bgp_peers}
use cloudgw.Imdb.BgpVrfs.{BgpVrfStorage, new_bgp_vrf_storage, add_bgp_vrf, get_bgp_vrfs}
use cloudgw.Imdb.VppVrfs.{VppVrfStorage, new_vpp_vrf_storage, add_vpp_vrf, get_vpp_vrfs}
use cloudgw.Imdb.FipRoutes.{FipRouteStorage, new_fip_route_storage}
use cloudgw.Imdb.UdpTunnels.{UdpTunnelStorage, new_udp_tunnel_storage}
use cloudgw.Model.Peer.{BgpPeer, new_bgp_peer, new_bfd_peer, tf, phynet}
use cloudgw.Model.Vrf.{
  BgpVrfTable, VppVrfTable, new_bgp_vrf_table, new_vpp_vrf_table, rd, rt, undefined_sub_if,
  undefined_label,
}
use cloudgw.Netutils.{NetApi, addr, mask_len}
use cloudgw.Netutils.Label.{mpls_label}
use cloudgw.Prelude.{List, Option, String, [], if◌then◌else◌, length, ltb, none, some, true, ℕ, ◌∷◌}

-- The errors that end the start, each with what the message names.
pub data InitError : Type 0 where
  failed_bgp_peer : String → Error → InitError
  few_bgp_peers : ℕ → InitError
  failed_bgp_vrf : String → Error → InitError
  few_bgp_vrfs : ℕ → InitError
  failed_vpp_vrf : ℕ → Error → InitError
  few_vpp_vrfs : ℕ → InitError
  failed_label : InitError

pub data Init {ℓ} (A : Type ℓ) : Type ℓ where
  done : A → Init A
  refused : InitError → Init A

infixl 5 ◌>>=◌
abbrev pub ◌>>=◌ {ℓ κ} : {A : Type ℓ} {B : Type κ} → Init A → (A → Init B) → Init B
done a >>= f = f a
refused e >>= f = refused e

-- A loop that makes an object of each entry and adds it to a storage, up to the first error.
unfoldable pub fill :
    {A Row S : Type 0}
    → (A → Init Row)
    → (Row → S → Option Error × S)
    → (A → Error → InitError)
    → List A
    → S
    → Init S
fill make put wrap [] s = done s
fill make put wrap (x ∷ xs) s = elim (make x) [
  | refused e ↦ refused e
  | done row ↦
      let (err, s1) = put row s in
      elim err [ some e ↦ refused (wrap x e) | none ↦ fill make put wrap xs s1 ]
]

unfoldable pub tf_peer : TfController → ℕ → String → BgpPeer
unfolding new_bgp_peer
tf_peer cfg now ip =
    new_bgp_peer
      (record {
        peer_type = tf;
        peer_asn = cfg.bgp_peer_asn;
        peer_address = ip;
        peer_port = 179;
        md5_password = "";
        ebgp_multi_hop = true;
        ebgp_multi_hop_ttl = cfg.bgp_ttl;
        vrf_name = "";
        keep_alive_timer = cfg.bgp_keep_alive;
        hold_timer = cfg.bgp_hold_timer;
      })
      now

unfoldable pub phynet_peer : ℕ → VrfConfig → BgpPeer
unfolding new_bgp_peer new_bfd_peer
phynet_peer now vrf =
    record (new_bgp_peer
      (record {
        peer_type = phynet;
        peer_asn = vrf.bgp_peer_asn;
        peer_address = vrf.bgp_peer_ip;
        peer_port = 179;
        md5_password = vrf.bgp_password;
        ebgp_multi_hop = true;
        ebgp_multi_hop_ttl = vrf.bgp_ttl;
        vrf_name = vrf.vrf_name;
        keep_alive_timer = vrf.bgp_keep_alive;
        hold_timer = vrf.bgp_hold_timer;
      })
      now) {
        bfd_peering = some (
            new_bfd_peer vrf.bfd_enable vrf.bgp_peer_ip vrf.bfd_local_ip vrf.bfd_tx_rate
              vrf.bfd_rx_min vrf.bfd_multiplier);
      }

unfoldable pub bgp_vrf_of : AppConfig → VrfConfig → BgpVrfTable
unfolding new_bgp_vrf_table rd rt
bgp_vrf_of cfg vrf =
    new_bgp_vrf_table vrf.vrf_name vrf.vrf_id cfg.gobgp.bgp_local_asn vrf.bgp_peer_asn
      (rd cfg.gobgp.rid vrf.vrf_id) (rt cfg.tf_controller.bgp_peer_asn vrf.vrf_id ∷ [])
      (rt cfg.tf_controller.bgp_peer_asn vrf.vrf_id ∷ [])

unfoldable pub global_table : NetApi → AppConfig → VppVrfTable
unfolding new_vpp_vrf_table addr mask_len
global_table n cfg =
    new_vpp_vrf_table "ipv4-VRF:0" 0 cfg.vpp.main_interface_id undefined_sub_if 0
      (addr n cfg.vpp.tun_local_ip) (mask_len n cfg.vpp.tun_local_ip) cfg.vpp.tun_default_gw
      undefined_label []

unfoldable pub vpp_vrf_of : NetApi → AppConfig → VrfConfig → Init VppVrfTable
unfolding new_vpp_vrf_table mpls_label addr mask_len
vpp_vrf_of n cfg vrf = elim (mpls_label n vrf.local_ip) [
  | none ↦ refused failed_label
  | some label ↦ done (
      new_vpp_vrf_table vrf.vrf_name vrf.vrf_id cfg.vpp.main_interface_id undefined_sub_if
        vrf.vlan_id (addr n vrf.local_ip) (mask_len n vrf.local_ip) vrf.bgp_peer_ip label
        vrf.fip_prefixes)
]

module _ (m : MemDb String) (now : ℕ) (cfg : AppConfig) where
  unfoldable pub add_tf_peers : List String → BgpPeerStorage m → Init (BgpPeerStorage m)
  unfolding fill tf_peer add_bgp_peer
  add_tf_peers =
      fill (λ ip. done (tf_peer cfg.tf_controller now ip)) (add_bgp_peer m)
        (λ ip e. failed_bgp_peer ip e)

  unfoldable pub add_phynet_peers : List VrfConfig → BgpPeerStorage m → Init (BgpPeerStorage m)
  unfolding fill phynet_peer add_bgp_peer
  add_phynet_peers =
      fill (λ vrf. done (phynet_peer now vrf)) (add_bgp_peer m)
        (λ vrf e. failed_bgp_peer vrf.bgp_peer_ip e)

  -- The test at the end.
  unfoldable pub enough_peers : BgpPeerStorage m → Init (BgpPeerStorage m)
  unfolding get_bgp_peers
  enough_peers s =
      if ltb (length (get_bgp_peers m s)) 2
      then refused (few_bgp_peers (length (get_bgp_peers m s)))
      else done s

  unfoldable pub init_bgp_peer_storage : Init (BgpPeerStorage m)
  unfolding add_tf_peers add_phynet_peers enough_peers new_bgp_peer_storage
  init_bgp_peer_storage = do
    s1 ← add_tf_peers cfg.tf_controller.address (new_bgp_peer_storage m)
    s2 ← add_phynet_peers cfg.vrf s1
    enough_peers s2

module _ (m : MemDb ℕ) (cfg : AppConfig) where
  unfoldable pub enough_bgp_vrfs : BgpVrfStorage m → Init (BgpVrfStorage m)
  unfolding get_bgp_vrfs
  enough_bgp_vrfs s =
      if ltb (length (get_bgp_vrfs m s)) 1
      then refused (few_bgp_vrfs (length (get_bgp_vrfs m s)))
      else done s

  unfoldable pub init_bgp_vrf_storage : Init (BgpVrfStorage m)
  unfolding fill bgp_vrf_of add_bgp_vrf enough_bgp_vrfs new_bgp_vrf_storage
  init_bgp_vrf_storage = do
    s ←
        fill (λ vrf. done (bgp_vrf_of cfg vrf)) (add_bgp_vrf m)
          (λ vrf e. failed_bgp_vrf vrf.vrf_name e) cfg.vrf (new_bgp_vrf_storage m)
    enough_bgp_vrfs s

module _ (m : MemDb ℕ) (n : NetApi) (cfg : AppConfig) where
  unfoldable pub enough_vpp_vrfs : VppVrfStorage m → Init (VppVrfStorage m)
  unfolding get_vpp_vrfs
  enough_vpp_vrfs s =
      if ltb (length (get_vpp_vrfs m s)) 2
      then refused (few_vpp_vrfs (length (get_vpp_vrfs m s)))
      else done s

  unfoldable pub add_global_table : VppVrfStorage m → Init (VppVrfStorage m)
  unfolding global_table add_vpp_vrf
  add_global_table s =
      let (err, s1) = add_vpp_vrf m (global_table n cfg) s in
      elim err [ some e ↦ refused (failed_vpp_vrf 0 e) | none ↦ done s1 ]

  unfoldable pub init_vpp_vrf_storage : Init (VppVrfStorage m)
  unfolding fill vpp_vrf_of add_vpp_vrf add_global_table enough_vpp_vrfs new_vpp_vrf_storage
  init_vpp_vrf_storage = do
    s ← add_global_table (new_vpp_vrf_storage m)
    s1 ← fill (vpp_vrf_of n cfg) (add_vpp_vrf m) (λ vrf e. failed_vpp_vrf vrf.vrf_id e) cfg.vrf s
    enough_vpp_vrfs s1

pub record Storages (ms : MemDb String) (mn : MemDb ℕ) : Type 0 where
  pub peers : BgpPeerStorage ms
  pub bgp_vrfs : BgpVrfStorage mn
  pub vpp_vrfs : VppVrfStorage mn
  pub fips : FipRouteStorage ms
  pub tunnels : UdpTunnelStorage ms

unfoldable pub init_storages :
    (ms : MemDb String) (mn : MemDb ℕ) → NetApi → ℕ → AppConfig → Init (Storages ms mn)
unfolding init_bgp_peer_storage init_bgp_vrf_storage init_vpp_vrf_storage new_fip_route_storage
    new_udp_tunnel_storage
init_storages ms mn n now cfg = do
  peers ← init_bgp_peer_storage ms now cfg
  bgp_vrfs ← init_bgp_vrf_storage mn cfg
  vpp_vrfs ← init_vpp_vrf_storage mn n cfg
  done (record {
    peers = peers;
    bgp_vrfs = bgp_vrfs;
    vpp_vrfs = vpp_vrfs;
    fips = new_fip_route_storage ms;
    tunnels = new_udp_tunnel_storage ms;
  })
