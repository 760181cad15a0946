-- ===== src/Service/Updates.antt =====
-- The callbacks of HandleBGPUpdate on paths (internal/service/handle_bgp_update.go): updates from
-- the controllers of Tungsten Fabric and from the physical network. `port` draws the source ports
-- of new tunnels. What is only logged has no effect here.
pub mod Replaced
pub mod Withdrawn
pub mod Advertised
use cloudgw.Gobgp.{adv_wdraw_vpnv4_prefix}
use cloudgw.Imdb.BgpPeers.{
  TypeMap, is_configured_bgp_peer, is_phynet, is_tf, create_bgp_peer_to_type_map,
}
use cloudgw.Imdb.BgpVrfs.{get_bgp_vrf}
use cloudgw.Imdb.FipRoutes.{get_fip_route, is_fip_with_nh_and_label_exist}
use cloudgw.Imdb.Memdb.{Result, failed, value, library}
use cloudgw.Imdb.UdpTunnels.{get_udp_tunnel}
use cloudgw.Imdb.VppVrfs.{get_vpp_vrf, get_vpp_vrfs, create_vrf_id_to_next_hop_map}
use cloudgw.Model.Nlri.{BgpNlriAttrs, new_bgp_nlri_attrs}
use cloudgw.Model.Route.{VppIpRoute, new_vpp_ip_route, add_path, del_path}
use cloudgw.Model.Tunnel.{undefined_tunnel_id}
use cloudgw.Model.Vrf.{VppVrfTable, BgpVrfTable}
use cloudgw.Netutils.{NetApi, is_fip}
use cloudgw.Service.Parse.{JsonApi, BgpPath, Parsed, NextHopMap, parse_bgp_update}
use cloudgw.Service.Tunnels.{add_fip, del_fip}
use cloudgw.Service.Watch.{Watch}
use cloudgw.Service.World.{World, Config, Libs}
use cloudgw.Vpp.{add_del_ip_route}
use cloudgw.Prelude.{
  List, Outcome, String, [], deref, if◌then◌else◌, index, length, none, not, ok, some, ℕ, ◌&&◌,
  ◌==◌, ◌>>=◌, ◌∷◌, ◌++◌, nat_Eq, true, false, Bool,
}

module _ (l : Libs) (cfg : Config) (port : String → ℕ) where
  open l use {by_string, by_number, net_api, vpp_api, bgp_api}

  -- The route of a received path, with one next hop.
  unfoldable pub received_route : BgpNlriAttrs → VppVrfTable → Outcome VppIpRoute
  unfolding new_vpp_ip_route
  received_route attrs vrf = do
    label ← index attrs.mpls_label 0
    ok (
        new_vpp_ip_route attrs.vrf_id cfg.main_interface_id vrf.sub_interface_id attrs.prefix
          (attrs.next_hop ∷ []) (undefined_tunnel_id ∷ []) (label ∷ []))

  -- Withdrawal, once the path is known to be stored: the stored route is deleted, and created again
  -- without the path if it had others.
  unfoldable pub withdraw_path :
      String → VppIpRoute → VppVrfTable → BgpVrfTable → World l → Outcome (World l)
  withdraw_path next_hop stored vrf bgp_vrf w = do
    w1 ← del_fip l cfg stored vrf bgp_vrf w
    if length stored.next_hops == 1
        then ok w1
        else do route ← del_path next_hop stored; add_fip l cfg port route vrf bgp_vrf w1

  -- The same, from the search for the tunnel on.
  unfoldable pub withdraw_known :
      BgpNlriAttrs → VppVrfTable → BgpVrfTable → World l → Outcome (World l)
  unfolding withdraw_path
  withdraw_known attrs vrf bgp_vrf w = elim (get_udp_tunnel by_string attrs.next_hop w.tunnels) [
    | none ↦ ok w
    | some tunnel ↦ do
      stored ← deref (get_fip_route by_string attrs.prefix w.fips)
      withdraw_path attrs.next_hop stored vrf bgp_vrf w
  ]

  -- The case `true` of the switch.
  unfoldable pub on_withdraw :
      BgpNlriAttrs → VppVrfTable → BgpVrfTable → World l → Outcome (World l)
  unfolding withdraw_known
  on_withdraw attrs vrf bgp_vrf w = do
    label ← index attrs.mpls_label 0
    known ← is_fip_with_nh_and_label_exist by_string attrs.prefix attrs.next_hop label w.fips
    if known then withdraw_known attrs vrf bgp_vrf w else ok w

  -- An advertised path of a floating ip that is stored: the route is deleted, and created again
  -- with the path. The tunnel of the path is not known yet.
  unfoldable pub advertise_path :
      String → ℕ → VppIpRoute → VppVrfTable → BgpVrfTable → World l → Outcome (World l)
  advertise_path next_hop label stored vrf bgp_vrf w = do
    w1 ← del_fip l cfg stored vrf bgp_vrf w
    route ← add_path next_hop undefined_tunnel_id label stored
    add_fip l cfg port route vrf bgp_vrf w1

  -- An advertised path that is not known yet.
  unfoldable pub advertise_unknown :
      ℕ → BgpNlriAttrs → VppVrfTable → BgpVrfTable → World l → Outcome (World l)
  unfolding advertise_path received_route
  advertise_unknown label attrs vrf bgp_vrf w = elim (get_fip_route by_string attrs.prefix w.fips) [
    | none ↦ do route ← received_route attrs vrf; add_fip l cfg port route vrf bgp_vrf w
    | some stored ↦ advertise_path attrs.next_hop label stored vrf bgp_vrf w
  ]

  -- The case `false` of the switch.
  unfoldable pub on_advertise :
      Watch l → BgpNlriAttrs → VppVrfTable → BgpVrfTable → World l → Outcome (World l)
  unfolding advertise_unknown
  on_advertise watch attrs vrf bgp_vrf w =
      if not (is_fip net_api attrs.prefix watch.nets) then ok w else (do
        label ← index attrs.mpls_label 0
        known ← is_fip_with_nh_and_label_exist by_string attrs.prefix attrs.next_hop label w.fips
        if known then ok w else advertise_unknown label attrs vrf bgp_vrf w)

  -- The switch, once both tables of the VRF are found. The route is built before it, so that a path
  -- without a label panics in both cases.
  unfoldable pub on_tf_attrs :
      Watch l → Bool → BgpNlriAttrs → VppVrfTable → BgpVrfTable → World l → Outcome (World l)
  unfolding on_withdraw on_advertise received_route
  on_tf_attrs watch is_withdraw attrs vrf bgp_vrf w = do
    route ← received_route attrs vrf
    if is_withdraw then on_withdraw attrs vrf bgp_vrf w else on_advertise watch attrs vrf bgp_vrf w

  -- From the result of the parser on: errors, updates of other peers and unknown VRFs are skipped.
  unfoldable pub on_tf_parsed : Watch l → Bool → Parsed → World l → Outcome (World l)
  unfolding on_tf_attrs
  on_tf_parsed watch is_withdraw p w = elim p.err [
    | some e ↦ ok w
    | none ↦ elim p.from_tf [
      | false ↦ ok w
      | true ↦ elim (get_vpp_vrf by_number p.attrs.vrf_id w.vpp_vrfs) [
        | none ↦ ok w
        | some vrf ↦ elim (get_bgp_vrf by_number p.attrs.vrf_id w.bgp_vrfs) [
          | none ↦ ok w
          | some bgp_vrf ↦ on_tf_attrs watch is_withdraw p.attrs vrf bgp_vrf w
        ]
      ]
    ]
  ]

  -- The requests for a path of the physical network.
  unfoldable pub on_pn_attrs :
      Bool → BgpNlriAttrs → VppVrfTable → BgpVrfTable → VppVrfTable → World l → Outcome (World l)
  unfolding new_vpp_ip_route new_bgp_nlri_attrs
  on_pn_attrs is_withdraw attrs vrf bgp_vrf default_vrf w = do
    r ←
        add_del_ip_route vpp_api (not is_withdraw)
          (new_vpp_ip_route attrs.vrf_id cfg.main_interface_id vrf.sub_interface_id attrs.prefix
            (attrs.next_hop ∷ []) [] [])
          w.stream
    s ←
        adv_wdraw_vpnv4_prefix net_api bgp_api (not is_withdraw)
          (new_bgp_nlri_attrs attrs.prefix default_vrf.local_addr 0 (some bgp_vrf.rd)
            bgp_vrf.export_rt (vrf.mpls_local_label ∷ []))
          bgp_vrf.peer_asn w.server
    ok (record w { stream = r.1; server = s.1 })

  -- The tables are pointers that may be nil; an error of the parser is only logged.
  unfoldable pub on_pn_parsed : Bool → Parsed → World l → Outcome (World l)
  unfolding on_pn_attrs
  on_pn_parsed is_withdraw p w = if not p.from_pn then ok w else do
    vrf ← deref (get_vpp_vrf by_number p.attrs.vrf_id w.vpp_vrfs)
    default_vrf ← deref (get_vpp_vrf by_number 0 w.vpp_vrfs)
    bgp_vrf ← deref (get_bgp_vrf by_number p.attrs.vrf_id w.bgp_vrfs)
    on_pn_attrs is_withdraw p.attrs vrf bgp_vrf default_vrf w

  module _ (j : JsonApi) (watch : Watch l) where
    -- One path of the first callback.
    unfoldable pub on_tf_path : BgpPath j → World l → Outcome (World l)
    unfolding on_tf_parsed
    on_tf_path path w =
        if is_configured_bgp_peer by_string path.neighbor_ip w.peers
          && is_phynet by_string path.neighbor_ip w.peers
        then ok w
        else (do
          p ← parse_bgp_update j path watch.next_hops watch.types cfg.tf_asn cfg.local_asn
          on_tf_parsed watch path.is_withdraw p w)

    -- One path of the second callback.
    unfoldable pub on_pn_path : BgpPath j → World l → Outcome (World l)
    unfolding on_pn_parsed
    on_pn_path path w =
        if is_configured_bgp_peer by_string path.neighbor_ip w.peers
          && is_tf by_string path.neighbor_ip w.peers
        then ok w
        else (do
          p ← parse_bgp_update j path watch.next_hops watch.types cfg.tf_asn cfg.local_asn
          on_pn_parsed path.is_withdraw p w)

    -- The loops over the paths of an event.
    unfoldable pub on_tf_paths : List (BgpPath j) → World l → Outcome (World l)
    unfolding on_tf_path
    on_tf_paths [] w = ok w
    on_tf_paths (p ∷ ps) w = do w1 ← on_tf_path p w; on_tf_paths ps w1

    unfoldable pub on_pn_paths : List (BgpPath j) → World l → Outcome (World l)
    unfolding on_pn_path
    on_pn_paths [] w = ok w
    on_pn_paths (p ∷ ps) w = do w1 ← on_pn_path p w; on_pn_paths ps w1
