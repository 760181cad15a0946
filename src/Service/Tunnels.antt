-- ===== src/Service/Tunnels.antt =====
-- Floating ips and their tunnels in the forwarder and the storages
-- (internal/service/tunnel_route_add.go and tunnel_route_remove.go). What is only logged has no
-- effect here. A random source port is drawn by `port`, as a function of the next hop.
pub mod Settled
pub mod Removal
pub mod Assigned
pub mod Ensured
pub mod Addition
use cloudgw.Gobgp.{adv_wdraw_vpnv4_prefix}
use cloudgw.Imdb.VppVrfs.{vrf_inc_fip_served, vrf_dec_fip_served, vrf_get_fip_served}
use cloudgw.Model.Nlri.{new_bgp_nlri_attrs}
use cloudgw.Imdb.FipRoutes.{add_fip_route, del_fip_route}
use cloudgw.Model.Route.{VppIpRoute}
use cloudgw.Model.Vrf.{VppVrfTable, BgpVrfTable, undefined_label}
use cloudgw.Model.Tunnel.{
  VppUdpTunnel, undefined_tunnel_id, new_vpp_udp_tunnel, rand_udp_tunnel_src_port,
}
use cloudgw.Imdb.Memdb.{Result, failed, value}
use cloudgw.Imdb.UdpTunnels.{
  add_udp_tunnel, get_udp_tunnel, is_udp_tunnel_exist, inc_fip_served, UdpTunnelStorage,
  dec_fip_served, del_udp_tunnel, get_fip_served,
}
use cloudgw.Netutils.{addr}
use cloudgw.Vpp.{VppApi, vpp_add_udp_tunnel, add_del_fip_route, vpp_del_udp_tunnel}
use cloudgw.Service.World.{World, Config, Libs}
use cloudgw.Prelude.{
  List, Outcome, String, [], deref, if◌then◌else◌, panic, suc, zero, ℕ, ◌>>=◌, ◌∷◌, ok, some, ltb,
  none, index, ◌==◌, false, true, Bool, nat_Eq,
}

-- `xs[i] = v`
abbrev pub set_at : List ℕ → ℕ → ℕ → Outcome (List ℕ)
set_at [] i v = panic
set_at (x ∷ xs) zero v = ok (v ∷ xs)
set_at (x ∷ xs) (suc i) v = set_at xs i v >>= λ rest. ok (x ∷ rest)

-- How the loop over the next hops ends: by its end, or by a return on an error.
pub data Loop {ℓ} (A : Type ℓ) : Type ℓ where
  goes_on returns : A → Loop A

module _ (l : Libs) where
  -- After the forwarder was asked for a tunnel: on an error the caller returns.
  unfoldable pub tunnel_created :
      ℕ
      → List ℕ
      → World l
      → Result VppUdpTunnel × VppApi.Stream (Libs.vpp_api l)
      → Outcome (Loop (List ℕ × World l))
  tunnel_created i ids w (failed e, st) = ok (returns (ids, record w { stream = st }))
  tunnel_created i ids w (value tunnel, st) = do
    ids' ← set_at ids i tunnel.tunnel_id
    ok (
        goes_on (
          ids',
          record w {
            stream = st;
            tunnels = (add_udp_tunnel (Libs.by_string l) tunnel w.tunnels).1;
          },
        ))

  -- The counters of the tunnels, one call for each next hop.
  unfoldable pub inc_all :
      List String → UdpTunnelStorage (Libs.by_string l) → UdpTunnelStorage (Libs.by_string l)
  inc_all [] s = s
  inc_all (nh ∷ nhs) s = inc_all nhs (inc_fip_served (Libs.by_string l) nh s)

  unfoldable pub dec_all :
      List String → UdpTunnelStorage (Libs.by_string l) → UdpTunnelStorage (Libs.by_string l)
  dec_all [] s = s
  dec_all (nh ∷ nhs) s = dec_all nhs (dec_fip_served (Libs.by_string l) nh s)

  -- The last loop of DelFIPAndTunnelFromVPPAndStorage before the withdrawal.
  unfoldable pub drop_tunnels : ℕ → List String → List ℕ → World l → Outcome (World l)
  drop_tunnels i [] ids w = ok w
  drop_tunnels i (nh ∷ nhs) ids w = elim (get_fip_served (Libs.by_string l) nh w.tunnels == 0) [
    | false ↦ drop_tunnels (suc i) nhs ids w
    | true ↦ do
      id ← index ids i
      r ← vpp_del_udp_tunnel (Libs.vpp_api l) id w.stream
      drop_tunnels (suc i) nhs ids
          (record w { stream = r.1; tunnels = (del_udp_tunnel (Libs.by_string l) nh w.tunnels).1 })
  ]

module _ (l : Libs) (cfg : Config) where
  -- The loop over the aggregated prefixes of a VRF; an error is only logged.
  unfoldable pub announce :
      Bool → VppVrfTable → BgpVrfTable → List String → World l → Outcome (World l)
  announce is_advertise vrf bgp_vrf [] w = ok w
  announce is_advertise vrf bgp_vrf (prefix ∷ prefixes) w = do
    let attrs =
        new_bgp_nlri_attrs prefix vrf.local_addr 0 (some bgp_vrf.rd) bgp_vrf.import_rt
          (undefined_label ∷ [])
    r ←
        adv_wdraw_vpnv4_prefix (Libs.net_api l) (Libs.bgp_api l) is_advertise attrs cfg.tf_asn
          w.server
    announce is_advertise vrf bgp_vrf prefixes (record w { server = r.1 })

  -- The withdrawal of the aggregated prefixes after the last floating ip of a VRF.
  unfoldable pub withdraw_unused :
      VppIpRoute → VppVrfTable → BgpVrfTable → World l → Outcome (World l)
  unfolding announce
  withdraw_unused route vrf bgp_vrf w =
      if vrf_get_fip_served (Libs.by_number l) route.vrf_id w.vpp_vrfs == 0
      then announce false vrf bgp_vrf vrf.fip_prefixes w
      else ok w

  -- The route and the counters in the storages, after the forwarder's stream is `st`.
  abbrev pub forget_route : VppIpRoute → VppApi.Stream (Libs.vpp_api l) → World l → World l
  forget_route route st w = record w {
    stream = st;
    fips = (del_fip_route (Libs.by_string l) route.prefix w.fips).1;
    vpp_vrfs = vrf_dec_fip_served (Libs.by_number l) route.vrf_id w.vpp_vrfs;
    tunnels = dec_all l route.next_hops w.tunnels;
  }

  -- The part after the route is deleted from the forwarder.
  unfoldable pub forget_fip :
      VppIpRoute
      → VppVrfTable
      → BgpVrfTable
      → VppApi.Stream (Libs.vpp_api l)
      → World l
      → Outcome (World l)
  unfolding drop_tunnels withdraw_unused
  forget_fip route vrf bgp_vrf st w = do
    w1 ← drop_tunnels l 0 route.next_hops route.tunnel_ids (forget_route route st w)
    withdraw_unused route vrf bgp_vrf w1

  -- DelFIPAndTunnelFromVPPAndStorage. The message on success names NextHops[0].
  unfoldable pub del_fip : VppIpRoute → VppVrfTable → BgpVrfTable → World l → Outcome (World l)
  unfolding forget_fip
  del_fip route vrf bgp_vrf w = do
    r ← add_del_fip_route (Libs.vpp_api l) false route w.stream
    logged ← elim r.0 [ none ↦ index route.next_hops 0 | some e ↦ ok "" ]
    forget_fip route vrf bgp_vrf r.1 w

  -- The announcement of the aggregated prefixes, left out from the third floating ip on.
  unfoldable pub announce_first :
      VppIpRoute → VppVrfTable → BgpVrfTable → World l → Outcome (World l)
  unfolding announce
  announce_first route vrf bgp_vrf w =
      if ltb 2 (vrf_get_fip_served (Libs.by_number l) route.vrf_id w.vpp_vrfs)
      then ok w
      else announce true vrf bgp_vrf vrf.fip_prefixes w

  -- The route and the counters in the storages.
  abbrev pub store_route : VppIpRoute → World l → World l
  store_route route w = record w {
    fips = (add_fip_route (Libs.by_string l) route w.fips).1;
    vpp_vrfs = vrf_inc_fip_served (Libs.by_number l) route.vrf_id w.vpp_vrfs;
    tunnels = inc_all l route.next_hops w.tunnels;
  }

  -- AddFIPAndTunnelInVPPAndStorage after the forwarder has taken the route.
  unfoldable pub record_fip : VppIpRoute → VppVrfTable → BgpVrfTable → World l → Outcome (World l)
  unfolding announce_first
  record_fip route vrf bgp_vrf w = do
    logged ← index route.next_hops 0
    announce_first route vrf bgp_vrf (store_route route w)

  -- and from the request for the route on
  unfoldable pub install_fip : VppIpRoute → VppVrfTable → BgpVrfTable → World l → Outcome (World l)
  install_fip route vrf bgp_vrf w = do
    r ← add_del_fip_route (Libs.vpp_api l) true route w.stream
    elim r.0 [
      | some e ↦ ok (record w { stream = r.1 })
      | none ↦ record_fip route vrf bgp_vrf (record w { stream = r.1 })
    ]

module _ (l : Libs) (cfg : Config) (port : String → ℕ) where
  -- One round of the first loop of AddFIPAndTunnelInVPPAndStorage.
  unfoldable pub ensure_tunnel : ℕ → String → List ℕ → World l → Outcome (Loop (List ℕ × World l))
  unfolding tunnel_created
  ensure_tunnel i nh ids w =
      if is_udp_tunnel_exist (Libs.by_string l) nh w.tunnels
      then (do
        tunnel ← deref (get_udp_tunnel (Libs.by_string l) nh w.tunnels)
        ids' ← set_at ids i tunnel.tunnel_id
        ok (goes_on (ids', w)))
      else (do
        let fresh =
            new_vpp_udp_tunnel undefined_tunnel_id (addr (Libs.net_api l) cfg.tun_local_ip) nh
              (rand_udp_tunnel_src_port (port nh))
        added ← vpp_add_udp_tunnel (Libs.vpp_api l) fresh w.stream
        tunnel_created l i ids w added)

  unfoldable pub ensure_tunnels :
      ℕ → List String → List ℕ → World l → Outcome (Loop (List ℕ × World l))
  ensure_tunnels i [] ids w = ok (goes_on (ids, w))
  ensure_tunnels i (nh ∷ nhs) ids w = do
    r ← ensure_tunnel i nh ids w
    elim r [ returns x ↦ ok (returns x) | goes_on (ids', w') ↦ ensure_tunnels (suc i) nhs ids' w' ]

  -- AddFIPAndTunnelInVPPAndStorage
  unfoldable pub add_fip : VppIpRoute → VppVrfTable → BgpVrfTable → World l → Outcome (World l)
  add_fip route vrf bgp_vrf w = do
    r ← ensure_tunnels 0 route.next_hops route.tunnel_ids w
    elim r [
      | returns (ids, w1) ↦ ok w1
      | goes_on (ids, w1) ↦ install_fip l cfg (record route { tunnel_ids = ids }) vrf bgp_vrf w1
    ]
