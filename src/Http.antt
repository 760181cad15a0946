-- ===== src/Http.antt =====
-- The answers of the HTTP API (internal/controller/http/v1/handlers.go), as the values that are
-- printed as JSON.
use cloudgw.Imdb.Memdb.{MemDb, Error, library}
use cloudgw.Imdb.BgpPeers.{BgpPeerStorage, get_bgp_peers}
use cloudgw.Imdb.BgpVrfs.{BgpVrfStorage, get_bgp_vrfs}
use cloudgw.Imdb.VppVrfs.{VppVrfStorage, get_vpp_vrfs}
use cloudgw.Imdb.FipRoutes.{FipRouteStorage, get_fip_routes}
use cloudgw.Imdb.UdpTunnels.{UdpTunnelStorage, get_udp_tunnels}
use cloudgw.App.Storages.{Storages}
use cloudgw.Model.Peer.{BgpPeer, SessionState, established}
use cloudgw.Model.Route.{VppIpRoute}
use cloudgw.Model.Tunnel.{VppUdpTunnel}
use cloudgw.Model.Vrf.{BgpVrfTable, VppVrfTable}
use cloudgw.Vpp.{VppApi}
use cloudgw.Vpp.Dumps.{Dumped, collected, broken, panicked, unfinished, count_udp_tunnels}
use cloudgw.Vpp.RouteDumps.{count_routes_per_table}
use cloudgw.Prelude.{
  Bool, List, String, [], false, if◌then◌else◌, length, suc, true, zero, ◌%◌, ◌++◌, ◌+◌, ◌-◌, ◌==◌,
  ◌^◌, ◌∷◌, ℕ, nat_Eq,
}

pub record SummaryStatus : Type 0 where
  pub bgp_peer_total : ℕ
  pub bgp_peer_active : ℕ
  pub mem_vpp_fip_route_total : ℕ
  pub mem_vpp_udp_tunnel_total : ℕ
  pub vpp_fip_route_total : ℕ
  pub vpp_udp_tunnel_total : ℕ
  pub errors : List Error

abbrev pub is_active_peer : SessionState → Bool
is_active_peer established = true
is_active_peer _ = false

unfoldable pub count_active : List BgpPeer → ℕ
count_active [] = 0
count_active (peer ∷ peers) =
    let rest = count_active peers in if is_active_peer peer.bgp_peer_state then rest + 1 else rest

module _ (v : VppApi) where
  -- The loop over the tables from 1 on, with the rounds that are left, the total and the errors.
  unfoldable pub count_tables :
      ℕ → ℕ → ℕ → ℕ × List Error → VppApi.Stream v → Dumped (ℕ × List Error) × VppApi.Stream v
  unfolding count_routes_per_table
  count_tables fuel zero i s st = (collected s, st)
  count_tables fuel (suc rounds) i (total, errs) st =
      let (r, st1) =
        count_routes_per_table v (record { table_id = i % 2 ^ 32; is_ip6 = false; name = "" }) fuel
          st in
      elim r [
        | collected (routes, fips) ↦ count_tables fuel rounds (i + 1) (total + fips, errs) st1
        | broken e (routes, fips) ↦
            count_tables fuel rounds (i + 1) (total + fips, errs ++ e ∷ []) st1
        | panicked ↦ (panicked, st1)
        | unfinished ↦ (unfinished, st1)
      ]

  abbrev with_tunnels : SummaryStatus → Dumped ℕ → Dumped SummaryStatus
  with_tunnels s (collected n) = collected (record s { vpp_udp_tunnel_total = n })
  with_tunnels s (broken e n) =
      collected (record s { vpp_udp_tunnel_total = n; errors = s.errors ++ e ∷ [] })
  with_tunnels s panicked = panicked
  with_tunnels s unfinished = unfinished

  module _ {ms : MemDb String} {mn : MemDb ℕ} where
    -- The part that reads the storages only.
    unfoldable pub stored_summary : Storages ms mn → SummaryStatus
    unfolding get_bgp_peers get_fip_routes get_udp_tunnels count_active
    stored_summary s =
        let peers = get_bgp_peers ms s.peers in
        record {
          bgp_peer_total = length peers;
          bgp_peer_active = count_active peers;
          mem_vpp_fip_route_total = length (get_fip_routes ms s.fips);
          mem_vpp_udp_tunnel_total = length (get_udp_tunnels ms s.tunnels);
          vpp_fip_route_total = 0;
          vpp_udp_tunnel_total = 0;
          errors = if length peers == 0 then library "no bgp peers found" ∷ [] else [];
        }

    unfoldable pub summary :
        ℕ → Storages ms mn → VppApi.Stream v → Dumped SummaryStatus × VppApi.Stream v
    unfolding stored_summary get_vpp_vrfs count_tables count_udp_tunnels
    summary fuel s st =
        let s0 = stored_summary s in
        let (r, st1) =
          count_tables fuel (length (get_vpp_vrfs mn s.vpp_vrfs) - 1) 1 (0, s0.errors) st in
        elim r [
          | collected (total, errs) ↦
              let (t, st2) = count_udp_tunnels v fuel st1 in
              (with_tunnels (record s0 { vpp_fip_route_total = total; errors = errs }) t, st2)
          | broken e (total, errs) ↦ (broken e s0, st1)
          | panicked ↦ (panicked, st1)
          | unfinished ↦ (unfinished, st1)
        ]

-- What the other handlers print.
pub data Answer : Type 0 where
  error_text : String → Answer
  bgp_peers : List BgpPeer → Answer
  bgp_vrfs : List BgpVrfTable → Answer
  vpp_vrfs : List VppVrfTable → Answer
  vpp_fips : List VppIpRoute → Answer
  vpp_udp_tunnels : List VppUdpTunnel → Answer

unfoldable pub answer_bgp_peers : (m : MemDb String) → BgpPeerStorage m → Answer
unfolding get_bgp_peers
answer_bgp_peers m s =
    if length (get_bgp_peers m s) == 0
    then error_text "no bgp peers found"
    else bgp_peers (get_bgp_peers m s)

unfoldable pub answer_bgp_vrfs : (m : MemDb ℕ) → BgpVrfStorage m → Answer
unfolding get_bgp_vrfs
answer_bgp_vrfs m s = bgp_vrfs (get_bgp_vrfs m s)

unfoldable pub answer_vpp_vrfs : (m : MemDb ℕ) → VppVrfStorage m → Answer
unfolding get_vpp_vrfs
answer_vpp_vrfs m s = vpp_vrfs (get_vpp_vrfs m s)

unfoldable pub answer_vpp_fip_routes : (m : MemDb String) → FipRouteStorage m → Answer
unfolding get_fip_routes
answer_vpp_fip_routes m s = vpp_fips (get_fip_routes m s)

unfoldable pub answer_udp_tunnels : (m : MemDb String) → UdpTunnelStorage m → Answer
unfolding get_udp_tunnels
answer_udp_tunnels m s = vpp_udp_tunnels (get_udp_tunnels m s)
