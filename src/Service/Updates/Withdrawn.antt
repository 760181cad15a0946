-- ===== src/Service/Updates/Withdrawn.antt =====
-- A path that a controller withdraws (the case `true` of the first callback of
-- internal/service/handle_bgp_update.go).
use cloudgw.Imdb.FipRoutes.{fip_route_schema, get_fip_route, is_fip_with_nh_and_label_exist}
use cloudgw.Imdb.FipRoutes.Paths.{carries, is_fip_with_nh_and_label_exist-carries}
use cloudgw.Imdb.Memdb.{MemDbLaws}
use cloudgw.Imdb.Table.{string_index}
use cloudgw.Imdb.Table.Invariant.{IsValid}
use cloudgw.Imdb.Table.View.{get-indexed}
use cloudgw.Imdb.UdpTunnels.{get_udp_tunnel, udp_tunnel_schema}
use cloudgw.Model.Nlri.{BgpNlriAttrs}
use cloudgw.Model.Route.{VppIpRoute}
use cloudgw.Model.Route.Paths.{RoutePath, hops, with_paths}
use cloudgw.Model.Tunnel.{VppUdpTunnel}
use cloudgw.Model.Vrf.{BgpVrfTable, RouteTarget, VppVrfTable}
use cloudgw.Service.Tunnels.Removal.{Removes, del_fip-Removes}
use cloudgw.Service.Updates.{on_withdraw, withdraw_known, withdraw_path}
use cloudgw.Service.Updates.Replaced.{with_paths-IsAligned}
use cloudgw.Service.World.{Config, Libs, World}
use cloudgw.Vpp.Total.{VppLaws}
use cloudgw.Prelude.{
  List, Returns, Returns-bind, String, [], ap, arith, ok, refl, some, string_Eq, true, ℕ, ◌++◌, ◌∙◌,
  ◌∷◌, ◌≡◌, nat_Eq,
}

pub carries-mid :
    (ps : List RoutePath) (p : RoutePath) (qs : List RoutePath)
    → carries p.next_hop p.mpls_label (ps ++ p ∷ qs) ≡ true
carries-mid [] p qs =
    rw
      (
        (string_Eq.beq_iff p.next_hop p.next_hop).1 refl,
        (nat_Eq.beq_iff p.mpls_label p.mpls_label).1 refl,
      )
      refl
carries-mid (x ∷ ps) p qs = ground (arith, carries-mid ps p qs)

-- A list that is not empty begins with an element.
pub hops_cons :
    (r : VppIpRoute) (ps : List RoutePath) (p : RoutePath) (qs : List RoutePath)
    → (h : String) × (hs : List String) × ((with_paths r (ps ++ p ∷ qs)).next_hops ≡ h ∷ hs)
hops_cons r [] p qs = (p.next_hop, hops qs, refl)
hops_cons r (x ∷ ps) p qs = (x.next_hop, hops (ps ++ p ∷ qs), refl)

own_index : (s k : String) → string_index s ≡ some k → string_index s ≡ some s
own_index s k h = ground arith

-- A stored route has a prefix.
pub found-prefix :
    (l : Libs) (laws : MemDbLaws (Libs.by_string l)) (prefix : String) (r : VppIpRoute)
    (ps : List RoutePath) (w : World l)
    → IsValid laws fip_route_schema w.fips
    → get_fip_route (Libs.by_string l) prefix w.fips ≡ some (with_paths r ps)
    → string_index r.prefix ≡ some r.prefix
unfolding get_fip_route
found-prefix l laws prefix r ps w v e =
    own_index r.prefix prefix
      (get-indexed laws fip_route_schema prefix (with_paths r ps) w.fips v e)

module _ (l : Libs) (laws : MemDbLaws (Libs.by_string l)) (vlaws : VppLaws (Libs.vpp_api l))
    (cfg : Config) (port : String → ℕ) (vrf : VppVrfTable) (bgp_vrf : BgpVrfTable) (t : RouteTarget)
    (ts : List RouteTarget) (imports : bgp_vrf.import_rt ≡ t ∷ ts) (attrs : BgpNlriAttrs)
    (r : VppIpRoute) (w : World l) (p : RoutePath) (same_hop : attrs.next_hop ≡ p.next_hop)
    (ls : List ℕ) (same_label : attrs.mpls_label ≡ p.mpls_label ∷ ls) (tunnel : VppUdpTunnel)
    (has_tunnel : get_udp_tunnel (Libs.by_string l) attrs.next_hop w.tunnels ≡ some tunnel)
    (valid : IsValid laws udp_tunnel_schema w.tunnels)
    (valid_fips : IsValid laws fip_route_schema w.fips) where
  is_known :
      (ps qs : List RoutePath)
      → get_fip_route (Libs.by_string l) attrs.prefix w.fips ≡ some (with_paths r (ps ++ p ∷ qs))
      → is_fip_with_nh_and_label_exist
          (Libs.by_string l)
          attrs.prefix
          attrs.next_hop
          p.mpls_label
          w.fips
        ≡ ok true
  is_known ps qs found = rw same_hop (
      is_fip_with_nh_and_label_exist-carries (Libs.by_string l) attrs.prefix p.next_hop p.mpls_label
        r (ps ++ p ∷ qs) w.fips found
      ∙ ap ok (carries-mid ps p qs))

  -- The guards pass, and the stored route is found.
  guards :
      (ps qs : List RoutePath)
      → get_fip_route (Libs.by_string l) attrs.prefix w.fips ≡ some (with_paths r (ps ++ p ∷ qs))
      → on_withdraw l cfg port attrs vrf bgp_vrf w
        ≡ withdraw_path l cfg port p.next_hop (with_paths r (ps ++ p ∷ qs)) vrf bgp_vrf w
  unfolding on_withdraw withdraw_known
  guards ps qs found =
      rw
        (on_withdraw, same_label, is_known ps qs found, withdraw_known, has_tunnel, found, same_hop)
        refl

  -- Let the BGP table import a target, the forwarder's stream answer each request with its own kind
  -- of reply, and the storages of tunnels and of routes be valid. The withdrawal, by next hop and
  -- label, of the only path of a stored floating ip, to whose next hop a tunnel is stored,
  -- returns and removes the floating ip.
  pub on_withdraw-Removes :
      get_fip_route (Libs.by_string l) attrs.prefix w.fips ≡ some (with_paths r (p ∷ []))
      → Returns
          (Removes l laws vlaws (with_paths r (p ∷ [])) w)
          (on_withdraw l cfg port attrs vrf bgp_vrf w)
  unfolding withdraw_path
  on_withdraw-Removes found =
      rw (guards [] [] found, withdraw_path)
        (Returns-bind (Removes l laws vlaws (with_paths r (p ∷ [])) w) _ _ _
          (del_fip-Removes l laws vlaws cfg (with_paths r (p ∷ [])) vrf bgp_vrf w p.next_hop [] t ts
            (with_paths-IsAligned r (p ∷ [])) refl imports)
          (λ v d. d))
