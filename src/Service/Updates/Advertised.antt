-- ===== src/Service/Updates/Advertised.antt =====
-- A path that a controller advertises (the case `false` of the first callback of
-- internal/service/handle_bgp_update.go).
use cloudgw.Imdb.FipRoutes.{get_fip_route, is_fip_with_nh_and_label_exist}
use cloudgw.Imdb.FipRoutes.Paths.{carries, is_fip_with_nh_and_label_exist-carries}
use cloudgw.Imdb.Memdb.{MemDbLaws}
use cloudgw.Model.Nlri.{BgpNlriAttrs}
use cloudgw.Model.Route.{VppIpRoute, new_vpp_ip_route}
use cloudgw.Model.Route.AddPath.{add_path-inner, is_usable}
use cloudgw.Model.Route.Paths.{RoutePath, hops, with_paths}
use cloudgw.Model.Tunnel.{undefined_tunnel_id}
use cloudgw.Model.Vrf.{BgpVrfTable, RouteTarget, VppVrfTable}
use cloudgw.Netutils.{is_fip}
use cloudgw.Service.Tunnels.Removal.{Removes, del_fip-Removes}
use cloudgw.Service.Updates.{advertise_path, advertise_unknown, on_advertise}
use cloudgw.Service.Updates.Replaced.{with_paths-IsAligned}
use cloudgw.Service.Updates.Withdrawn.{hops_cons}
use cloudgw.Service.Watch.{Watch}
use cloudgw.Service.World.{Config, Libs, World}
use cloudgw.Vpp.Total.{VppLaws}
use cloudgw.Prelude.{
  List, Returns-value, String, [], absent, ap, false, ok, panic, refl, some, string_Eq, true, ℕ,
  ◌++◌, ◌∙◌, ◌∷◌, ◌≡◌, nat_Eq,
}

module _ (l : Libs) (laws : MemDbLaws (Libs.by_string l)) (vlaws : VppLaws (Libs.vpp_api l))
    (cfg : Config) (port : String → ℕ) (vrf : VppVrfTable) (bgp_vrf : BgpVrfTable) (t : RouteTarget)
    (ts : List RouteTarget) (imports : bgp_vrf.import_rt ≡ t ∷ ts) (watch : Watch l)
    (attrs : BgpNlriAttrs) (w : World l) (label : ℕ) (ls : List ℕ)
    (same_label : attrs.mpls_label ≡ label ∷ ls)
    (served : is_fip (Libs.net_api l) attrs.prefix watch.nets ≡ true) where
  -- The path of the update; its tunnel is not known yet.
  abbrev pub new_path : RoutePath
  new_path = record {
    next_hop = attrs.next_hop;
    tunnel_id = undefined_tunnel_id;
    mpls_label = label;
  }

  guards :
      is_fip_with_nh_and_label_exist (Libs.by_string l) attrs.prefix attrs.next_hop label w.fips
        ≡ ok false
      → on_advertise l cfg port watch attrs vrf bgp_vrf w
        ≡ advertise_unknown l cfg port label attrs vrf bgp_vrf w
  unfolding on_advertise
  guards unknown = rw (on_advertise, served, same_label, unknown) refl

  is_unknown :
      (r : VppIpRoute) (ps : List RoutePath)
      → get_fip_route (Libs.by_string l) attrs.prefix w.fips ≡ some (with_paths r ps)
      → carries attrs.next_hop label ps ≡ false
      → is_fip_with_nh_and_label_exist (Libs.by_string l) attrs.prefix attrs.next_hop label w.fips
        ≡ ok false
  is_unknown r ps found c =
      is_fip_with_nh_and_label_exist-carries (Libs.by_string l) attrs.prefix attrs.next_hop label r
        ps w.fips found
      ∙ ap ok c

  stored :
      (r : VppIpRoute) (ps : List RoutePath)
      → get_fip_route (Libs.by_string l) attrs.prefix w.fips ≡ some (with_paths r ps)
      → carries attrs.next_hop label ps ≡ false
      → on_advertise l cfg port watch attrs vrf bgp_vrf w
        ≡ advertise_path l cfg port attrs.next_hop label (with_paths r ps) vrf bgp_vrf w
  unfolding advertise_unknown
  stored r ps found c = guards (is_unknown r ps found c) ∙ rw (advertise_unknown, found) refl

  -- Let the BGP table import a target and the forwarder's stream answer each request with its own
  -- kind of reply. An advertised path of a stored floating ip within the aggregated prefixes,
  -- whose next hop is not empty and is that of one path of the route that is not its last, and
  -- whose label is not 0 and not that of this path, panics the gateway: the route is deleted, and
  -- AddPath then indexes past the end.
  pub on_advertise-inner :
      (r : VppIpRoute) (ps : List RoutePath) (old q : RoutePath) (qs : List RoutePath)
      → get_fip_route (Libs.by_string l) attrs.prefix w.fips
        ≡ some (with_paths r (ps ++ old ∷ q ∷ qs))
      → is_usable new_path ≡ true
      → old.next_hop ≡ attrs.next_hop
      → absent attrs.next_hop (hops ps) ≡ true
      → absent attrs.next_hop (hops (q ∷ qs)) ≡ true
      → carries attrs.next_hop label (ps ++ old ∷ q ∷ qs) ≡ false
      → on_advertise l cfg port watch attrs vrf bgp_vrf w ≡ panic
  unfolding advertise_path
  on_advertise-inner r ps old q qs found u e h k c =
      let (g, gs, old_hops) = hops_cons r ps old (q ∷ qs) in
      let (v, done, d) =
        Returns-value (Removes l laws vlaws (with_paths r (ps ++ old ∷ q ∷ qs)) w) _ (
          del_fip-Removes l laws vlaws cfg (with_paths r (ps ++ old ∷ q ∷ qs)) vrf bgp_vrf w g gs t
            ts (with_paths-IsAligned r (ps ++ old ∷ q ∷ qs)) old_hops imports) in
      stored r (ps ++ old ∷ q ∷ qs) found c
      ∙ rw (advertise_path, done, add_path-inner r ps old new_path q qs u e h k) refl

  -- The route of the update.
  abbrev pub first_route : VppIpRoute
  first_route =
      new_vpp_ip_route attrs.vrf_id cfg.main_interface_id vrf.sub_interface_id attrs.prefix
        (attrs.next_hop ∷ []) (undefined_tunnel_id ∷ []) (label ∷ [])
