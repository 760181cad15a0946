-- ===== src/Service/Tunnels/Removal.antt =====
-- The removal of a floating ip (internal/service/tunnel_route_remove.go): that it returns, and what
-- is left in the storages.
use cloudgw.Imdb.Memdb.{Error, MemDbLaws, no_vpp_fip_found}
use cloudgw.Imdb.FipRoutes.{del_fip_route, get_fip_route, fip_route_schema, FipRouteStorage}
use cloudgw.Imdb.Table.Change.{delete-IsValid}
use cloudgw.Imdb.Table.Invariant.{IsValid}
use cloudgw.Imdb.UdpTunnels.{UdpTunnelStorage, dec_fip_served, udp_tunnel_schema}
use cloudgw.Imdb.UdpTunnels.Refinement.{decs, step, step-IsValid}
use cloudgw.Imdb.Table.Updates.{get-delete}
use cloudgw.Imdb.VppVrfs.{vrf_dec_fip_served, vrf_get_fip_served}
use cloudgw.Model.Route.{VppIpRoute}
use cloudgw.Model.Vrf.{VppVrfTable, BgpVrfTable, RouteTarget}
use cloudgw.Service.Tunnels.{dec_all, del_fip, forget_fip, forget_route, withdraw_unused}
use cloudgw.Service.World.{World, Config, Libs}
use cloudgw.Vpp.{VppApi}
use cloudgw.Vpp.Total.{VppLaws, IsAligned, add_del_fip_route-Returns}
use cloudgw.Prelude.{
  ap, sym, subst, Bool-cases, List, Option, Returns, Returns-bind, Returns-mono, String, absent,
  arith, false, if◌then◌else◌, index, inl, inr, none, ok, some, ◌==◌, ◌∙◌, ◌∷◌, ◌≡◌, nat_Eq,
  string_Eq, [],
}
use cloudgw.Service.Tunnels.Settled.{
  SameStores, Settled, Drops, announce-Returns, drop_tunnels-Returns,
}

logs-Returns :
    (o : Option Error) (route : VppIpRoute) (h : String) (hs : List String)
    → route.next_hops ≡ h ∷ hs
    → Returns (λ _. Unit {0}) (elim o [ none ↦ index route.next_hops 0 | some e ↦ ok "" ])
logs-Returns none route h hs n = rw n tt
logs-Returns (some e) route h hs n = tt

module _ (l : Libs) (laws : MemDbLaws (Libs.by_string l)) (vlaws : VppLaws (Libs.vpp_api l)) where
  -- What a removal of a floating ip leaves: its route is gone and no other, the counter of its
  -- VRF has gone down, and no tunnel to its next hops is kept that serves nothing.
  pub record Removes (route : VppIpRoute) (w u : World l) : Type 0 where
    pub gone :
        (j : String)
        → get_fip_route (Libs.by_string l) j u.fips
          ≡ (if route.prefix == j then none else get_fip_route (Libs.by_string l) j w.fips)
    pub counted : u.vpp_vrfs ≡ vrf_dec_fip_served (Libs.by_number l) route.vrf_id w.vpp_vrfs
    pub settled : (nh : String) → absent nh route.next_hops ≡ false → Settled l laws nh u.tunnels
    pub valid_tunnels :
        IsValid laws udp_tunnel_schema w.tunnels → IsValid laws udp_tunnel_schema u.tunnels
    pub valid_fips : IsValid laws fip_route_schema w.fips → IsValid laws fip_route_schema u.fips

  dec_all-IsValid :
      (nhs : List String) (s : UdpTunnelStorage (Libs.by_string l))
      → IsValid laws udp_tunnel_schema s
      → IsValid laws udp_tunnel_schema (dec_all l nhs s)
  unfolding dec_all step
  dec_all-IsValid [] s v = v
  dec_all-IsValid (nh ∷ nhs) s v =
      dec_all-IsValid nhs (dec_fip_served (Libs.by_string l) nh s) (step-IsValid laws (decs nh) s v)

  del_fip_route-IsValid :
      (prefix : String) (s : FipRouteStorage (Libs.by_string l))
      → IsValid laws fip_route_schema s
      → IsValid laws fip_route_schema (del_fip_route (Libs.by_string l) prefix s).1
  unfolding del_fip_route
  del_fip_route-IsValid prefix s v =
      delete-IsValid laws fip_route_schema no_vpp_fip_found prefix s v

  route_gone :
      (prefix j : String) (w : World l)
      → get_fip_route (Libs.by_string l) j (del_fip_route (Libs.by_string l) prefix w.fips).1
        ≡ (if prefix == j then none else get_fip_route (Libs.by_string l) j w.fips)
  unfolding get_fip_route del_fip_route
  route_gone prefix j w = get-delete laws fip_route_schema no_vpp_fip_found prefix j w.fips

  SameStores-Removes :
      (route : VppIpRoute) (w u v : World l)
      → SameStores l u v
      → Removes route w u
      → Removes route w v
  SameStores-Removes route w u v k d = record {
    gone = λ j.
        ap (λ (s : FipRouteStorage (Libs.by_string l)). get_fip_route (Libs.by_string l) j s) k.0
        ∙ d.gone j;
    counted = k.1 ∙ d.counted;
    settled = λ nh a. subst (Settled l laws nh) (sym k.2) (d.settled nh a);
    valid_tunnels = λ x. subst (IsValid laws udp_tunnel_schema) (sym k.2) (d.valid_tunnels x);
    valid_fips = λ x. subst (IsValid laws fip_route_schema) (sym k.0) (d.valid_fips x);
  }

  withdraw_unused-Removes :
      (cfg : Config) (route : VppIpRoute) (vrf : VppVrfTable) (bgp_vrf : BgpVrfTable)
      (w u : World l) (t : RouteTarget) (ts : List RouteTarget)
      → bgp_vrf.import_rt ≡ t ∷ ts
      → Removes route w u
      → Returns (Removes route w) (withdraw_unused l cfg route vrf bgp_vrf u)
  unfolding withdraw_unused
  withdraw_unused-Removes cfg route vrf bgp_vrf w u t ts g d =
      elim (Bool-cases (vrf_get_fip_served (Libs.by_number l) route.vrf_id u.vpp_vrfs == 0)) [
        | inl e ↦
            rw (e, withdraw_unused)
              (Returns-mono _ (Removes route w) _ (λ v k. SameStores-Removes route w u v k d)
                (announce-Returns l cfg false vrf bgp_vrf t ts vrf.fip_prefixes u g))
        | inr e ↦ rw (e, withdraw_unused) d
      ]

  Drops-Removes :
      (cfg : Config) (route : VppIpRoute) (st : VppApi.Stream (Libs.vpp_api l)) (w u : World l)
      → Drops l laws route.next_hops (forget_route l cfg route st w) u
      → Removes route w u
  Drops-Removes cfg route st w u d = record {
    gone = λ j.
        ap (λ (s : FipRouteStorage (Libs.by_string l)). get_fip_route (Libs.by_string l) j s)
          d.same_fips
        ∙ route_gone route.prefix j w;
    counted = d.same_vrfs;
    settled = λ nh a. d.settles nh a;
    valid_tunnels = λ x. d.stays_valid (dec_all-IsValid route.next_hops w.tunnels x);
    valid_fips = λ x.
        subst (IsValid laws fip_route_schema) (sym d.same_fips)
          (del_fip_route-IsValid route.prefix w.fips x);
  }

  forget_fip-Removes :
      (cfg : Config) (route : VppIpRoute) (vrf : VppVrfTable) (bgp_vrf : BgpVrfTable)
      (st : VppApi.Stream (Libs.vpp_api l)) (w : World l) (t : RouteTarget) (ts : List RouteTarget)
      → IsAligned route
      → bgp_vrf.import_rt ≡ t ∷ ts
      → Returns (Removes route w) (forget_fip l cfg route vrf bgp_vrf st w)
  unfolding forget_fip
  forget_fip-Removes cfg route vrf bgp_vrf st w t ts a g =
      Returns-bind _ (Removes route w) _ _
        (drop_tunnels-Returns l laws vlaws 0 route.next_hops route.tunnel_ids
          (forget_route l cfg route st w) (omega (arith, a.ids)))
        (λ u d.
          withdraw_unused-Removes cfg route vrf bgp_vrf w u t ts g
            (Drops-Removes cfg route st w u d))

  -- The removal of a floating ip returns where the slices of its route have one length, the route
  -- has a next hop, the BGP table imports a target, and the forwarder's stream answers each
  -- request with its own kind of reply. Whatever the forwarder and the BGP server say, the route
  -- is gone from the storage and no other route is, the counter of the VRF has been taken down,
  -- and a tunnel to one of the next hops that serves no floating ip is gone as well. The storages
  -- of tunnels and of routes stay valid.
  pub del_fip-Removes :
      (cfg : Config) (route : VppIpRoute) (vrf : VppVrfTable) (bgp_vrf : BgpVrfTable) (w : World l)
      (h : String) (hs : List String) (t : RouteTarget) (ts : List RouteTarget)
      → IsAligned route
      → route.next_hops ≡ h ∷ hs
      → bgp_vrf.import_rt ≡ t ∷ ts
      → Returns (Removes route w) (del_fip l cfg route vrf bgp_vrf w)
  unfolding del_fip
  del_fip-Removes cfg route vrf bgp_vrf w h hs t ts a n g =
      Returns-bind (λ _. Unit {0}) (Removes route w) _ _
        (add_del_fip_route-Returns vlaws false route w.stream a)
        (λ r u.
          Returns-bind (λ _. Unit {0}) (Removes route w) _ _ (logs-Returns r.0 route h hs n)
            (λ x y. forget_fip-Removes cfg route vrf bgp_vrf r.1 w t ts a g))
