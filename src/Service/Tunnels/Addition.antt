-- ===== src/Service/Tunnels/Addition.antt =====
-- The addition of a floating ip (internal/service/tunnel_route_add.go): that it returns, and what
-- is left in the storages.
use cloudgw.Imdb.Memdb.{Error, MemDbLaws}
use cloudgw.Imdb.FipRoutes.{add_fip_route, FipRouteStorage}
use cloudgw.Imdb.Table.Invariant.{IsValid}
use cloudgw.Imdb.UdpTunnels.{udp_tunnel_schema, UdpTunnelStorage}
use cloudgw.Imdb.VppVrfs.{VppVrfStorage, vrf_inc_fip_served, vrf_get_fip_served}
use cloudgw.Model.Route.{VppIpRoute}
use cloudgw.Model.Vrf.{VppVrfTable, BgpVrfTable, RouteTarget}
use cloudgw.Service.Tunnels.{
  Loop, goes_on, returns, install_fip, record_fip, add_fip, announce_first, store_route, VppApi,
  add_del_fip_route, inc_all,
}
use cloudgw.Service.Tunnels.Settled.{SameStores, announce-Returns}
use cloudgw.Service.Tunnels.Assigned.{AreTunnels, tunnels_in, Keeps-AreTunnels, inc_all-Keeps}
use cloudgw.Service.World.{World, Config, Libs}
use cloudgw.Vpp.Total.{VppLaws, IsAligned, add_del_fip_route-Returns}
use cloudgw.Prelude.{
  Outcome, Bool-cases, List, Option, Returns, Returns-bind, Returns-mono, String, [], ap, arith,
  inl, inr, length, none, ok, refl, some, true, ℕ, ◌∙◌, ◌∷◌, ◌≡◌, string_Eq, ltb, ◌⊎◌, index, sym,
  Returns-next, subst,
}
use cloudgw.Service.Tunnels.Ensured.{LoopGoes, ensure_tunnels-Goes, TunnelRefused}

head-Returns :
    (xs : List String) (h : String) (hs : List String)
    → xs ≡ h ∷ hs
    → Returns (λ _. Unit {0}) (index xs 0)
head-Returns [] h hs e = cc
head-Returns (x ∷ xs) h hs e = tt

module _ (l : Libs) (laws : MemDbLaws (Libs.by_string l)) (vlaws : VppLaws (Libs.vpp_api l)) where
  -- The last request was for the route, with some tunnels, one for each next hop, and it failed.
  abbrev pub RouteRefused : VppIpRoute → World l → Type 0
  RouteRefused route u =
      (ids : List ℕ) × (st : VppApi.Stream (Libs.vpp_api l)) × (e : Error) × (length ids
        ≡ length route.next_hops)
      × (add_del_fip_route (Libs.vpp_api l) true (record route { tunnel_ids = ids }) st
          ≡ ok (some e, u.stream))

  -- The forwarder refused a tunnel or the route.
  abbrev pub Refused : VppIpRoute → World l → Type 0
  Refused route u = TunnelRefused l route.next_hops u ⊎ RouteRefused route u

  -- The last request was for the route, and the forwarder took it.
  abbrev pub Taken : VppIpRoute → World l → Type 0
  Taken route u =
      (st : VppApi.Stream (Libs.vpp_api l)) × (add_del_fip_route (Libs.vpp_api l) true route st
        ≡ ok (none, u.stream))

  -- What an addition leaves: after an error of the forwarder no route and no counter of a VRF is
  -- changed; or the forwarder took the route, it is stored as it was taken, with the stored tunnels
  -- to its next hops, and the counter of its VRF has gone up.
  abbrev pub Adds : VppIpRoute → World l → World l → Type 0
  Adds route w u =
      ((u.fips ≡ w.fips) × (u.vpp_vrfs ≡ w.vpp_vrfs) × Refused route u)
      ⊎ ((ids : List ℕ) × (length ids ≡ length route.next_hops)
          × AreTunnels (tunnels_in l laws u.tunnels) route.next_hops ids
          × Taken (record route { tunnel_ids = ids }) u
          × (u.fips
              ≡ (add_fip_route (Libs.by_string l) (record route { tunnel_ids = ids }) w.fips).1)
          × (u.vpp_vrfs ≡ vrf_inc_fip_served (Libs.by_number l) route.vrf_id w.vpp_vrfs))

  -- The route is stored, as the forwarder took it.
  abbrev Stored : VppIpRoute → World l → World l → Type 0
  Stored route w u =
      AreTunnels (tunnels_in l laws u.tunnels) route.next_hops route.tunnel_ids
      × Taken route u
      × (u.fips ≡ (add_fip_route (Libs.by_string l) route w.fips).1)
      × (u.vpp_vrfs ≡ vrf_inc_fip_served (Libs.by_number l) route.vrf_id w.vpp_vrfs)

  SameStores-Stored :
      (route : VppIpRoute) (w u v : World l)
      → SameStores l u v
      → Stored route w u
      → Stored route w v
  SameStores-Stored route w u v k d = (
    subst
        (λ (t : UdpTunnelStorage (Libs.by_string l)).
          AreTunnels (tunnels_in l laws t) route.next_hops route.tunnel_ids)
        (sym k.2) d.0,
    (d.1.0, d.1.1 ∙ ap (λ z. ok (none, z)) (sym k.3)),
    k.0 ∙ d.2,
    k.1 ∙ d.3,
  )

  store_route-Stored :
      (cfg : Config) (route : VppIpRoute) (w u : World l)
      → u.fips ≡ w.fips
      → u.vpp_vrfs ≡ w.vpp_vrfs
      → IsValid laws udp_tunnel_schema u.tunnels
      → AreTunnels (tunnels_in l laws u.tunnels) route.next_hops route.tunnel_ids
      → Taken route u
      → Stored route w (store_route l cfg route u)
  store_route-Stored cfg route w u f v x a k = (
    Keeps-AreTunnels (tunnels_in l laws u.tunnels)
        (tunnels_in l laws (inc_all l route.next_hops u.tunnels)) route.next_hops route.tunnel_ids
        (inc_all-Keeps l laws route.next_hops u.tunnels x) a,
    k,
    ap (λ (s : FipRouteStorage (Libs.by_string l)). (add_fip_route (Libs.by_string l) route s).1) f,
    ap
        (λ (s : VppVrfStorage (Libs.by_number l)).
          vrf_inc_fip_served (Libs.by_number l) route.vrf_id s)
        v,
  )

  answered :
      (P : World l → Type 0) (o : Option Error) (u : World l) (m : Outcome (World l))
      → ((e : Error) → o ≡ some e → P u)
      → (o ≡ none → Returns P m)
      → Returns P (elim o [ some e ↦ ok u | none ↦ m ])
  answered P none u m a b = b refl
  answered P (some e) u m a b = a e refl

  announce_first-Stored :
      (cfg : Config) (route : VppIpRoute) (vrf : VppVrfTable) (bgp_vrf : BgpVrfTable)
      (w u : World l) (t : RouteTarget) (ts : List RouteTarget)
      → bgp_vrf.import_rt ≡ t ∷ ts
      → Stored route w u
      → Returns (Stored route w) (announce_first l cfg route vrf bgp_vrf u)
  unfolding announce_first
  announce_first-Stored cfg route vrf bgp_vrf w u t ts g d =
      elim (Bool-cases (ltb 2 (vrf_get_fip_served (Libs.by_number l) route.vrf_id u.vpp_vrfs))) [
        | inl e ↦ rw (e, announce_first) d
        | inr e ↦
            rw (e, announce_first)
              (Returns-mono _ (Stored route w) _ (λ v k. SameStores-Stored route w u v k d)
                (announce-Returns l cfg true vrf bgp_vrf t ts vrf.fip_prefixes u g))
      ]

  record_fip-Stored :
      (cfg : Config) (route : VppIpRoute) (vrf : VppVrfTable) (bgp_vrf : BgpVrfTable)
      (w u : World l) (h : String) (hs : List String) (t : RouteTarget) (ts : List RouteTarget)
      → u.fips ≡ w.fips
      → u.vpp_vrfs ≡ w.vpp_vrfs
      → IsValid laws udp_tunnel_schema u.tunnels
      → AreTunnels (tunnels_in l laws u.tunnels) route.next_hops route.tunnel_ids
      → Taken route u
      → route.next_hops ≡ h ∷ hs
      → bgp_vrf.import_rt ≡ t ∷ ts
      → Returns (Stored route w) (record_fip l cfg route vrf bgp_vrf u)
  unfolding record_fip
  record_fip-Stored cfg route vrf bgp_vrf w u h hs t ts f v x a k n g =
      Returns-bind (λ _. Unit {0}) (Stored route w) _ _ (head-Returns route.next_hops h hs n)
        (λ logged y.
          announce_first-Stored cfg route vrf bgp_vrf w (store_route l cfg route u) t ts g
            (store_route-Stored cfg route w u f v x a k))

  install_fip-Adds :
      (cfg : Config) (route : VppIpRoute) (vrf : VppVrfTable) (bgp_vrf : BgpVrfTable) (ids : List ℕ)
      (w u : World l) (h : String) (hs : List String) (t : RouteTarget) (ts : List RouteTarget)
      → IsAligned (record route { tunnel_ids = ids })
      → u.fips ≡ w.fips
      → u.vpp_vrfs ≡ w.vpp_vrfs
      → IsValid laws udp_tunnel_schema u.tunnels
      → AreTunnels (tunnels_in l laws u.tunnels) route.next_hops ids
      → route.next_hops ≡ h ∷ hs
      → bgp_vrf.import_rt ≡ t ∷ ts
      → Returns (Adds route w) (install_fip l cfg (record route { tunnel_ids = ids }) vrf bgp_vrf u)
  unfolding install_fip
  install_fip-Adds cfg route vrf bgp_vrf ids w u h hs t ts a f v valid m n g =
      Returns-next (λ _. Unit {0}) (Adds route w) _ _
        (add_del_fip_route-Returns vlaws true (record route { tunnel_ids = ids }) u.stream a)
        (λ r k y.
          answered (Adds route w) r.0 (record u { stream = r.1 }) _
            (λ e x. inl (f, v, inr (ids, u.stream, e, a.ids, k ∙ ap (λ z. ok (z, r.1)) x)))
            (λ x.
              Returns-mono (Stored (record route { tunnel_ids = ids }) w) (Adds route w) _
                (λ z d. inr (ids, a.ids, d.0, d.1, d.2, d.3))
                (record_fip-Stored cfg (record route { tunnel_ids = ids }) vrf bgp_vrf w
                  (record u { stream = r.1 }) h hs t ts f v valid m
                  (u.stream, k ∙ ap (λ z. ok (z, r.1)) x) n g)))

  looped-Adds :
      (cfg : Config) (route : VppIpRoute) (vrf : VppVrfTable) (bgp_vrf : BgpVrfTable) (w : World l)
      (h : String) (hs : List String) (t : RouteTarget) (ts : List RouteTarget)
      → length route.fip_mpls_labels ≡ length route.next_hops
      → route.next_hops ≡ h ∷ hs
      → bgp_vrf.import_rt ≡ t ∷ ts
      → (a : Loop (List ℕ × World l)) → LoopGoes l laws w route.next_hops route.next_hops a
      → Returns (Adds route w) (elim a [
        | goes_on x ↦ install_fip l cfg (record route { tunnel_ids = x.0 }) vrf bgp_vrf x.1
        | returns x ↦ ok x.1
      ])
  looped-Adds cfg route vrf bgp_vrf w h hs t ts b n g (goes_on (ids, u)) k =
      install_fip-Adds cfg route vrf bgp_vrf ids w u h hs t ts
        (record { ids = k.same_length; labels = b }) k.same_fips k.same_vrfs k.valid k.assigned n g
  looped-Adds cfg route vrf bgp_vrf w h hs t ts b n g (returns (ids, u)) k =
      inl (k.0.same_fips, k.0.same_vrfs, inl k.1)

  pub add_fip-Adds :
      (cfg : Config) (port : String → ℕ) (route : VppIpRoute) (vrf : VppVrfTable)
      (bgp_vrf : BgpVrfTable) (w : World l) (h : String) (hs : List String) (t : RouteTarget)
      (ts : List RouteTarget)
      → IsAligned route
      → IsValid laws udp_tunnel_schema w.tunnels
      → route.next_hops ≡ h ∷ hs
      → bgp_vrf.import_rt ≡ t ∷ ts
      → Returns (Adds route w) (add_fip l cfg port route vrf bgp_vrf w)
  unfolding add_fip
  add_fip-Adds cfg port route vrf bgp_vrf w h hs t ts a v n g =
      Returns-bind (LoopGoes l laws w route.next_hops route.next_hops) (Adds route w) _ _
        (ensure_tunnels-Goes l laws w route.next_hops vlaws cfg port [] route.next_hops
          route.tunnel_ids w (omega arith) (λ j x. x)
          (record {
            same_length = a.ids;
            same_fips = refl;
            same_vrfs = refl;
            valid = v;
            assigned = tt;
          }))
        (looped-Adds cfg route vrf bgp_vrf w h hs t ts a.labels n g)
