-- ===== src/Service/Updates/Replaced.antt =====
-- A stored floating ip route that is deleted and created again with other paths
-- (internal/service/handle_bgp_update.go).
use cloudgw.Imdb.FipRoutes.{FipRouteStorage, add_fip_route, fip_route_schema, get_fip_route}
use cloudgw.Imdb.Memdb.{MemDbLaws}
use cloudgw.Imdb.Table.{string_index}
use cloudgw.Imdb.Table.Invariant.{IsValid}
use cloudgw.Imdb.Table.View.{get-add}
use cloudgw.Imdb.UdpTunnels.{udp_tunnel_schema}
use cloudgw.Model.Route.{VppIpRoute}
use cloudgw.Model.Route.Paths.{RoutePath, with_paths}
use cloudgw.Model.Vrf.{BgpVrfTable, RouteTarget, VppVrfTable}
use cloudgw.Service.Tunnels.{add_fip, del_fip}
use cloudgw.Service.Tunnels.Addition.{Adds, add_fip-Adds, Taken, Refused}
use cloudgw.Service.Tunnels.Removal.{Removes, del_fip-Removes}
use cloudgw.Service.Tunnels.Assigned.{AreTunnels, tunnels_in}
use cloudgw.Service.World.{Config, Libs, World}
use cloudgw.Vpp.Total.{IsAligned, VppLaws}
use cloudgw.Prelude.{
  List, Option, Returns, Returns-bind, Returns-mono, String, [], ap, false, if◌then◌else◌, inl, inr,
  length, map, none, refl, some, string_Eq, suc, sym, ℕ, ◌==◌, ◌>>=◌, ◌∙◌, ◌∷◌, ◌≡◌, ◌⊎◌,
}

length-map {ℓ κ} :
    {A : Type ℓ} {B : Type κ} (f : A → B) (xs : List A) → length (map f xs) ≡ length xs
length-map f [] = refl
length-map f (x ∷ xs) = ap suc (length-map f xs)

-- Parallel slices have one length.
pub with_paths-IsAligned : (r : VppIpRoute) (ps : List RoutePath) → IsAligned (with_paths r ps)
with_paths-IsAligned r ps = record {
  ids = length-map _ ps ∙ sym (length-map _ ps);
  labels = length-map _ ps ∙ sym (length-map _ ps);
}

module _ (l : Libs) (laws : MemDbLaws (Libs.by_string l)) (vlaws : VppLaws (Libs.vpp_api l)) where
  abbrev pub route_at : String → World l → Option VppIpRoute
  route_at prefix w = get_fip_route (Libs.by_string l) prefix w.fips

  -- The forwarder took the route with the stored tunnels to its next hops, and the prefix has it; or
  -- the forwarder refused a tunnel or the route, and the prefix has none. All other prefixes have
  -- the route that they had.
  pub record Replaces (next : VppIpRoute) (w u : World l) : Type 0 where
    pub here :
        ((route_at next.prefix u ≡ none) × Refused l laws vlaws next u)
        ⊎ ((ids : List ℕ) × (length ids ≡ length next.next_hops)
            × AreTunnels (tunnels_in l laws u.tunnels) next.next_hops ids
            × Taken l laws vlaws (record next { tunnel_ids = ids }) u
            × (route_at next.prefix u ≡ some (record next { tunnel_ids = ids })))
    pub others : (j : String) → (next.prefix == j) ≡ false → route_at j u ≡ route_at j w

  add_fip_route-view :
      (next : VppIpRoute) (s : FipRouteStorage (Libs.by_string l)) (j : String)
      → IsValid laws fip_route_schema s
      → string_index next.prefix ≡ some next.prefix
      → get_fip_route (Libs.by_string l) j (add_fip_route (Libs.by_string l) next s).1
        ≡ (if next.prefix == j then some next else get_fip_route (Libs.by_string l) j s)
  unfolding get_fip_route add_fip_route
  add_fip_route-view next s j v i = (get-add laws fip_route_schema next next.prefix s v i refl).1 j

  self : {A : Type 0} (x : String) (a b : A) → (if x == x then a else b) ≡ a
  self x a b = rw ((string_Eq.beq_iff x x).1 refl) refl

  Adds-Replaces :
      (next : VppIpRoute) (w v u : World l)
      → IsValid laws fip_route_schema v.fips
      → string_index next.prefix ≡ some next.prefix
      → route_at next.prefix v ≡ none
      → ((j : String) → (next.prefix == j) ≡ false → route_at j v ≡ route_at j w)
      → Adds l laws vlaws next v u
      → Replaces next w u
  Adds-Replaces next w v u valid i gone rest (inl (f, g, e)) = record {
    here = inl (ap (λ s. get_fip_route (Libs.by_string l) next.prefix s) f ∙ gone, e);
    others = λ j e. ap (λ s. get_fip_route (Libs.by_string l) j s) f ∙ rest j e;
  }
  Adds-Replaces next w v u valid i gone rest (inr (ids, n, m, k, f, g)) =
      let look : (j : String)
          → route_at j u
            ≡ (if next.prefix == j then some (record next { tunnel_ids = ids }) else route_at j v) =
        λ j.
          ap (λ s. get_fip_route (Libs.by_string l) j s) f
          ∙ add_fip_route-view (record next { tunnel_ids = ids }) v.fips j valid i in
      record {
        here = inr (ids, n, m, k, look next.prefix ∙ self next.prefix _ _);
        others = λ j e. look j ∙ rw e (rest j e);
      }

  module _ (cfg : Config) (port : String → ℕ) (vrf : VppVrfTable) (bgp_vrf : BgpVrfTable)
      (t : RouteTarget) (ts : List RouteTarget) (imports : bgp_vrf.import_rt ≡ t ∷ ts) where
    -- A route for a prefix that has none.
    pub add_fip-Replaces :
        (next : VppIpRoute) (w v : World l) (h : String) (hs : List String)
        → IsAligned next
        → next.next_hops ≡ h ∷ hs
        → IsValid laws udp_tunnel_schema v.tunnels
        → IsValid laws fip_route_schema v.fips
        → string_index next.prefix ≡ some next.prefix
        → route_at next.prefix v ≡ none
        → ((j : String) → (next.prefix == j) ≡ false → route_at j v ≡ route_at j w)
        → Returns (Replaces next w) (add_fip l cfg port next vrf bgp_vrf v)
    add_fip-Replaces next w v h hs a n vt vf i gone rest =
        Returns-mono (Adds l laws vlaws next v) (Replaces next w) _
          (λ u d. Adds-Replaces next w v u vf i gone rest d)
          (add_fip-Adds l laws vlaws cfg port next vrf bgp_vrf v h hs t ts a vt n imports)

    -- The deletion of a route, and a route for the same prefix.
    pub replace-Replaces :
        (old next : VppIpRoute) (w : World l) (h g : String) (hs gs : List String)
        → IsAligned old
        → IsAligned next
        → old.next_hops ≡ g ∷ gs
        → next.next_hops ≡ h ∷ hs
        → IsValid laws udp_tunnel_schema w.tunnels
        → IsValid laws fip_route_schema w.fips
        → string_index next.prefix ≡ some next.prefix
        → old.prefix ≡ next.prefix
        → Returns
            (Replaces next w)
            (del_fip l cfg old vrf bgp_vrf w >>= λ v. add_fip l cfg port next vrf bgp_vrf v)
    replace-Replaces old next w h g hs gs a b m n vt vf i same =
        Returns-bind (Removes l laws vlaws old w) (Replaces next w) _ _
          (del_fip-Removes l laws vlaws cfg old vrf bgp_vrf w g gs t ts a m imports)
          (λ v d.
            add_fip-Replaces next w v h hs b n (d.valid_tunnels vt) (d.valid_fips vf) i
              (d.gone next.prefix ∙ rw same (self next.prefix _ _))
              (λ j e. d.gone j ∙ rw (same, e) refl))
