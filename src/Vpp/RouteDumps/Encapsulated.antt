-- ===== src/Vpp/RouteDumps/Encapsulated.antt =====
-- What DumpFIPRoutes returns (internal/repository/vpp/vpp.go).
use cloudgw.Govpp.{IpTable, ip_table_dump, is_encap}
use cloudgw.Model.Route.{VppIpRoute, new_vpp_ip_route}
use cloudgw.Model.Vrf.{undefined_sub_if}
use cloudgw.Vpp.{VppApi}
use cloudgw.Vpp.Dumps.{collected, more}
use cloudgw.Vpp.Dumps.Ends.{Answered, asked, fold_rounds, served}
use cloudgw.Vpp.RouteDumps.{dump_fip_routes, on_fip_route}
use cloudgw.Vpp.RouteDumps.Scanned.{
  Content, Found, Tells, dump_routes-ends, hops_of, ip4_tables, routes_in, route_message,
  table_message, tables_of,
}
use cloudgw.Vpp.Setup.{tunnels_of, labels_of}
use cloudgw.Prelude.{
  List, [], append_assoc, append_nil, ap, arith, if◌then◌else◌, length, map, refl, ℕ, ◌++◌, ◌<◌,
  ◌∙◌, ◌∷◌, ◌≡◌, Bool-cases, inl, inr, sym,
}

module _ (v : VppApi) where
  -- The floating ip route of a route of the forwarder.
  abbrev pub fip_of : Found → VppIpRoute
  fip_of x =
      new_vpp_ip_route x.table_id x.first.sw_if_index undefined_sub_if x.prefix (hops_of x)
        (tunnels_of v (x.first ∷ x.others)) (labels_of v (x.first ∷ x.others))

  -- Those whose first path is a tunnel.
  abbrev pub tunnelled : List Found → List VppIpRoute
  tunnelled [] = []
  tunnelled (x ∷ xs) =
      let rest = tunnelled xs in if is_encap x.first.path_type then fip_of x ∷ rest else rest

  abbrev add_fip_of : Found → List VppIpRoute → List VppIpRoute
  add_fip_of x acc = if is_encap x.first.path_type then acc ++ fip_of x ∷ [] else acc

  collected_fips :
      (xs : List Found) (acc : List VppIpRoute)
      → fold_rounds add_fip_of acc xs ≡ acc ++ tunnelled xs
  unfolding fold_rounds
  collected_fips [] acc = sym (append_nil acc)
  collected_fips (x ∷ xs) acc = elim (Bool-cases (is_encap x.first.path_type)) [
    | inl tunnel ↦
        simp tunnel (
          collected_fips xs (acc ++ fip_of x ∷ [])
          ∙ append_assoc acc (fip_of x ∷ []) (tunnelled xs))
    | inr other ↦ simp other (collected_fips xs acc)
  ]

  fip_goes :
      (x : Found) (acc : List VppIpRoute)
      → on_fip_route v (route_message x) acc ≡ more (add_fip_of x acc)
  fip_goes x acc = ground arith

  -- Where the forwarder tells its tables and, for each table of IPv4, its routes, and no dump has
  -- more messages than the fuel, DumpFIPRoutes ends with the routes whose first path is a
  -- tunnel, in order, with the next hops, tunnels and labels of all their own paths.
  pub dump_fip_routes-ends :
      (all : List IpTable) (cs : List Content) (fuel : ℕ) (st : VppApi.Stream v)
      → Answered v ip_table_dump (map table_message all) st
      → length all < fuel
      → ip4_tables v all ≡ tables_of v cs
      → Tells v fuel cs (served v (map table_message all) (asked v ip_table_dump st))
      → (dump_fip_routes v fuel st).0 ≡ collected (tunnelled (routes_in v cs))
  unfolding dump_fip_routes
  dump_fip_routes-ends all cs fuel st s h same t =
      dump_routes-ends v (on_fip_route v) add_fip_of (λ a. refl) (λ x a. fip_goes x a) all cs fuel
        [] [] st s h same t
      ∙ ap collected (collected_fips (routes_in v cs) [])
