-- ===== src/Vpp/RouteDumps.antt =====
-- The dumps of the routes of all tables (DumpFIPRoutes, DumpIPRoutes and CountRoutesPerTable of
-- internal/repository/vpp/vpp.go).
pub mod Scanned
pub mod External
pub mod Encapsulated
use cloudgw.Govpp.{
  DumpedPath, DumpedRoute, IpTable, control_ping_reply, ip_route_details, ip_route_dump,
  ip_table_dump, is_encap, is_normal,
}
use cloudgw.Model.Route.{VppIpRoute, new_vpp_ip_route}
use cloudgw.Model.Vrf.{undefined_sub_if}
use cloudgw.Netutils.{NetApi, addr, mask_len}
use cloudgw.Vpp.{VppApi, Reply, setup_reply}
use cloudgw.Vpp.Dumps.{
  Round, Dumped, more, ended, unexpected, panics, collected, broken, panicked, unfinished, dropping,
  dump, on_table,
}
use cloudgw.Vpp.Setup.{tunnels_of, labels_of}
use cloudgw.Prelude.{
  Bool, List, String, [], if◌then◌else◌, map, not, ℕ, ◌&&◌, ◌+◌, ◌++◌, ◌==◌, ◌∷◌, nat_Eq, string_Eq,
}

abbrev pub next_hops_of : List DumpedPath → List String
next_hops_of paths = map (λ p. p.next_hop) paths

-- The cases of the type switches. A route without paths is indexed past its end.
abbrev pub on_count : Reply → ℕ × ℕ → Round (ℕ × ℕ)
on_count (setup_reply (ip_route_details route)) (ip_count, fip_count) = elim route.paths [
  | [] ↦ panics
  | p ∷ ps ↦
      if is_normal p.path_type
      then more (ip_count + 1, fip_count)
      else if is_encap p.path_type
      then more (ip_count, fip_count + 1)
      else more (ip_count, fip_count)
]
on_count (setup_reply control_ping_reply) n = ended
on_count _ n = unexpected

module _ (v : VppApi) where
  abbrev pub on_fip_route : Reply → List VppIpRoute → Round (List VppIpRoute)
  on_fip_route (setup_reply (ip_route_details route)) acc = elim route.paths [
    | [] ↦ panics
    | p ∷ ps ↦
        if is_encap p.path_type
        then more (
            acc
            ++ new_vpp_ip_route route.table_id p.sw_if_index undefined_sub_if route.prefix
                (next_hops_of (p ∷ ps)) (tunnels_of v (p ∷ ps)) (labels_of v (p ∷ ps))
              ∷ [])
        else more acc
  ]
  on_fip_route (setup_reply control_ping_reply) acc = ended
  on_fip_route _ acc = unexpected

  -- The variable dumpedRoute, which is declared once, before both loops.
  abbrev pub zero_route : VppIpRoute
  zero_route = record {
    vrf_id = 0;
    main_interface_id = 0;
    sub_interface_id = 0;
    prefix = "";
    next_hops = [];
    tunnel_ids = [];
    fip_mpls_labels = [];
  }

  -- The variable after the message: its next hops are appended to, and one of its interfaces set.
  unfoldable pub fill_route : DumpedRoute → DumpedPath → VppIpRoute → VppIpRoute
  fill_route route first r =
      let r1 = record r {
        vrf_id = route.table_id;
        prefix = route.prefix;
        next_hops = r.next_hops ++ next_hops_of route.paths;
      } in
      if route.table_id == 0
      then record r1 { main_interface_id = first.sw_if_index }
      else record r1 { sub_interface_id = first.sw_if_index }

  -- The tests on the type, a connected interface, a local address, and a host route.
  unfoldable pub is_external : NetApi → DumpedRoute → DumpedPath → Bool
  is_external n route first =
      is_normal first.path_type
      && (not (first.next_hop == "0.0.0.0")
          && (not (addr n route.prefix == first.next_hop) && not (mask_len n route.prefix == 32)))

  unfoldable pub on_ip_route :
      NetApi → Reply → List VppIpRoute × VppIpRoute → Round (List VppIpRoute × VppIpRoute)
  unfolding fill_route is_external
  on_ip_route n (setup_reply (ip_route_details route)) (acc, r) = elim route.paths [
    | [] ↦ panics
    | p ∷ ps ↦
        if is_external n route p
        then more (acc ++ fill_route route p r ∷ [], fill_route route p r)
        else more (acc, r)
  ]
  on_ip_route n (setup_reply control_ping_reply) s = ended
  on_ip_route n _ s = unexpected

  -- The loop over the tables, with one dump for each.
  unfoldable pub dump_tables {ℓ} :
      {A : Type ℓ}
      → (Reply → A → Round A)
      → ℕ
      → A
      → List IpTable
      → A
      → VppApi.Stream v
      → Dumped A × VppApi.Stream v
  unfolding dump
  dump_tables on fuel d [] a st = (collected a, st)
  dump_tables on fuel d (t ∷ ts) a st =
      let (r, st1) = dump v on (ip_route_dump t) fuel d a st in
      elim r [
        | collected b ↦ dump_tables on fuel d ts b st1
        | broken e b ↦ (broken e b, st1)
        | panicked ↦ (panicked, st1)
        | unfinished ↦ (unfinished, st1)
      ]

  -- Both dumps: the tables, and then the routes of each.
  unfoldable pub dump_routes {ℓ} :
      {A : Type ℓ}
      → (Reply → A → Round A)
      → ℕ
      → A
      → A
      → VppApi.Stream v
      → Dumped A × VppApi.Stream v
  unfolding dump dump_tables
  dump_routes on fuel d a st =
      let (r, st1) = dump v (on_table v) ip_table_dump fuel [] [] st in
      elim r [
        | collected ts ↦ dump_tables on fuel d ts a st1
        | broken e ts ↦ (broken e d, st1)
        | panicked ↦ (panicked, st1)
        | unfinished ↦ (unfinished, st1)
      ]

  unfoldable pub dump_fip_routes : ℕ → VppApi.Stream v → Dumped (List VppIpRoute) × VppApi.Stream v
  unfolding dump_routes
  dump_fip_routes fuel st = dump_routes on_fip_route fuel [] [] st

  -- The routes without the variable; nil beside an error.
  abbrev pub routes_of : Dumped (List VppIpRoute × VppIpRoute) → Dumped (List VppIpRoute)
  routes_of (collected (rs, r)) = collected rs
  routes_of (broken e (rs, r)) = broken e []
  routes_of panicked = panicked
  routes_of unfinished = unfinished

  unfoldable pub dump_ip_routes :
      NetApi → ℕ → VppApi.Stream v → Dumped (List VppIpRoute) × VppApi.Stream v
  unfolding dump_routes on_ip_route
  dump_ip_routes n fuel st =
      let (r, st1) = dump_routes (on_ip_route n) fuel ([], zero_route) ([], zero_route) st in
      (routes_of r, st1)

  unfoldable pub count_routes_per_table :
      IpTable → ℕ → VppApi.Stream v → Dumped (ℕ × ℕ) × VppApi.Stream v
  unfolding dump
  count_routes_per_table table fuel st =
      let (r, st1) = dump v on_count (ip_route_dump table) fuel (0, 0) (0, 0) st in
      (dropping (0, 0) r, st1)
