-- ===== src/Vpp/RouteDumps/External.antt =====
-- What DumpIPRoutes returns (internal/repository/vpp/vpp.go).
use cloudgw.Govpp.{IpTable, ip_table_dump, control_ping_reply, is_normal}
use cloudgw.Model.Route.{VppIpRoute}
use cloudgw.Netutils.{NetApi, mask_len, addr}
use cloudgw.Vpp.{VppApi, setup_reply}
use cloudgw.Vpp.Dumps.{collected, more, ended}
use cloudgw.Vpp.Dumps.Ends.{Answered, asked, fold_rounds, served}
use cloudgw.Vpp.RouteDumps.{
  dump_ip_routes, fill_route, is_external, on_ip_route, zero_route, routes_of,
}
use cloudgw.Vpp.RouteDumps.Scanned.{
  Content, Found, Tells, dump_routes-ends, hops_of, ip4_tables, route_of, routes_in, table_message,
  tables_of, route_message,
}
use cloudgw.Prelude.{
  List, String, [], append_assoc, append_nil, ap, arith, if◌then◌else◌, length, map, map-append,
  refl, ℕ, ◌++◌, ◌<◌, ◌∙◌, ◌∷◌, ◌≡◌, Bool-cases, inl, inr, Bool, sym, ◌==◌, ◌||◌, not, string_Eq,
  nat_Eq,
}

-- The route is no external one: its first path is not a normal one, or it leads to a connected
-- network, to the address of the prefix itself, or to a single host.
abbrev is_inside : NetApi → Found → Bool
is_inside n x =
    (not (is_normal x.first.path_type) || x.first.next_hop == "0.0.0.0")
    || (addr n x.prefix == x.first.next_hop || mask_len n x.prefix == 32)

module _ (v : VppApi) (n : NetApi) where
  abbrev pub is_outside : Found → Bool
  is_outside x = not (is_inside n x)

  is_external-is_outside : (x : Found) → is_external v n (route_of x) x.first ≡ is_outside x
  unfolding is_external
  is_external-is_outside x = ground arith

  abbrev pub outside : List Found → List Found
  outside [] = []
  outside (x ∷ xs) = let rest = outside xs in if is_outside x then x ∷ rest else rest

  -- For each route the next hops of all routes up to it.
  abbrev pub gathered : List String → List Found → List (List String)
  gathered acc [] = []
  gathered acc (x ∷ xs) = (acc ++ hops_of x) ∷ gathered (acc ++ hops_of x) xs

  abbrev Scan : Type 0
  Scan = List VppIpRoute × VppIpRoute

  abbrev scan_route : Found → Scan → Scan
  scan_route x (acc, r) =
      if is_outside x
      then (acc ++ fill_route v (route_of x) x.first r ∷ [], fill_route v (route_of x) x.first r)
      else (acc, r)

  fill_route-next_hops :
      (x : Found) (r : VppIpRoute)
      → (fill_route v (route_of x) x.first r).next_hops ≡ r.next_hops ++ hops_of x
  unfolding fill_route
  fill_route-next_hops x r = ground arith

  fill_route-prefix :
      (x : Found) (r : VppIpRoute) → (fill_route v (route_of x) x.first r).prefix ≡ x.prefix
  unfolding fill_route
  fill_route-prefix x r = ground arith

  abbrev pub hops_in : List VppIpRoute → List (List String)
  hops_in rs = map (λ (r : VppIpRoute). r.next_hops) rs

  abbrev pub prefixes_in : List VppIpRoute → List String
  prefixes_in rs = map (λ (r : VppIpRoute). r.prefix) rs

  scanned-hops :
      (xs : List Found) (acc : List VppIpRoute) (r : VppIpRoute)
      → hops_in (fold_rounds scan_route (acc, r) xs).0
        ≡ hops_in acc ++ gathered r.next_hops (outside xs)
  unfolding fold_rounds
  scanned-hops [] acc r = sym (append_nil (hops_in acc))
  scanned-hops (x ∷ xs) acc r = elim (Bool-cases (is_outside x)) [
    | inr inside ↦ simp inside (scanned-hops xs acc r)
    | inl out ↦
        let filled = fill_route v (route_of x) x.first r in
        simp out (
          scanned-hops xs (acc ++ filled ∷ []) filled
          ∙ rw
              (
                map-append (λ (q : VppIpRoute). q.next_hops) acc (filled ∷ []),
                fill_route-next_hops x r,
              )
              (append_assoc (hops_in acc) ((r.next_hops ++ hops_of x) ∷ []) _))
  ]

  scanned-prefixes :
      (xs : List Found) (acc : List VppIpRoute) (r : VppIpRoute)
      → prefixes_in (fold_rounds scan_route (acc, r) xs).0
        ≡ prefixes_in acc ++ map (λ (x : Found). x.prefix) (outside xs)
  unfolding fold_rounds
  scanned-prefixes [] acc r = sym (append_nil (prefixes_in acc))
  scanned-prefixes (x ∷ xs) acc r = elim (Bool-cases (is_outside x)) [
    | inr inside ↦ simp inside (scanned-prefixes xs acc r)
    | inl out ↦
        let filled = fill_route v (route_of x) x.first r in
        simp out (
          scanned-prefixes xs (acc ++ filled ∷ []) filled
          ∙ rw (map-append (λ (q : VppIpRoute). q.prefix) acc (filled ∷ []), fill_route-prefix x r)
              (append_assoc (prefixes_in acc) (x.prefix ∷ []) _))
  ]

  scan_goes : (x : Found) (a : Scan) → on_ip_route v n (route_message x) a ≡ more (scan_route x a)
  unfolding on_ip_route
  scan_goes x (acc, r) = ground (arith, is_external-is_outside x)

  ends_here : (a : Scan) → on_ip_route v n (setup_reply control_ping_reply) a ≡ ended
  unfolding on_ip_route
  ends_here (acc, r) = refl

  -- Where the forwarder tells its tables and, for each table of IPv4, its routes, each with a path
  -- at least, and each dump has fewer messages than the fuel, DumpIPRoutes ends with a route for
  -- each external one, in order. A route is external where its first path is a normal one, whose
  -- next hop is neither 0.0.0.0 nor the address of the route's prefix, and the prefix is longer or
  -- shorter than 32 bits. Each has the prefix of its own, but the next hops of all external routes
  -- before it as well, over all tables.
  pub dump_ip_routes-ends :
      (all : List IpTable) (cs : List Content) (fuel : ℕ) (st : VppApi.Stream v)
      → Answered v ip_table_dump (map table_message all) st
      → length all < fuel
      → ip4_tables v all ≡ tables_of v cs
      → Tells v fuel cs (served v (map table_message all) (asked v ip_table_dump st))
      → (rs : List VppIpRoute) × ((dump_ip_routes v n fuel st).0 ≡ collected rs)
        × (prefixes_in rs ≡ map (λ (x : Found). x.prefix) (outside (routes_in v cs)))
        × (hops_in rs ≡ gathered [] (outside (routes_in v cs)))
  unfolding dump_ip_routes
  dump_ip_routes-ends all cs fuel st s h same t = (
    (fold_rounds scan_route ([], zero_route v) (routes_in v cs)).0,
    ap (routes_of v) (
        dump_routes-ends v (on_ip_route v n) scan_route (λ a. ends_here a) (λ x a. scan_goes x a)
          all cs fuel ([], zero_route v) ([], zero_route v) st s h same t),
    scanned-prefixes (routes_in v cs) [] (zero_route v),
    scanned-hops (routes_in v cs) [] (zero_route v),
  )
