-- ===== src/Initialize.antt =====
-- The start and the reset of the forwarder's configuration (internal/repository/vpp/initialize).
-- Both run requests in their order and return at the first error, which ends the program.
pub mod Ended
use cloudgw.Imdb.Memdb.{Error, MemDb, failed, library, value}
use cloudgw.Imdb.Table.{Objects, collect, poke}
use cloudgw.Imdb.VppVrfs.{VppVrfStorage, vpp_vrf_schema}
use cloudgw.Model.Route.{VppIpRoute, new_vpp_ip_route}
use cloudgw.Model.Tunnel.{VppUdpTunnel, undefined_tunnel_id}
use cloudgw.Model.Vrf.{VppVrfTable, undefined_label, undefined_sub_if}
use cloudgw.Netutils.{NetApi}
use cloudgw.Vpp.{VppApi, add_del_fip_route, add_del_ip_route, vpp_del_udp_tunnel}
use cloudgw.Vpp.Dumps.{
  Dumped, broken, collected, panicked, unfinished, del_sub_interfaces, dump_mpls_local_label_route,
  dump_udp_tunnels,
}
use cloudgw.Vpp.RouteDumps.{dump_fip_routes, dump_ip_routes}
use cloudgw.Vpp.Setup.{
  Action, add_black_hole_ip_route, add_del_mpls_local_label_route, add_del_mpls_table, add_del_vrf,
  add_sub_interface, add_udp_decap, reset_main_interface, setup_main_interface,
}
use cloudgw.Prelude.{
  Bool, List, String, [], false, if◌then◌else◌, length, ltb, map, none, ok, panic, some, true, ℕ,
  ◌++◌, ◌==◌, ◌∷◌, nat_Eq,
}

-- How a sequence of requests ends: done; an error; a panic; or a dump that has not ended.
pub data Ran {ℓ} (A : Type ℓ) : Type ℓ where
  done : A → Ran A
  fails : Error → Ran A
  crashes unended : Ran A

unfoldable pub contains : List ℕ → ℕ → Bool
contains [] target = false
contains (e ∷ es) target = let rest = contains es target in if e == target then true else rest

module _ (v : VppApi) where
  abbrev pub Run : Type 0 → Type 0
  Run A = VppApi.Stream v → Ran A × VppApi.Stream v

  infixl 5 ◌>>=◌
  unfoldable pub ◌>>=◌ : {A B : Type 0} → Run A → (A → Run B) → Run B
  ◌>>=◌ f g st =
      let (r, st1) = f st in
      elim r [
        | done a ↦ g a st1
        | fails e ↦ (fails e, st1)
        | crashes ↦ (crashes, st1)
        | unended ↦ (unended, st1)
      ]

  abbrev pub finish : {A : Type 0} → A → Run A
  finish a st = (done a, st)

  abbrev pub fail_with : {A : Type 0} → Error → Run A
  fail_with e st = (fails e, st)

  -- A request, and a dump.
  abbrev pub act : Action v → Run (Unit {0})
  act f st = elim (f st) [
    | ok (err, st1) ↦ elim err [ some e ↦ (fails e, st1) | none ↦ (done tt, st1) ]
    | panic ↦ (crashes, st)
  ]

  abbrev pub read : {A : Type 0} → (VppApi.Stream v → Dumped A × VppApi.Stream v) → Run A
  read f st =
      let (r, st1) = f st in
      elim r [
        | collected a ↦ (done a, st1)
        | broken e a ↦ (fails e, st1)
        | panicked ↦ (crashes, st1)
        | unfinished ↦ (unended, st1)
      ]

  -- A loop that makes a request for each element.
  unfoldable pub for_each : {A : Type 0} → (A → Run (Unit {0})) → List A → Run (Unit {0})
  unfolding ◌>>=◌
  for_each f [] = finish tt
  for_each f (x ∷ xs) = do u ← f x; for_each f xs

  -- `if table.ID == 0 { continue }`
  abbrev pub unless_default : (VppVrfTable → Run (Unit {0})) → VppVrfTable → Run (Unit {0})
  unless_default f table = if table.id == 0 then finish tt else f table

  -- DelSubInterfaces, of which only the error is used.
  abbrev pub drop_sub_interfaces : ℕ → ℕ → Run (Unit {0})
  drop_sub_interfaces fuel main_id st = elim (del_sub_interfaces v fuel main_id st) [
    | none ↦ (unended, st)
    | some r ↦ elim r [
      | panic ↦ (crashes, st)
      | ok (x, st1) ↦ elim x.1 [ some e ↦ (fails e, st1) | none ↦ (done tt, st1) ]
    ]
  ]

  unfoldable pub del_mpls_route : ℕ → VppVrfTable → Run (Unit {0})
  unfolding ◌>>=◌
  del_mpls_route fuel table = do
    routes ← read (dump_mpls_local_label_route v fuel)
    elim routes [ [] ↦ finish tt | r ∷ rs ↦ act (add_del_mpls_local_label_route v false table) ]

  -- The body of the two loops over the dumped routes and tunnels.
  unfoldable pub del_route_tunnel : VppIpRoute → VppUdpTunnel → Run (Unit {0})
  unfolding ◌>>=◌ contains
  del_route_tunnel route tunnel =
      if contains route.tunnel_ids tunnel.tunnel_id
      then (do
        u ← act (add_del_fip_route v false route)
        act (vpp_del_udp_tunnel v tunnel.tunnel_id))
      else finish tt

  -- ClearVPPConfig, with the VRFs of the storage.
  unfoldable pub clear_vpp_config : NetApi → ℕ → ℕ → List VppVrfTable → Run (Unit {0})
  unfolding ◌>>=◌ for_each del_mpls_route del_route_tunnel
  clear_vpp_config n fuel main_id vrfs = do
    ip_routes ← read (dump_ip_routes v n fuel)
    u1 ← for_each (λ r. act (add_del_ip_route v false r)) ip_routes
    u2 ← for_each (unless_default (del_mpls_route fuel)) vrfs
    u3 ← drop_sub_interfaces fuel main_id
    tunnels ← read (dump_udp_tunnels v fuel)
    fip_routes ← read (dump_fip_routes v fuel)
    u4 ← for_each (λ r. for_each (del_route_tunnel r) tunnels) fip_routes
    orphans ← read (dump_udp_tunnels v fuel)
    u5 ← for_each (λ (t : VppUdpTunnel). act (vpp_del_udp_tunnel v t.tunnel_id)) orphans
    orphan_routes ← read (dump_fip_routes v fuel)
    u6 ← for_each (λ r. act (add_del_fip_route v false r)) orphan_routes
    u7 ← act (reset_main_interface v main_id)
    for_each (unless_default (λ t. act (add_del_vrf v false t))) vrfs

  -- The created interface is written to the table through its pointer.
  unfoldable pub attach_sub_interface :
      ℕ → VppVrfTable → Objects VppVrfTable → Run (Objects VppVrfTable)
  attach_sub_interface p table o st = elim (add_sub_interface v table st) [
    | panic ↦ (crashes, st)
    | ok (r, st1) ↦ elim r [
      | failed e ↦ (fails e, st1)
      | value id ↦ (done (poke p (record table { sub_interface_id = id }) o), st1)
    ]
  ]

  -- The loop over the pointers of the tables.
  unfoldable pub attach_sub_interfaces : List ℕ → Objects VppVrfTable → Run (Objects VppVrfTable)
  unfolding ◌>>=◌ attach_sub_interface
  attach_sub_interfaces [] o = finish o
  attach_sub_interfaces (p ∷ ps) o = elim (o.cell p) [
    | none ↦ attach_sub_interfaces ps o
    | some table ↦ do
      o1 ← (if table.id == 0 then finish o else attach_sub_interface p table o)
      attach_sub_interfaces ps o1
  ]

  abbrev pub default_route : ℕ → String → VppIpRoute
  default_route main_id gateway = record {
    vrf_id = 0;
    main_interface_id = main_id;
    sub_interface_id = undefined_sub_if;
    prefix = "0.0.0.0/0";
    next_hops = gateway ∷ [];
    tunnel_ids = undefined_tunnel_id ∷ [];
    fip_mpls_labels = undefined_label ∷ [];
  }

  unfoldable pub black_hole_routes : ℕ → List VppVrfTable → List VppIpRoute
  unfolding new_vpp_ip_route
  black_hole_routes main_id [] = []
  black_hole_routes main_id (vrf ∷ vrfs) =
      map
        (λ prefix.
          new_vpp_ip_route vrf.id main_id undefined_sub_if prefix ("" ∷ [])
            (undefined_tunnel_id ∷ []) (undefined_label ∷ []))
        vrf.fip_prefixes
      ++ black_hole_routes main_id vrfs

  -- The main interface gets the address of the first table.
  abbrev pub setup_first : List VppVrfTable → Run (Unit {0})
  setup_first [] st = (crashes, st)
  setup_first (vrf ∷ vrfs) st = act (setup_main_interface v vrf) st

  -- The steps of AddVPPInitConfig, for the pointers of the tables and their values before the first.
  unfoldable pub configure :
      (m : MemDb ℕ)
      → ℕ
      → String
      → List ℕ
      → List VppVrfTable
      → VppVrfStorage m
      → Run (VppVrfStorage m)
  unfolding ◌>>=◌ for_each attach_sub_interfaces black_hole_routes
  configure m main_id gateway ps vrfs s = do
    u1 ← for_each (unless_default (λ t. act (add_del_vrf v true t))) vrfs
    u2 ← act (add_del_mpls_table v true)
    u3 ← setup_first vrfs
    o ← attach_sub_interfaces ps s.objects
    u4 ← act (add_udp_decap v)
    u5 ←
        for_each (unless_default (λ t. act (add_del_mpls_local_label_route v true t)))
          (collect m vpp_vrf_schema ps o)
    u6 ← act (add_del_ip_route v true (default_route main_id gateway))
    u7 ← for_each (λ r. act (add_black_hole_ip_route v r)) (black_hole_routes main_id vrfs)
    finish (record s { objects = o })

  -- AddVPPInitConfig, with the storage of the VRFs before and after.
  unfoldable pub add_vpp_init_config :
      (m : MemDb ℕ) → ℕ → String → VppVrfStorage m → Run (VppVrfStorage m)
  unfolding configure
  add_vpp_init_config m main_id gateway s = elim (MemDb.walk_name m s.db) [
    | failed e ↦ fail_with (library "found 0 vrf(s) in storage (need at least 2)")
    | value ps ↦
        let vrfs = collect m vpp_vrf_schema ps s.objects in
        if ltb (length vrfs) 2
        then fail_with (library "vrf(s) in storage (need at least 2), check yaml config file")
        else configure m main_id gateway ps vrfs s
  ]
