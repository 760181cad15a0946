-- ===== src/Vpp/RouteDumps/Scanned.antt =====
-- What DumpIPRoutes and DumpFIPRoutes return (internal/repository/vpp/vpp.go), where the forwarder
-- tells its tables and the routes of each, and no route is without paths.
use cloudgw.Govpp.{
  DumpedPath, DumpedRoute, IpTable, control_ping_reply, ip_route_details, ip_route_dump,
  ip_table_details, ip_table_dump,
}
use cloudgw.Vpp.{Reply, VppApi, setup_reply}
use cloudgw.Vpp.Dumps.{collected, dump, on_table, ended, more, Round}
use cloudgw.Vpp.Dumps.Ends.{Answered, asked, dump-ends, fold_rounds, served}
use cloudgw.Vpp.RouteDumps.{dump_routes, dump_tables, next_hops_of}
use cloudgw.Prelude.{
  List, String, [], if◌then◌else◌, length, map, refl, ℕ, ◌++◌, ◌<◌, ◌∙◌, ◌∷◌, ◌≡◌, ap, not, sym,
  inr, inl, Bool-cases, append_nil,
}
use mathlib.Core.List.{append_assoc}

-- A route of the forwarder, with its first path apart.
pub record Found : Type 0 where
  pub table_id : ℕ
  pub prefix : String
  pub first : DumpedPath
  pub others : List DumpedPath

abbrev pub route_of : Found → DumpedRoute
route_of x = record { table_id = x.table_id; prefix = x.prefix; paths = x.first ∷ x.others }

abbrev pub route_message : Found → Reply
route_message x = setup_reply (ip_route_details (route_of x))

abbrev pub table_message : IpTable → Reply
table_message t = setup_reply (ip_table_details t)

abbrev pub hops_of : Found → List String
hops_of x = next_hops_of (x.first ∷ x.others)

-- A table and its routes.
abbrev pub Content : Type 0
Content = IpTable × List Found

first {ℓ κ} : {A : Type ℓ} {B : Type κ} {x y : A × B} → x ≡ y → x.0 ≡ y.0
first e = ap (λ z. z.0) e

second {ℓ κ} : {A : Type ℓ} {B : Type κ} {x y : A × B} → x ≡ y → x.1 ≡ y.1
second e = ap (λ z. z.1) e

module _ (v : VppApi) where
  -- The stream answers the dump of each table's routes, each dump with fewer routes than the fuel.
  abbrev pub Tells : ℕ → List Content → VppApi.Stream v → Type 0
  Tells fuel [] st = Unit
  Tells fuel ((t, xs) ∷ rest) st =
      Answered v (ip_route_dump t) (map route_message xs) st
      × (length xs < fuel)
      × Tells fuel rest (served v (map route_message xs) (asked v (ip_route_dump t) st))

  abbrev pub tables_of : List Content → List IpTable
  tables_of cs = map (λ (c : Content). c.0) cs

  abbrev pub routes_in : List Content → List Found
  routes_in [] = []
  routes_in ((t, xs) ∷ rest) = xs ++ routes_in rest

  abbrev pub ip4_tables : List IpTable → List IpTable
  ip4_tables [] = []
  ip4_tables (t ∷ ts) = if not t.is_ip6 then t ∷ ip4_tables ts else ip4_tables ts

  abbrev add_table : IpTable → List IpTable → List IpTable
  add_table t ts = if not t.is_ip6 then ts ++ t ∷ [] else ts

  table_goes :
      (t : IpTable) (ts : List IpTable) → on_table v (table_message t) ts ≡ more (add_table t ts)
  table_goes t ts = refl

  module _ {ℓ} {A : Type ℓ} (on : Reply → A → Round A) (f : Found → A → A)
      (ends : (a : A) → on (setup_reply control_ping_reply) a ≡ ended)
      (goes : (x : Found) (a : A) → on (route_message x) a ≡ more (f x a)) where
    fold_rounds-chain :
        (xs ys : List Found) (a : A)
        → fold_rounds f (fold_rounds f a xs) ys ≡ fold_rounds f a (xs ++ ys)
    unfolding fold_rounds
    fold_rounds-chain [] ys a = refl
    fold_rounds-chain (x ∷ xs) ys a = fold_rounds-chain xs ys (f x a)

    dump_tables-ends :
        (cs : List Content) (fuel : ℕ) (d a : A) (st : VppApi.Stream v)
        → Tells fuel cs st
        → (dump_tables v on fuel d (tables_of cs) a st).0
          ≡ collected (fold_rounds f a (routes_in cs))
    unfolding dump_tables fold_rounds
    dump_tables-ends [] fuel d a st h = refl
    dump_tables-ends ((t, xs) ∷ rest) fuel d a st h =
        let e = dump-ends v on route_message f ends goes (ip_route_dump t) xs fuel d a st h.0 h.1 in
        rw (first e, second e, dump_tables)
          (dump_tables-ends rest fuel d (fold_rounds f a xs)
              (served v (map route_message xs) (asked v (ip_route_dump t) st)) h.2
            ∙ ap collected (fold_rounds-chain xs (routes_in rest) a))

    fold_rounds-tables :
        (ts acc : List IpTable) → fold_rounds add_table acc ts ≡ acc ++ ip4_tables ts
    unfolding fold_rounds
    fold_rounds-tables [] acc = sym (append_nil acc)
    fold_rounds-tables (t ∷ ts) acc = elim (Bool-cases t.is_ip6) [
      | inl six ↦ simp six (fold_rounds-tables ts acc)
      | inr four ↦
          simp four
            (fold_rounds-tables ts (acc ++ t ∷ []) ∙ append_assoc acc (t ∷ []) (ip4_tables ts))
    ]

    tables_dumped :
        (all : List IpTable) (cs : List Content) (fuel : ℕ) (st : VppApi.Stream v)
        → Answered v ip_table_dump (map table_message all) st
        → length all < fuel
        → ip4_tables all ≡ tables_of cs
        → dump v (on_table v) ip_table_dump fuel [] [] st
          ≡ (collected (tables_of cs), served v (map table_message all) (asked v ip_table_dump st))
    tables_dumped all cs fuel st s h same =
        dump-ends v (on_table v) table_message add_table (λ x. refl) (λ x y. table_goes x y)
          ip_table_dump all fuel [] [] st s h
        ∙ rw (fold_rounds-tables all [], same) refl

    -- Both dumps, over all tables.
    pub dump_routes-ends :
        (all : List IpTable) (cs : List Content) (fuel : ℕ) (d a : A) (st : VppApi.Stream v)
        → Answered v ip_table_dump (map table_message all) st
        → length all < fuel
        → ip4_tables all ≡ tables_of cs
        → Tells fuel cs (served v (map table_message all) (asked v ip_table_dump st))
        → (dump_routes v on fuel d a st).0 ≡ collected (fold_rounds f a (routes_in cs))
    unfolding dump_routes
    dump_routes-ends all cs fuel d a st s h same t =
        let e = tables_dumped all cs fuel st s h same in
        rw (first e, second e, dump_routes) (dump_tables-ends cs fuel d a _ t)
