-- ===== src/Checks/Store.antt =====
-- A table of the storages as an association list, which satisfies the laws of the library, and runs
-- of the storage of tunnels (internal/repository/imdb/udp_tunnel.go) on it.
use cloudgw.Imdb.Memdb.{MemDb, MemDbLaws, Error, value, library, count_of}
use cloudgw.Imdb.Table.{add, get, change, fetch, write_back, insert, poke, alloc, delete, new_store}
use cloudgw.Imdb.Table.Invariant.{KeepsIndexes, new_store-IsValid, IsValid, add-IsValid}
use cloudgw.Imdb.Table.View.{updated}
use cloudgw.Imdb.Table.Updates.{get-change}
use cloudgw.Imdb.UdpTunnels.{
  udp_tunnel_schema, tunnel_inc, UdpTunnelStorage, get_udp_tunnel, new_udp_tunnel_storage,
  add_udp_tunnel, inc_fip_served, dec_fip_served, del_udp_tunnel,
}
use cloudgw.Imdb.UdpTunnels.Refinement.{
  run-refines, TunnelCall, adds, incs, decs, deletes, run, step, spec_run,
}
use cloudgw.Model.Tunnel.{VppUdpTunnel}
use cloudgw.Prelude.{
  Eq, List, Option, [], none, some, true, false, ◌∷◌, ◌≡◌, refl, ℕ, Bool, nat_eq, absent,
  if◌then◌else◌, string_Eq, ◌==◌, nat_Eq, arith, nat_eq_iff, ◌≢◌,
}

abbrev Assoc : Type 0 → Type 0
Assoc K = List (K × ℕ)

abbrev refused : Option Error
refused = some (library "refused")

abbrev is_at : ℕ → Option ℕ → Bool
is_at p none = false
is_at p (some q) = nat_eq q p

module _ {K : Type 0} ⦃e : Eq K⦄ where
  abbrev lookup : K → Assoc K → Option ℕ
  lookup k [] = none
  lookup k ((a, p) ∷ rest) = if a == k then some p else lookup k rest

  abbrev without : K → Assoc K → Assoc K
  without k [] = []
  without k ((a, p) ∷ rest) = if a == k then without k rest else (a, p) ∷ without k rest

  -- The entries that a lookup finds.
  abbrev live : Assoc K → Assoc K → List ℕ
  live [] all = []
  live ((a, p) ∷ rest) all = if is_at p (lookup a all) then p ∷ live rest all else live rest all

  abbrev put : Bool → Option K → Bool → ℕ → Assoc K → Option Error × Assoc K
  put true (some k) true p db = (none, (k, p) ∷ db)
  put _ _ _ p db = (refused, db)

  abbrev pub assoc_db : MemDb K
  assoc_db = record {
    Db = Assoc K;
    empty = [];
    insert = put;
    first = λ k db. value (lookup k db);
    walk_id = λ db. value (live db db);
    walk_name = λ db. value [];
    delete_all = λ k db. (value (count_of (lookup k db)), without k db);
    delete_prefix = λ db. (value 0, []);
  }

  lookup-without :
      (k j : K) (db : Assoc K) → lookup j (without k db) ≡ (if k == j then none else lookup j db)
  lookup-without k j [] = ground arith
  lookup-without k j ((a, p) ∷ rest) =
      grind (arith, lookup-without k j rest, e.beq_iff a k, e.beq_iff a j, e.beq_iff k j)

  live_sound :
      (p : ℕ) (l all : Assoc K) → absent p (live l all) ≡ false → (k : K) × (lookup k all ≡ some p)
  live_sound p [] all h = cc
  live_sound p ((a, q) ∷ rest) all h = grind (arith, live_sound p rest all, nat_eq_iff q p)

  live_complete :
      (k : K) (p : ℕ) (l all : Assoc K)
      → lookup k l ≡ some p
      → lookup k all ≡ some p
      → absent p (live l all) ≡ false
  live_complete k p [] all h g = cc
  live_complete k p ((a, q) ∷ rest) all h g =
      grind (arith, live_complete k p rest all, e.beq_iff a k, nat_eq_iff q p)

  lookup-nothing : (k : K) → lookup k [] ≡ none
  lookup-nothing k = refl

  refuses_read :
      (k : Option K) (b : Bool) (p : ℕ) (db : Assoc K)
      → ((put false k b p db).0 ≢ none) × ((put false k b p db).1 ≡ db)
  refuses_read none b p db = (λ h. cc, refl)
  refuses_read (some k) b p db = (λ h. cc, refl)

  refuses_missing :
      (b : Bool) (p : ℕ) (db : Assoc K)
      → ((put true none b p db).0 ≢ none) × ((put true none b p db).1 ≡ db)
  refuses_missing b p db = (λ h. cc, refl)

  pub assoc_laws : MemDbLaws {K = K} assoc_db
  assoc_laws = record {
    find = lookup;
    first-find = λ k db. refl;
    find-empty = lookup-nothing;
    insert-read = refuses_read;
    insert-missing = refuses_missing;
    insert-accepts = λ k p db. refl;
    find-insert = λ k j p db. refl;
    find-delete_all = lookup-without;
    delete_all-count = λ k db. refl;
    ids = λ db. live db db;
    walk_id-ids = λ db. refl;
    ids_sound = λ p db h. live_sound p db db h;
    ids_complete = λ k p db h. live_complete k p db db h h;
    find-delete_prefix = λ k db. refl;
  }

abbrev pub tunnel : VppUdpTunnel
tunnel = record {
  routing_table_id = 0;
  tunnel_id = 7;
  src_ip = "10.0.0.1";
  dst_ip = "10.0.0.2";
  src_port = 50000;
  dst_port = 6635;
  fip_served = 0;
}

abbrev calls : List TunnelCall
calls =
    adds tunnel
    ∷ incs "10.0.0.2"
    ∷ incs "10.0.0.2"
    ∷ decs "10.0.0.2"
    ∷ incs "10.0.0.3"
    ∷ deletes "10.0.0.4"
    ∷ []

abbrev pub empty_store : UdpTunnelStorage assoc_db
empty_store = new_udp_tunnel_storage assoc_db

served_once :
    get_udp_tunnel assoc_db "10.0.0.2" (run assoc_laws calls empty_store)
    ≡ some (record tunnel { fip_served = 1 })
unfolding get_udp_tunnel run step new_udp_tunnel_storage add_udp_tunnel inc_fip_served
    dec_fip_served del_udp_tunnel get fetch change write_back insert poke add alloc delete new_store
served_once = refl

pub empty_store-IsValid : IsValid assoc_laws udp_tunnel_schema empty_store
unfolding new_udp_tunnel_storage
empty_store-IsValid = new_store-IsValid assoc_laws udp_tunnel_schema

run-refines_example :
    get_udp_tunnel assoc_db "10.0.0.2" (run assoc_laws calls empty_store)
    ≡ spec_run calls (λ i. get_udp_tunnel assoc_db i empty_store) "10.0.0.2"
run-refines_example = run-refines assoc_laws calls empty_store "10.0.0.2" empty_store-IsValid

inc-KeepsIndexes_example : KeepsIndexes udp_tunnel_schema tunnel_inc
inc-KeepsIndexes_example row row' h = ground arith

abbrev pub one_tunnel : UdpTunnelStorage assoc_db
one_tunnel = (add assoc_db udp_tunnel_schema tunnel empty_store).1

pub one_tunnel-IsValid : IsValid assoc_laws udp_tunnel_schema one_tunnel
one_tunnel-IsValid =
    add-IsValid assoc_laws udp_tunnel_schema tunnel empty_store empty_store-IsValid refl

get-change_example :
    get assoc_db udp_tunnel_schema "10.0.0.2"
      (change assoc_db udp_tunnel_schema false none tunnel_inc "10.0.0.2" one_tunnel).1
    ≡ updated tunnel_inc (get assoc_db udp_tunnel_schema "10.0.0.2" one_tunnel)
get-change_example =
    get-change assoc_laws udp_tunnel_schema false none tunnel_inc "10.0.0.2" "10.0.0.2" one_tunnel
      inc-KeepsIndexes_example one_tunnel-IsValid
