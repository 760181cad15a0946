-- ===== src/Imdb/VppVrfs.antt =====
-- The storage of routing tables of the forwarder (internal/repository/imdb/vpp_vrf.go).
pub mod Counters
use cloudgw.Model.Vrf.{VppVrfTable}
use cloudgw.Imdb.Memdb.{MemDb, failed, Error, value, no_vpp_vrfs_found, Result}
use cloudgw.Imdb.Table.{
  Schema, Store, add, rows, change, uint_index, collect, is_present, clear, new_store, get,
}
use cloudgw.Prelude.{
  Bool, List, Option, String, [], false, if◌then◌else◌, none, not, some, ℕ, ◌%◌, ◌+◌, ◌-◌, ◌==◌,
  ◌^◌, ◌∷◌, string_Eq, nat_Eq,
}

abbrev pub vpp_vrf_schema : Schema ℕ VppVrfTable
vpp_vrf_schema = record {
  id_of = λ vrf. uint_index vrf.id;
  has_others = λ vrf. not (vrf.name == "");
}

-- `vrf.FIPServed++` and `vrf.FIPServed--` on a uint32; the second stops at 0.
abbrev pub vrf_inc : VppVrfTable → Option VppVrfTable
vrf_inc vrf = some (record vrf { fip_served = (vrf.fip_served + 1) % 2 ^ 32 })

abbrev pub vrf_dec : VppVrfTable → Option VppVrfTable
vrf_dec vrf =
    if vrf.fip_served == 0 then none else some (record vrf { fip_served = vrf.fip_served - 1 })

-- The map from ids to next hops, filled by the loop over the iterator.
unfoldable pub fill_next_hops : List VppVrfTable → List (ℕ × String) → List (ℕ × String)
fill_next_hops [] result = result
fill_next_hops (vrf ∷ vrfs) result = fill_next_hops vrfs ((vrf.id, vrf.next_hop) ∷ result)

module _ (m : MemDb ℕ) where
  abbrev pub VppVrfStorage : Type 0
  VppVrfStorage = Store m VppVrfTable

  unfoldable pub new_vpp_vrf_storage : VppVrfStorage
  unfolding new_store
  new_vpp_vrf_storage = new_store m vpp_vrf_schema

  unfoldable pub add_vpp_vrf : VppVrfTable → VppVrfStorage → Option Error × VppVrfStorage
  unfolding add
  add_vpp_vrf vrf s = add m vpp_vrf_schema vrf s

  unfoldable pub del_vpp_vrfs : VppVrfStorage → Option Error × VppVrfStorage
  unfolding clear
  del_vpp_vrfs s = clear m vpp_vrf_schema s

  unfoldable pub get_vpp_vrf : ℕ → VppVrfStorage → Option VppVrfTable
  unfolding get
  get_vpp_vrf vrf_id s = get m vpp_vrf_schema vrf_id s

  unfoldable pub get_vpp_vrfs : VppVrfStorage → List VppVrfTable
  unfolding rows
  get_vpp_vrfs s = rows m vpp_vrf_schema (MemDb.walk_name m s.db) s

  -- Both counters open a read transaction, Txn(false), and insert in it; the error of the
  -- insertion is dropped.
  unfoldable pub vrf_inc_fip_served : ℕ → VppVrfStorage → VppVrfStorage
  unfolding change
  vrf_inc_fip_served vrf_id s = (change m vpp_vrf_schema false none vrf_inc vrf_id s).1

  unfoldable pub vrf_dec_fip_served : ℕ → VppVrfStorage → VppVrfStorage
  unfolding change
  vrf_dec_fip_served vrf_id s = (change m vpp_vrf_schema false none vrf_dec vrf_id s).1

  unfoldable pub vrf_get_fip_served : ℕ → VppVrfStorage → ℕ
  unfolding get
  vrf_get_fip_served vrf_id s = elim (get m vpp_vrf_schema vrf_id s) [
    | none ↦ 0
    | some vrf ↦ vrf.fip_served
  ]

  unfoldable pub is_vrf_exist : ℕ → VppVrfStorage → Bool
  unfolding is_present
  is_vrf_exist vrf_id s = is_present m vpp_vrf_schema vrf_id s

  unfoldable pub create_vrf_id_to_next_hop_map : VppVrfStorage → Result (List (ℕ × String))
  unfolding collect fill_next_hops
  create_vrf_id_to_next_hop_map s = elim (MemDb.walk_name m s.db) [
    | failed err ↦ failed err
    | value ps ↦ elim (fill_next_hops (collect m vpp_vrf_schema ps s.objects) []) [
      | [] ↦ failed no_vpp_vrfs_found
      | entry ∷ rest ↦ value (entry ∷ rest)
    ]
  ]
