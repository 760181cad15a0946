-- ===== src/Imdb/BgpVrfs.antt =====
-- The storage of routing tables of the BGP server (internal/repository/imdb/bgp_vrf.go).
use cloudgw.Model.Vrf.{BgpVrfTable}
use cloudgw.Imdb.Memdb.{MemDb, Error}
use cloudgw.Imdb.Table.{Schema, Store, rows, clear, add, get, uint_index, new_store}
use cloudgw.Prelude.{List, Option, not, ℕ, ◌==◌, string_Eq}

-- The index `name` has a value unless the name is empty.
abbrev pub bgp_vrf_schema : Schema ℕ BgpVrfTable
bgp_vrf_schema = record {
  id_of = λ vrf. uint_index vrf.id;
  has_others = λ vrf. not (vrf.name == "");
}

module _ (m : MemDb ℕ) where
  abbrev pub BgpVrfStorage : Type 0
  BgpVrfStorage = Store m BgpVrfTable

  unfoldable pub new_bgp_vrf_storage : BgpVrfStorage
  unfolding new_store
  new_bgp_vrf_storage = new_store m bgp_vrf_schema

  unfoldable pub add_bgp_vrf : BgpVrfTable → BgpVrfStorage → Option Error × BgpVrfStorage
  unfolding add
  add_bgp_vrf vrf s = add m bgp_vrf_schema vrf s

  unfoldable pub del_bgp_vrfs : BgpVrfStorage → Option Error × BgpVrfStorage
  unfolding clear
  del_bgp_vrfs s = clear m bgp_vrf_schema s

  unfoldable pub get_bgp_vrf : ℕ → BgpVrfStorage → Option BgpVrfTable
  unfolding get
  get_bgp_vrf vrf_id s = get m bgp_vrf_schema vrf_id s

  unfoldable pub get_bgp_vrfs : BgpVrfStorage → List BgpVrfTable
  unfolding rows
  get_bgp_vrfs s = rows m bgp_vrf_schema (MemDb.walk_name m s.db) s
