-- ===== src/Imdb/FipRoutes.antt =====
-- The storage of floating ip routes (internal/repository/imdb/fip_route.go).
pub mod Paths
use cloudgw.Model.Route.{VppIpRoute}
use cloudgw.Imdb.Memdb.{MemDb, Error, no_vpp_fip_found}
use cloudgw.Imdb.Table.{
  Schema, Store, get, new_store, string_index, delete, add, is_present, clear, rows,
}
use cloudgw.Prelude.{
  Bool, List, Option, Outcome, [], false, if◌then◌else◌, length, none, ok, panic, some, true, ℕ,
  ◌&&◌, ◌==◌, ◌∷◌, String, nat_Eq, string_Eq,
}

abbrev pub fip_route_schema : Schema String VppIpRoute
fip_route_schema = record { id_of = λ route. string_index route.prefix; has_others = λ route. true }

-- `for i := range route.NextHops`: the two slices are indexed by the same i, the second only where
-- the first comparison holds.
unfoldable pub has_path : String → ℕ → List String → List ℕ → Outcome Bool
has_path next_hop label [] labels = ok false
has_path next_hop label (h ∷ hs) [] =
    let rest = has_path next_hop label hs [] in if h == next_hop then panic else rest
has_path next_hop label (h ∷ hs) (l ∷ ls) =
    let rest = has_path next_hop label hs ls in
    if h == next_hop && l == label then ok true else rest

module _ (m : MemDb String) where
  abbrev pub FipRouteStorage : Type 0
  FipRouteStorage = Store m VppIpRoute

  unfoldable pub new_fip_route_storage : FipRouteStorage
  unfolding new_store
  new_fip_route_storage = new_store m fip_route_schema

  unfoldable pub add_fip_route : VppIpRoute → FipRouteStorage → Option Error × FipRouteStorage
  unfolding add
  add_fip_route route s = add m fip_route_schema route s

  unfoldable pub del_fip_route : String → FipRouteStorage → Option Error × FipRouteStorage
  unfolding delete
  del_fip_route fip_prefix s = delete m fip_route_schema no_vpp_fip_found fip_prefix s

  unfoldable pub del_fip_routes : FipRouteStorage → Option Error × FipRouteStorage
  unfolding clear
  del_fip_routes s = clear m fip_route_schema s

  unfoldable pub get_fip_route : String → FipRouteStorage → Option VppIpRoute
  unfolding get
  get_fip_route fip_prefix s = get m fip_route_schema fip_prefix s

  unfoldable pub get_fip_routes : FipRouteStorage → List VppIpRoute
  unfolding rows
  get_fip_routes s = rows m fip_route_schema (MemDb.walk_id m s.db) s

  unfoldable pub is_fip_prefix_exist : String → FipRouteStorage → Bool
  unfolding is_present
  is_fip_prefix_exist fip_prefix s = is_present m fip_route_schema fip_prefix s

  unfoldable pub is_fip_with_nh_and_label_exist :
      String → String → ℕ → FipRouteStorage → Outcome Bool
  unfolding get has_path
  is_fip_with_nh_and_label_exist fip_prefix next_hop mpls_label s =
      elim (get m fip_route_schema fip_prefix s) [
        | none ↦ ok false
        | some route ↦
            if length route.fip_mpls_labels == 0
            then ok false
            else has_path next_hop mpls_label route.next_hops route.fip_mpls_labels
      ]
