-- ===== src/Checks/Tables.antt =====
-- Stored VRFs and floating ip routes (internal/repository/imdb).
use cloudgw.Checks.Routes.{route, a, b}
use cloudgw.Checks.Store.{assoc_db, assoc_laws}
use cloudgw.Imdb.FipRoutes.{FipRouteStorage, new_fip_route_storage, add_fip_route, get_fip_route}
use cloudgw.Imdb.Table.{add, alloc, fetch, get, insert, new_store}
use cloudgw.Imdb.Table.Invariant.{IsValid, add-IsValid, new_store-IsValid}
use cloudgw.Imdb.VppVrfs.{
  VppVrfStorage, vpp_vrf_schema, new_vpp_vrf_storage, add_vpp_vrf, get_vpp_vrf, vrf_inc_fip_served,
  vrf_dec_fip_served,
}
use cloudgw.Imdb.VppVrfs.Counters.{HasRoom, vrf_dec_fip_served-vrf_inc_fip_served}
use cloudgw.Model.Route.Paths.{with_paths}
use cloudgw.Model.Vrf.{VppVrfTable}
use cloudgw.Prelude.{[], arith, nat_Eq, refl, some, string_Eq, ◌∷◌, ◌≡◌}

abbrev blue : VppVrfTable
blue = record {
  name = "blue";
  id = 10;
  main_interface_id = 1;
  sub_interface_id = 2;
  vlan = 100;
  local_addr = "10.1.0.1";
  local_addr_len = 24;
  next_hop = "10.1.0.2";
  mpls_local_label = 16;
  fip_prefixes = "192.0.2.0/24" ∷ [];
  fip_served = 3;
}

abbrev vrfs : VppVrfStorage assoc_db
vrfs = (add_vpp_vrf assoc_db blue (new_vpp_vrf_storage assoc_db)).1

vrfs-IsValid : IsValid assoc_laws vpp_vrf_schema vrfs
unfolding add_vpp_vrf new_vpp_vrf_storage
vrfs-IsValid =
    add-IsValid assoc_laws vpp_vrf_schema blue (new_vpp_vrf_storage assoc_db)
      (new_store-IsValid assoc_laws vpp_vrf_schema) refl

blue_found : get_vpp_vrf assoc_db 10 vrfs ≡ some blue
unfolding get_vpp_vrf add_vpp_vrf new_vpp_vrf_storage get fetch add insert alloc new_store
blue_found = refl

blue-HasRoom : HasRoom (get_vpp_vrf assoc_db 10 vrfs)
blue-HasRoom = rw blue_found (omega arith)

vrf_dec_fip_served-vrf_inc_fip_served_example :
    get_vpp_vrf assoc_db 10 (vrf_dec_fip_served assoc_db 10 (vrf_inc_fip_served assoc_db 10 vrfs))
    ≡ get_vpp_vrf assoc_db 10 vrfs
vrf_dec_fip_served-vrf_inc_fip_served_example =
    vrf_dec_fip_served-vrf_inc_fip_served assoc_laws 10 10 vrfs vrfs-IsValid blue-HasRoom

abbrev fips : FipRouteStorage assoc_db
fips = (add_fip_route assoc_db (with_paths route (a ∷ b ∷ [])) (new_fip_route_storage assoc_db)).1

route_found : get_fip_route assoc_db "192.0.2.1/32" fips ≡ some (with_paths route (a ∷ b ∷ []))
unfolding get_fip_route add_fip_route new_fip_route_storage get fetch add insert alloc new_store
route_found = refl
