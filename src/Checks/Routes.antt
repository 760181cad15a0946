-- ===== src/Checks/Routes.antt =====
-- Routes with three paths (internal/model/vpp_route.go).
use cloudgw.Model.Route.{VppIpRoute, del_path}
use cloudgw.Model.Route.Paths.{RoutePath, with_paths}
use cloudgw.Model.Route.AddPath.{add, add_path-new, add_path-inner}
use cloudgw.Model.Route.DelPath.{del_path-first, del_path-add_path}
use cloudgw.Prelude.{[], ◌∷◌, ◌≡◌, ◌>>=◌, ok, panic, refl}

abbrev pub route : VppIpRoute
route = record {
  vrf_id = 10;
  main_interface_id = 1;
  sub_interface_id = 2;
  prefix = "192.0.2.1/32";
  next_hops = [];
  tunnel_ids = [];
  fip_mpls_labels = [];
}

abbrev pub a : RoutePath
a = record { next_hop = "10.0.0.1"; tunnel_id = 1; mpls_label = 101 }

abbrev pub b : RoutePath
b = record { next_hop = "10.0.0.2"; tunnel_id = 2; mpls_label = 102 }

abbrev b2 : RoutePath
b2 = record { next_hop = "10.0.0.2"; tunnel_id = 5; mpls_label = 105 }

abbrev c : RoutePath
c = record { next_hop = "10.0.0.3"; tunnel_id = 3; mpls_label = 103 }

add_path-new_example :
    add c (with_paths route (a ∷ b ∷ [])) ≡ ok (with_paths route (a ∷ b ∷ c ∷ []))
add_path-new_example = add_path-new route (a ∷ b ∷ []) c refl refl

add_path-inner_example : add b2 (with_paths route (a ∷ b ∷ c ∷ [])) ≡ panic
add_path-inner_example = add_path-inner route (a ∷ []) b b2 c [] refl refl refl refl

del_path-first_example :
    del_path "10.0.0.2" (with_paths route (a ∷ b ∷ c ∷ [])) ≡ ok (with_paths route (a ∷ c ∷ []))
del_path-first_example = del_path-first route (a ∷ []) b (c ∷ []) refl

del_path-add_path_example :
    (add c (with_paths route (a ∷ b ∷ [])) >>= del_path "10.0.0.3")
    ≡ ok (with_paths route (a ∷ b ∷ []))
del_path-add_path_example = del_path-add_path route (a ∷ b ∷ []) c refl refl
