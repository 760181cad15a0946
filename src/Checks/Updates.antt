-- ===== src/Checks/Updates.antt =====
-- Updates of a controller for a floating ip with two paths
-- (internal/service/handle_bgp_update.go).
use cloudgw.Checks.Forwarder.{obedient_laws}
use cloudgw.Checks.Gateway.{bgp_vrf, config, libs, serving, vrf}
use cloudgw.Checks.Routes.{a, b, route}
use cloudgw.Checks.Store.{empty_store-IsValid, assoc_db, assoc_laws, one_tunnel, one_tunnel-IsValid}
use cloudgw.Imdb.FipRoutes.{
  FipRouteStorage, add_fip_route, fip_route_schema, get_fip_route, new_fip_route_storage,
}
use cloudgw.Imdb.Table.{add, alloc, fetch, get, insert, new_store}
use cloudgw.Imdb.Table.Invariant.{IsValid, add-IsValid, new_store-IsValid}
use cloudgw.Imdb.UdpTunnels.{get_udp_tunnel, new_udp_tunnel_storage}
use cloudgw.Checks.Store.{empty_store-IsValid, tunnel}
use cloudgw.Model.Nlri.{BgpNlriAttrs}
use cloudgw.Model.Route.Paths.{with_paths}
use cloudgw.Model.Vrf.{rt}
use cloudgw.Service.Updates.{on_advertise, on_withdraw}
use cloudgw.Service.Updates.Withdrawn.{on_withdraw-Removes}
use cloudgw.Service.Updates.Advertised.{on_advertise-inner}
use cloudgw.Service.Watch.{Watch}
use cloudgw.Netutils.{is_fip}
use cloudgw.Service.Tunnels.Removal.{Removes}
use cloudgw.Service.World.{World}
use cloudgw.Prelude.{
  Returns, [], none, refl, some, ◌∷◌, ◌≡◌, string_Eq, nat_Eq, panic, String, true,
}

abbrev two_paths : FipRouteStorage assoc_db
two_paths =
    (add_fip_route assoc_db (with_paths route (a ∷ b ∷ [])) (new_fip_route_storage assoc_db)).1

abbrev busy : World libs
busy = record serving { fips = two_paths; tunnels = one_tunnel }

two_paths_found :
    get_fip_route assoc_db "192.0.2.1/32" two_paths ≡ some (with_paths route (a ∷ b ∷ []))
unfolding get_fip_route add_fip_route new_fip_route_storage get fetch add insert alloc new_store
two_paths_found = refl

tunnel_found : get_udp_tunnel assoc_db "10.0.0.2" one_tunnel ≡ some tunnel
unfolding get_udp_tunnel get fetch add insert alloc new_store new_udp_tunnel_storage
tunnel_found = refl

abbrev withdrawn : BgpNlriAttrs
withdrawn = record {
  prefix = "192.0.2.1/32";
  next_hop = "10.0.0.2";
  vrf_id = 10;
  rd = none;
  rt = [];
  mpls_label = b.mpls_label ∷ [];
}

-- The world before with one path only.
abbrev one_path : FipRouteStorage assoc_db
one_path = (add_fip_route assoc_db (with_paths route (b ∷ [])) (new_fip_route_storage assoc_db)).1

abbrev quiet : World libs
quiet = record serving { fips = one_path; tunnels = one_tunnel }

one_path-IsValid : IsValid assoc_laws fip_route_schema one_path
unfolding add_fip_route new_fip_route_storage
one_path-IsValid =
    add-IsValid assoc_laws fip_route_schema (with_paths route (b ∷ [])) _
      (new_store-IsValid assoc_laws fip_route_schema) refl

one_path_found : get_fip_route assoc_db "192.0.2.1/32" one_path ≡ some (with_paths route (b ∷ []))
unfolding get_fip_route add_fip_route new_fip_route_storage get fetch add insert alloc new_store
one_path_found = refl

on_withdraw-Removes_example :
    Returns
      (Removes libs assoc_laws obedient_laws (with_paths route (b ∷ [])) quiet)
      (on_withdraw libs config (λ nh. 5) withdrawn vrf bgp_vrf quiet)
on_withdraw-Removes_example =
    on_withdraw-Removes libs assoc_laws obedient_laws config (λ nh. 5) vrf bgp_vrf (rt 64513 10) []
      refl withdrawn route quiet b refl [] refl tunnel tunnel_found one_tunnel-IsValid
      one_path-IsValid one_path_found

abbrev watch : Watch libs
watch = record { types = []; next_hops = []; nets = "192.0.2.0/24" ∷ [] }

abbrev advertised : String → BgpNlriAttrs
advertised nh = record withdrawn { next_hop = nh; mpls_label = 500 ∷ [] }

is_served :
    is_fip
      (record {
        Ip = String;
        Net = String;
        parse_cidr = λ s. some (s, s);
        contains = λ n i. true;
        show_ip = λ i. i;
        mask_ones = λ n. 24;
      })
      "192.0.2.1/32"
      ("192.0.2.0/24" ∷ [])
    ≡ true
unfolding is_fip
is_served = refl

on_advertise-inner_example :
    on_advertise libs config (λ nh. 5) watch (advertised "10.0.0.1") vrf bgp_vrf busy ≡ panic
on_advertise-inner_example =
    on_advertise-inner libs assoc_laws obedient_laws config (λ nh. 5) vrf bgp_vrf (rt 64513 10) []
      refl watch (advertised "10.0.0.1") busy 500 [] refl is_served route [] a b [] two_paths_found
      refl refl refl refl refl
