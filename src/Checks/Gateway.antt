-- ===== src/Checks/Gateway.antt =====
-- The gateway with one floating ip behind one tunnel (internal/service).
use cloudgw.Checks.Forwarder.{obedient, obedient_laws}
use cloudgw.Checks.Routes.{route, b}
use cloudgw.Checks.Store.{assoc_db, assoc_laws, tunnel, empty_store}
use cloudgw.Gobgp.{BgpApi, VpnPath}
use cloudgw.Imdb.BgpPeers.{new_bgp_peer_storage}
use cloudgw.Imdb.BgpVrfs.{new_bgp_vrf_storage}
use cloudgw.Imdb.FipRoutes.{new_fip_route_storage, add_fip_route}
use cloudgw.Imdb.UdpTunnels.{new_udp_tunnel_storage, add_udp_tunnel, inc_fip_served}
use cloudgw.Imdb.VppVrfs.{new_vpp_vrf_storage, add_vpp_vrf, vrf_inc_fip_served}
use cloudgw.Model.Route.{VppIpRoute}
use cloudgw.Model.Route.Paths.{with_paths}
use cloudgw.Model.Vrf.{VppVrfTable, BgpVrfTable, new_vpp_vrf_table, rd, rt}
use cloudgw.Netutils.{NetApi}
use cloudgw.Service.Tunnels.{del_fip}
use cloudgw.Service.Tunnels.Removal.{del_fip-Removes, Removes}
use cloudgw.Service.World.{World, Config, Libs}
use cloudgw.Vpp.{udp_encap_del_reply}
use cloudgw.Prelude.{List, [], ◌∷◌, none, some, true, refl, Returns, string_Eq, nat_Eq, String}

abbrev quiet_bgp : BgpApi
quiet_bgp = record {
  Server = List VpnPath;
  add_path = λ p s. (none, p ∷ s);
  delete_path = λ p s. (none, s);
}

abbrev pub plain_net : NetApi
plain_net = record {
  Ip = String;
  Net = String;
  parse_cidr = λ s. some (s, s);
  contains = λ n i. true;
  show_ip = λ i. i;
  mask_ones = λ n. 24;
}

abbrev pub libs : Libs
libs = record {
  by_string = assoc_db;
  by_number = assoc_db;
  net_api = plain_net;
  vpp_api = obedient;
  bgp_api = quiet_bgp;
}

abbrev pub config : Config
config = record {
  tun_local_ip = "10.0.0.1/32";
  main_interface_id = 1;
  tf_asn = 64512;
  local_asn = 64513;
}

abbrev pub fip : VppIpRoute
fip = with_paths route (b ∷ [])

abbrev pub vrf : VppVrfTable
vrf = new_vpp_vrf_table "blue" 10 1 2 100 "10.1.0.1" 24 "10.1.0.2" 16 ("192.0.2.0/24" ∷ [])

-- Its only target to import.
abbrev pub bgp_vrf : BgpVrfTable
bgp_vrf = record {
  name = "blue";
  id = 10;
  local_asn = 64513;
  peer_asn = 64514;
  rd = rd "10.0.0.1" 10;
  export_rt = [];
  import_rt = rt 64513 10 ∷ [];
}

abbrev pub serving : World libs
serving = record {
  peers = new_bgp_peer_storage assoc_db;
  bgp_vrfs = new_bgp_vrf_storage assoc_db;
  vpp_vrfs =
      vrf_inc_fip_served assoc_db 10 (add_vpp_vrf assoc_db vrf (new_vpp_vrf_storage assoc_db)).1;
  fips = (add_fip_route assoc_db fip (new_fip_route_storage assoc_db)).1;
  tunnels =
      inc_fip_served assoc_db "10.0.0.2"
        (add_udp_tunnel assoc_db tunnel (new_udp_tunnel_storage assoc_db)).1;
  stream = udp_encap_del_reply none;
  server = [];
}

del_fip-Removes_example :
    Returns
      (Removes libs assoc_laws obedient_laws fip serving)
      (del_fip libs config fip vrf bgp_vrf serving)
del_fip-Removes_example =
    del_fip-Removes libs assoc_laws obedient_laws config fip vrf bgp_vrf serving "10.0.0.2" []
      (rt 64513 10) [] (record { ids = refl; labels = refl }) refl refl

-- The gateway before its first floating ip.
abbrev pub idle : World libs
idle = record serving {
  vpp_vrfs = (add_vpp_vrf assoc_db vrf (new_vpp_vrf_storage assoc_db)).1;
  fips = new_fip_route_storage assoc_db;
  tunnels = empty_store;
}
