-- ===== src/Checks/Dumps.antt =====
-- A forwarder that delivers a list of messages (internal/repository/vpp/vpp.go), and an update that
-- is read as text (internal/service/parse_bgp_update.go).
use cloudgw.Govpp.{DumpedPath, IpTable, control_ping_reply, normal, udp_encap}
use cloudgw.Imdb.BgpPeers.{TypeMap, lookup_type}
use cloudgw.Imdb.Memdb.{Result, failed, library, value}
use cloudgw.Model.Peer.{tf}
use cloudgw.Model.Route.{VppIpRoute}
use cloudgw.Netutils.{NetApi}
use cloudgw.Service.Parse.{BgpPath, JsonApi, parse_bgp_update}
use cloudgw.Service.Parse.Origin.{IsOrigin, parse_bgp_update-IsOrigin, parse_bgp_update-short}
use cloudgw.Vpp.{Reply, VppApi, setup_reply}
use cloudgw.Vpp.Dumps.{
  check_udp_tunnel_table_empty, collected, count_udp_tunnels, dump_udp_tunnels, dumped_tunnel,
}
use cloudgw.Vpp.Dumps.Tunnels.{Encap, dump_udp_tunnels-ends, encap_message}
use cloudgw.Vpp.RouteDumps.{dump_ip_routes}
use cloudgw.Vpp.RouteDumps.External.{dump_ip_routes-ends, gathered, hops_in, outside, prefixes_in}
use cloudgw.Vpp.RouteDumps.Scanned.{Content, Found, route_message, routes_in, table_message}
use cloudgw.Prelude.{
  List, Returns, String, [], arith, false, map, none, panic, pos, refl, some, true, ◌++◌, ◌∷◌, ◌≡◌,
  nat_Eq,
}

abbrev pop : List Reply → Result Reply × List Reply
pop [] = (failed (library "closed"), [])
pop (x ∷ xs) = (value x, xs)

abbrev script : VppApi
script = record {
  Address = String;
  Prefix = String;
  Stream = List Reply;
  parse_address = λ s. value s;
  parse_ip4 = λ s. value s;
  parse_prefix = λ s. value s;
  parse_address_with_prefix = λ s. (none, s);
  format_uint = λ n. "24";
  send = λ r st. (none, st);
  recv = pop;
}

abbrev pong : Reply
pong = setup_reply control_ping_reply

abbrev encaps : List Encap
encaps =
    record { id = 7; src = "10.0.0.1"; dst = "10.0.0.2"; port = 50000 }
    ∷ record { id = 8; src = "10.0.0.1"; dst = "10.0.0.3"; port = 50001 }
    ∷ []

dump_udp_tunnels-ends_example :
    ((dump_udp_tunnels script 3 (map encap_message encaps ++ pong ∷ [])).0
      ≡ collected (map (λ (t : Encap). dumped_tunnel script t.id t.src t.dst t.port) encaps))
    × ((count_udp_tunnels script 3 (map encap_message encaps ++ pong ∷ [])).0 ≡ collected 2)
    × ((check_udp_tunnel_table_empty script 3 (map encap_message encaps ++ pong ∷ [])).0
        ≡ collected false)
dump_udp_tunnels-ends_example =
    dump_udp_tunnels-ends script encaps 3 (map encap_message encaps ++ pong ∷ [])
      (record { request = refl; ping = refl; messages = (refl, (refl, refl)) }) (omega arith)

abbrev via : String → DumpedPath
via nh = record { path_type = normal; sw_if_index = 1; next_hop = nh; obj_id = 0; label = 0 }

abbrev through : String → DumpedPath
through nh = record {
  path_type = udp_encap;
  sw_if_index = 1;
  next_hop = nh;
  obj_id = 117440512;
  label = 20;
}

abbrev found_routes : List Found
found_routes =
    record { table_id = 10; prefix = "198.51.100.0/24"; first = via "10.1.0.2"; others = [] }
    ∷ record { table_id = 10; prefix = "192.0.2.1/32"; first = through "10.0.0.2"; others = [] }
    ∷ record { table_id = 10; prefix = "203.0.113.0/24"; first = via "10.1.0.3"; others = [] }
    ∷ []

abbrev tables : List IpTable
tables =
    record { table_id = 10; is_ip6 = false; name = "blue" }
    ∷ record { table_id = 10; is_ip6 = true; name = "blue6" }
    ∷ []

abbrev contents : List Content
contents = (record { table_id = 10; is_ip6 = false; name = "blue" }, found_routes) ∷ []

abbrev told : List Reply
told = map table_message tables ++ pong ∷ (map route_message found_routes ++ pong ∷ [])

abbrev textual : NetApi
textual = record {
  Ip = String;
  Net = String;
  parse_cidr = λ s. some (s, s);
  contains = λ n i. true;
  show_ip = λ i. i;
  mask_ones = λ n. 24;
}

dump_ip_routes-ends_example :
    (rs : List VppIpRoute) × ((dump_ip_routes script textual 4 told).0 ≡ collected rs)
    × (prefixes_in script textual rs
        ≡ map (λ (x : Found). x.prefix) (outside script textual (routes_in script contents)))
    × (hops_in script textual rs
        ≡ gathered script textual [] (outside script textual (routes_in script contents)))
dump_ip_routes-ends_example =
    dump_ip_routes-ends script textual tables contents 4 told
      (record { request = refl; ping = refl; messages = (refl, (refl, refl)) }) (omega arith) refl
      (
        record { request = refl; ping = refl; messages = (refl, (refl, (refl, refl))) },
        omega arith,
        tt,
      )

abbrev plain_json : JsonApi
plain_json = record {
  Any = String;
  Bytes = String;
  Value = String;
  marshal = λ a. value a;
  get_path = λ d p. p;
  get_field = λ x f. f;
  parse = λ s. s;
  show_value = λ x. x;
  int_of = λ x. pos 16;
  items = λ x. x ∷ [];
  is_there = λ x. true;
  atoi = λ s. value (pos 10);
}

abbrev update : List String → BgpPath plain_json
update attrs = record {
  neighbor_ip = "10.0.0.5";
  nlri = "nlri";
  pattrs = attrs;
  source_asn = 10;
  is_withdraw = false;
}

abbrev types : TypeMap
types = ("10.0.0.5", tf) ∷ []

controller_known : lookup_type "10.0.0.5" types ≡ some tf
unfolding lookup_type
controller_known = refl

parse_bgp_update-short_example :
    parse_bgp_update plain_json (update ("a" ∷ "b" ∷ [])) ((10, "10.1.0.2") ∷ []) types 10 64513
    ≡ panic
parse_bgp_update-short_example =
    parse_bgp_update-short plain_json (update ("a" ∷ "b" ∷ [])) ((10, "10.1.0.2") ∷ []) types 10
      64513 "nlri" controller_known refl (omega arith)

parse_bgp_update-IsOrigin_example :
    Returns
      (IsOrigin plain_json
        (update ("a" ∷ "b" ∷ "c" ∷ "d" ∷ "e" ∷ []))
        ((10, "10.1.0.2") ∷ [])
        types)
      (parse_bgp_update plain_json
        (update ("a" ∷ "b" ∷ "c" ∷ "d" ∷ "e" ∷ []))
        ((10, "10.1.0.2") ∷ [])
        types
        10
        64513)
parse_bgp_update-IsOrigin_example =
    parse_bgp_update-IsOrigin plain_json (update ("a" ∷ "b" ∷ "c" ∷ "d" ∷ "e" ∷ []))
      ((10, "10.1.0.2") ∷ []) types 10 64513 (omega arith)
