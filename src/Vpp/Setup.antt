-- ===== src/Vpp/Setup.antt =====
-- The requests that set the forwarder up and reset it (internal/repository/vpp/vpp.go). Each sends
-- its request, reads one reply, and casts it to its type, which panics on another one.
pub mod Returned
use cloudgw.Govpp.{
  Kind, SetupRequest, acknowledged, add_address, create_vlan_subif, create_vlan_subif_reply,
  del_addresses, enable_mpls, ip_route_lookup, ip_route_lookup_reply, ip_table, ip_table_add_del,
  is_encap, mpls_route, mpls_route_add_del, mpls_table, mpls_table_add_del, null_route, same_kind,
  set_flags, set_table, show_version, show_version_reply, sw_interface_add_del_address,
  sw_interface_set_flags, sw_interface_set_mpls_enable, sw_interface_set_table, udp_decap,
  udp_decap_add_del, DumpedPath, DumpedRoute,
}
use cloudgw.Imdb.Memdb.{Error, Result, failed, value}
use cloudgw.Model.Route.{VppIpRoute}
use cloudgw.Model.Vrf.{VppVrfTable}
use cloudgw.Vpp.{VppApi, Reply, exchange, route_reply, setup, setup_reply}
use cloudgw.Prelude.{
  Bool, List, Option, Outcome, String, false, if◌then◌else◌, index, map, none, ok, panic, some,
  string_append, true, ℕ, ◌-◌, ◌/◌, ◌>>=◌, ◌^◌,
}

module _ (v : VppApi) where
  open v use {
    Address, Prefix, Stream, parse_ip4, parse_prefix, parse_address_with_prefix, format_uint,
  }

  -- A request that may fail, on the stream.
  abbrev pub Action : Type 0
  Action = Stream → Outcome (Option Error × Stream)

  -- `msg.(*…Reply)` and the test of its return value
  abbrev pub ack_reply : Kind → Result Reply → Outcome (Option Error)
  ack_reply k (failed e) = ok (some e)
  ack_reply k (value (setup_reply (acknowledged k' err))) = if same_kind k k' then ok err else panic
  ack_reply k (value _) = panic

  unfoldable pub request_ack : Kind → SetupRequest Address Prefix → Action
  unfolding exchange
  request_ack k r st =
      let (reply, st1) = exchange v (setup r) st in do err ← ack_reply k reply; ok (err, st1)

  -- The next block of a function, after one that returned no error.
  unfoldable pub and_then : Action → Action → Action
  and_then first second st = do
    r ← first st
    elim r.0 [ some e ↦ ok (some e, r.1) | none ↦ second r.1 ]

  abbrev pub version_reply : Result Reply → Outcome (Result String)
  version_reply (failed e) = ok (failed e)
  version_reply (value (setup_reply (show_version_reply none version))) = ok (value version)
  version_reply (value (setup_reply (show_version_reply (some e) version))) = ok (failed e)
  version_reply (value _) = panic

  unfoldable pub get_vpp_version : Stream → Outcome (Result String × Stream)
  unfolding exchange
  get_vpp_version st =
      let (reply, st1) = exchange v (setup show_version) st in
      do r ← version_reply reply; ok (r, st1)

  unfoldable pub add_del_mpls_table : Bool → Action
  unfolding request_ack
  add_del_mpls_table is_add = request_ack mpls_table_add_del (mpls_table is_add)

  abbrev pub local_prefix : VppVrfTable → String
  local_prefix vrf =
      string_append vrf.local_addr (string_append "/" (format_uint vrf.local_addr_len))

  -- SetupMainInterface: the address, the state, and MPLS.
  unfoldable pub setup_main_interface : VppVrfTable → Action
  unfolding request_ack and_then
  setup_main_interface vrf st =
      let (err, prefix) = parse_address_with_prefix (local_prefix vrf) in
      elim err [
        | some e ↦ ok (some e, st)
        | none ↦
            and_then
              (request_ack sw_interface_add_del_address (add_address vrf.main_interface_id prefix))
              (and_then (request_ack sw_interface_set_flags (set_flags vrf.main_interface_id 1))
                (request_ack sw_interface_set_mpls_enable (enable_mpls vrf.main_interface_id)))
              st
      ]

  -- ResetMainInterface; the flags are math.MaxUint32.
  unfoldable pub reset_main_interface : ℕ → Action
  unfolding request_ack and_then
  reset_main_interface id =
      and_then (request_ack sw_interface_add_del_address (del_addresses id))
        (request_ack sw_interface_set_flags (set_flags id (2 ^ 32 - 1)))

  unfoldable pub add_del_vrf : Bool → VppVrfTable → Action
  unfolding request_ack
  add_del_vrf is_add vrf = request_ack ip_table_add_del (ip_table is_add vrf.id vrf.name)

  abbrev pub subif_reply : Result Reply → Outcome (Result ℕ)
  subif_reply (failed e) = ok (failed e)
  subif_reply (value (setup_reply (create_vlan_subif_reply none id))) = ok (value id)
  subif_reply (value (setup_reply (create_vlan_subif_reply (some e) id))) = ok (failed e)
  subif_reply (value _) = panic

  -- The blocks of AddSubInterface after the first. The error of the parser is dropped.
  unfoldable pub bind_sub_interface : VppVrfTable → ℕ → Action
  unfolding request_ack and_then
  bind_sub_interface vrf id = and_then (request_ack sw_interface_set_table (set_table id vrf.id)) (
      and_then
        (request_ack sw_interface_add_del_address
          (add_address id (parse_address_with_prefix (local_prefix vrf)).1))
        (request_ack sw_interface_set_flags (set_flags id 1)))

  -- AddSubInterface: the number of the interface, or an error, beside which the source returns
  -- UndefinedSubIf.
  unfoldable pub add_sub_interface : VppVrfTable → Stream → Outcome (Result ℕ × Stream)
  unfolding exchange bind_sub_interface
  add_sub_interface vrf st =
      let (reply, st1) = exchange v (setup (create_vlan_subif vrf.main_interface_id vrf.vlan)) st in
      do
        created ← subif_reply reply
        elim created [
          | failed e ↦ ok (failed e, st1)
          | value id ↦ do
            r ← bind_sub_interface vrf id st1
            ok (elim r.0 [ some e ↦ failed e | none ↦ value id ], r.1)
        ]

  unfoldable pub add_udp_decap : Action
  unfolding request_ack
  add_udp_decap = request_ack udp_decap_add_del udp_decap

  unfoldable pub add_del_mpls_local_label_route : Bool → VppVrfTable → Action
  unfolding request_ack
  add_del_mpls_local_label_route is_add vrf st = elim (parse_ip4 vrf.next_hop) [
    | failed e ↦ ok (some e, st)
    | value nh ↦
        request_ack mpls_route_add_del
          (mpls_route is_add vrf.mpls_local_label vrf.sub_interface_id nh) st
  ]

  unfoldable pub add_black_hole_ip_route : VppIpRoute → Action
  unfolding exchange
  add_black_hole_ip_route r st = elim (parse_prefix r.prefix) [
    | failed e ↦ ok (some e, st)
    | value prefix ↦
        let (reply, st1) = exchange v (setup (null_route r.vrf_id prefix)) st in
        do err ← route_reply v reply; ok (err, st1)
  ]

  abbrev pub lookup_reply : Result Reply → Outcome (Result DumpedRoute)
  lookup_reply (failed e) = ok (failed e)
  lookup_reply (value (setup_reply (ip_route_lookup_reply none route))) = ok (value route)
  lookup_reply (value (setup_reply (ip_route_lookup_reply (some e) route))) = ok (failed e)
  lookup_reply (value _) = panic

  -- The numbers of the tunnels, `p.Nh.ObjID / 16777216`, and the labels of the paths.
  abbrev pub tunnels_of : List DumpedPath → List ℕ
  tunnels_of paths = map (λ p. p.obj_id / 16777216) paths

  abbrev pub labels_of : List DumpedPath → List ℕ
  labels_of paths = map (λ p. p.label) paths

  -- LookupFIPRoute: whether a route of tunnels was found, or an error, and the route with its
  -- tunnels and labels. The first path is indexed.
  unfoldable pub lookup_fip_route :
      VppIpRoute → Stream → Outcome ((Result Bool × VppIpRoute) × Stream)
  unfolding exchange
  lookup_fip_route r st = elim (parse_prefix r.prefix) [
    | failed e ↦ ok ((failed e, r), st)
    | value prefix ↦
        let (reply, st1) = exchange v (setup (ip_route_lookup r.vrf_id prefix)) st in
        do
          found ← lookup_reply reply
          elim found [
            | failed e ↦ ok ((failed e, r), st1)
            | value route ↦ do
              first ← index route.paths 0
              if is_encap first.path_type
                  then ok (
                    (
                      value true,
                      record r {
                        tunnel_ids = tunnels_of route.paths;
                        fip_mpls_labels = labels_of route.paths;
                      },
                    ),
                    st1,
                  )
                  else ok ((value false, r), st1)
          ]
  ]
