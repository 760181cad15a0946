-- ===== src/Vpp.antt =====
-- Requests to the forwarder (internal/repository/vpp/vpp.go). The stream of the library and the
-- parsers of addresses are parameters. A reply is modelled with the error that its return value
-- stands for, by api.RetvalToVPPApiError.
pub mod Total
pub mod Setup
pub mod Dumps
pub mod RouteDumps
use cloudgw.Govpp.{PathType, udp_encap, normal, SetupRequest, SetupReply}
use cloudgw.Model.Route.{VppIpRoute}
use cloudgw.Model.Tunnel.{VppUdpTunnel, undefined_tunnel_id}
use cloudgw.Model.Vrf.{undefined_sub_if}
use cloudgw.Imdb.Memdb.{Error, Result, library, value, failed}
use cloudgw.Prelude.{
  Bool, List, Option, Outcome, String, [], false, if◌then◌else◌, length, ltb, map, none, not, panic,
  some, true, ℕ, ◌%◌, ◌&&◌, ◌==◌, ◌^◌, ◌∷◌, nat_Eq, ok, ◌>>=◌,
}

-- fib_types.FibPath, without the constants that are the same on every path.
pub record FibPath (A : Type 0) : Type 0 where
  pub table_id : ℕ
  pub sw_if_index : ℕ
  pub path_type : PathType
  pub address : A
  pub obj_id : ℕ
  pub label : Option ℕ

pub data Request (A P : Type 0) : Type 0 where
  udp_encap_add : ℕ → A → A → ℕ → ℕ → Request A P
  udp_encap_del : ℕ → Request A P
  ip_route_add_del : Bool → Bool → ℕ → P → ℕ → List (FibPath A) → Request A P
  setup : SetupRequest A P → Request A P

-- The replies, with the error of the return value; the first carries the new tunnel's number.
pub data Reply : Type 0 where
  udp_encap_add_reply : Option Error → ℕ → Reply
  udp_encap_del_reply : Option Error → Reply
  ip_route_add_del_reply : Option Error → Reply
  setup_reply : SetupReply → Reply
  other_reply : Reply

pub record VppApi : Type 1 where
  pub Address : Type 0
  pub Prefix : Type 0
  pub Stream : Type 0
  -- ip_types.ParseAddress, ParseIP4Address and ParsePrefix
  pub parse_address : String → Result Address
  pub parse_ip4 : String → Result Address
  pub parse_prefix : String → Result Prefix
  -- ip_types.ParseAddressWithPrefix, with the value that stands beside an error, and
  -- strconv.FormatUint
  pub parse_address_with_prefix : String → Option Error × Prefix
  pub format_uint : ℕ → String
  -- SendMsg and RecvMsg
  pub send : Request Address Prefix → Stream → Option Error × Stream
  pub recv : Stream → Result Reply × Stream

module _ (v : VppApi) where
  open v use {Address, Prefix, Stream, parse_address, parse_ip4, parse_prefix, send, recv}

  -- SendMsg, RecvMsg, and the returns on an error of either
  unfoldable pub exchange : Request Address Prefix → Stream → Result Reply × Stream
  exchange r st =
      let (err, st1) = send r st in elim err [ some e ↦ (failed e, st1) | none ↦ recv st1 ]

  -- `msg.(*ip.IPRouteAddDelV2Reply)` and the test of its return value; another type panics
  abbrev pub route_reply : Result Reply → Outcome (Option Error)
  route_reply (failed e) = ok (some e)
  route_reply (value (ip_route_add_del_reply err)) = ok err
  route_reply (value _) = panic

  abbrev pub del_reply : Result Reply → Outcome (Option Error)
  del_reply (failed e) = ok (some e)
  del_reply (value (udp_encap_del_reply err)) = ok err
  del_reply (value _) = panic

  -- the error, or the number of the tunnel
  abbrev pub add_reply : Result Reply → Outcome (Result ℕ)
  add_reply (failed e) = ok (failed e)
  add_reply (value (udp_encap_add_reply none id)) = ok (value id)
  add_reply (value (udp_encap_add_reply (some e) id)) = ok (failed e)
  add_reply (value _) = panic

  -- AddUDPTunnel; on success the tunnel carries the number of the reply
  unfoldable pub vpp_add_udp_tunnel : VppUdpTunnel → Stream → Outcome (Result VppUdpTunnel × Stream)
  unfolding exchange
  vpp_add_udp_tunnel tunnel st = elim (parse_address tunnel.src_ip) [
    | failed e ↦ ok (failed e, st)
    | value src ↦ elim (parse_address tunnel.dst_ip) [
      | failed e ↦ ok (failed e, st)
      | value dst ↦
          let (reply, st1) =
            exchange (udp_encap_add tunnel.routing_table_id src dst tunnel.src_port tunnel.dst_port)
              st in
          do
            r ← add_reply reply
            ok (
              elim r [ failed e ↦ failed e | value id ↦ value (record tunnel { tunnel_id = id }) ],
              st1,
            )
    ]
  ]

  unfoldable pub vpp_del_udp_tunnel : ℕ → Stream → Outcome (Option Error × Stream)
  unfolding exchange
  vpp_del_udp_tunnel id st =
      let (reply, st1) = exchange (udp_encap_del id) st in do err ← del_reply reply; ok (err, st1)

  unfoldable pub has_undefined : List ℕ → Bool
  has_undefined [] = false
  has_undefined (i ∷ is) =
      let rest = has_undefined is in if i == undefined_tunnel_id then true else rest

  -- the loop that parses the next hops and stops at the first error
  unfoldable pub parse_next_hops : List String → Result (List Address)
  parse_next_hops [] = value []
  parse_next_hops (nh ∷ nhs) =
      let rest = parse_next_hops nhs in
      elim (parse_ip4 nh) [
        | failed e ↦ failed e
        | value a ↦ elim rest [ failed e ↦ failed e | value as' ↦ value (a ∷ as') ]
      ]

  -- one path for each next hop; TunnelIDs[i] and FIPMPLSLabels[i] are indexed
  unfoldable pub fip_paths : ℕ → List Address → List ℕ → List ℕ → Outcome (List (FibPath Address))
  fip_paths main_if [] ids labels = ok []
  fip_paths main_if (a ∷ rest) (id ∷ ids) (l ∷ labels) = do
    paths ← fip_paths main_if rest ids labels
    ok (
        record {
          table_id = 0;
          sw_if_index = main_if;
          path_type = udp_encap;
          address = a;
          obj_id = id;
          label = some l;
        }
        ∷ paths)
  fip_paths main_if (a ∷ rest) _ _ = panic

  -- the request of AddDelFIPRoute, once the addresses are parsed
  unfoldable pub request_fip_route :
      Bool → VppIpRoute → Prefix → List Address → Stream → Outcome (Option Error × Stream)
  unfolding exchange fip_paths
  request_fip_route is_add r prefix hops st = do
    paths ← fip_paths r.main_interface_id hops r.tunnel_ids r.fip_mpls_labels
    let n = length r.next_hops
    let (reply, st1) =
        exchange (ip_route_add_del is_add (ltb 1 n) r.vrf_id prefix (n % 2 ^ 8) paths) st
    err ← route_reply reply
    ok (err, st1)

  -- AddDelFIPRoute
  unfoldable pub add_del_fip_route : Bool → VppIpRoute → Stream → Outcome (Option Error × Stream)
  unfolding has_undefined parse_next_hops request_fip_route
  add_del_fip_route is_add r st =
      if has_undefined r.tunnel_ids
      then ok (some (library "wrong udp tunnel id"), st)
      else elim (parse_prefix r.prefix) [
        | failed e ↦ ok (some e, st)
        | value prefix ↦ elim (parse_next_hops r.next_hops) [
          | failed e ↦ ok (some e, st)
          | value hops ↦ request_fip_route is_add r prefix hops st
        ]
      ]

  abbrev pub ip_path : ℕ → ℕ → Address → FibPath Address
  ip_path vrf_id sw_if a = record {
    table_id = vrf_id;
    sw_if_index = sw_if;
    path_type = normal;
    address = a;
    obj_id = 0;
    label = none;
  }

  -- AddDelIPRoute
  unfoldable pub add_del_ip_route : Bool → VppIpRoute → Stream → Outcome (Option Error × Stream)
  unfolding exchange parse_next_hops
  add_del_ip_route is_add r st = elim (parse_prefix r.prefix) [
    | failed e ↦ ok (some e, st)
    | value prefix ↦ elim (parse_next_hops r.next_hops) [
      | failed e ↦ ok (some e, st)
      | value hops ↦
          if not (r.vrf_id == 0) && r.sub_interface_id == undefined_sub_if
          then ok (some (library "sub-interface not defined"), st)
          else do
            let sw_if = if r.vrf_id == 0 then r.main_interface_id else r.sub_interface_id
            let paths = map (ip_path r.vrf_id sw_if) hops
            let (reply, st1) =
                exchange
                  (ip_route_add_del is_add true r.vrf_id prefix (length r.next_hops % 2 ^ 8) paths)
                  st
            err ← route_reply reply
            ok (err, st1)
    ]
  ]
