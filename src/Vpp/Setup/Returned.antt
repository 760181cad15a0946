-- ===== src/Vpp/Setup/Returned.antt =====
-- The requests that set the forwarder up (internal/repository/vpp/vpp.go), over a stream that
-- answers each with its own kind of reply.
use cloudgw.Govpp.{
  ip_table_add_del, ip_table, mpls_table_add_del, mpls_table, udp_decap_add_del, udp_decap,
  mpls_route_add_del, mpls_route, Kind, SetupRequest, acknowledged, add_address, create_vlan_subif,
  enable_mpls, null_route, set_flags, set_table, sw_interface_add_del_address,
  sw_interface_set_flags, sw_interface_set_mpls_enable, sw_interface_set_table, del_addresses,
  ip_table_details, ip_route_details, ip_route_lookup_reply, udp_encap_details,
  create_vlan_subif_reply, mpls_route_details, sw_interface_details, control_ping_reply,
  show_version_reply,
}
use cloudgw.Imdb.Memdb.{Result, Result-cases, failed, value, Error}
use cloudgw.Model.Route.{VppIpRoute}
use cloudgw.Model.Vrf.{VppVrfTable}
use cloudgw.Vpp.{
  Reply, VppApi, exchange, ip_route_add_del_reply, other_reply, setup, setup_reply,
  udp_encap_add_reply, udp_encap_del_reply, route_reply,
}
use cloudgw.Vpp.Setup.{
  Action, ack_reply, add_black_hole_ip_route, add_del_mpls_local_label_route, add_del_mpls_table,
  add_del_vrf, add_sub_interface, add_udp_decap, and_then, bind_sub_interface, request_ack,
  reset_main_interface, setup_main_interface, subif_reply, local_prefix,
}
use cloudgw.Vpp.Total.{Acknowledges, Answers, AnswersSetup, VppLaws, exchange-Answers}
use cloudgw.Prelude.{
  Bool, Option, Option-cases, Outcome, Returns, Returns-bind, inl, inr, none, ok, some, ℕ, ◌>>=◌,
  ◌-◌, ◌^◌,
}

module _ {v : VppApi} (laws : VppLaws v) where
  open v use {Address, Prefix, Stream}

  -- Whatever the stream is, the request returns.
  abbrev pub Always {ℓ} : {B : Type ℓ} → (Stream → Outcome B) → Type 0
  Always f = (st : Stream) → Returns (λ _. Unit {0}) (f st)

  acked :
      (k : Kind) (x : Reply)
      → Acknowledges (some k) x
      → Returns (λ _. Unit {0}) (ack_reply v k (value x))
  acked k (setup_reply (acknowledged k' err)) h = rw h tt
  acked k (setup_reply (show_version_reply _ _)) h = absurd h
  acked k (setup_reply (create_vlan_subif_reply _ _)) h = absurd h
  acked k (setup_reply (ip_route_lookup_reply _ _)) h = absurd h
  acked k (setup_reply (sw_interface_details _)) h = absurd h
  acked k (setup_reply (udp_encap_details _ _ _ _)) h = absurd h
  acked k (setup_reply (ip_table_details _)) h = absurd h
  acked k (setup_reply (ip_route_details _)) h = absurd h
  acked k (setup_reply (mpls_route_details _)) h = absurd h
  acked k (setup_reply control_ping_reply) h = absurd h
  acked k (udp_encap_add_reply _ _) h = absurd h
  acked k (udp_encap_del_reply _) h = absurd h
  acked k other_reply h = absurd h
  acked k (ip_route_add_del_reply _) h = absurd h

  ack-Returns :
      (k : Kind) (r : SetupRequest Address Prefix)
      → ((x : Reply) → AnswersSetup r x → Acknowledges (some k) x)
      → Always (request_ack v k r)
  unfolding request_ack
  ack-Returns k r h st =
      Returns-bind (λ _. Unit {0}) (λ _. Unit {0}) _ _
        (answered (exchange v (setup r) st).0 (exchange-Answers laws (setup r) st)) (λ e u. tt)
    where
      answered :
          (x : Result Reply) → Answers (setup r) x → Returns (λ _. Unit {0}) (ack_reply v k x)
      answered (failed e) a = tt
      answered (value x) a = acked k x (h x a)

  and_then-Returns : (f g : Action v) → Always f → Always g → Always (and_then v f g)
  unfolding and_then
  and_then-Returns f g a b st =
      Returns-bind (λ _. Unit {0}) (λ _. Unit {0}) (f st) _ (a st) (λ r u. next r)
    where
      next :
          (r : Option Error × Stream)
          → Returns (λ _. Unit {0}) (elim r.0 [ some e ↦ ok (some e, r.1) | none ↦ g r.1 ])
      next (none, st1) = b st1
      next (some e, st1) = tt

  pub add_del_vrf-Returns : (b : Bool) (vrf : VppVrfTable) → Always (add_del_vrf v b vrf)
  unfolding add_del_vrf
  add_del_vrf-Returns b vrf = ack-Returns ip_table_add_del (ip_table b vrf.id vrf.name) (λ x h. h)

  pub add_del_mpls_table-Returns : (b : Bool) → Always (add_del_mpls_table v b)
  unfolding add_del_mpls_table
  add_del_mpls_table-Returns b = ack-Returns mpls_table_add_del (mpls_table b) (λ x h. h)

  pub add_udp_decap-Returns : Always (add_udp_decap v)
  unfolding add_udp_decap
  add_udp_decap-Returns = ack-Returns udp_decap_add_del (udp_decap) (λ x h. h)

  pub setup_main_interface-Returns : (vrf : VppVrfTable) → Always (setup_main_interface v vrf)
  unfolding setup_main_interface
  setup_main_interface-Returns vrf st =
      elim (Option-cases (VppApi.parse_address_with_prefix v (local_prefix v vrf)).0) [
        | inr (e, h) ↦ rw (setup_main_interface, h) tt
        | inl h ↦
            rw (setup_main_interface, h)
              (and_then-Returns _ _
                (ack-Returns sw_interface_add_del_address
                  (add_address vrf.main_interface_id
                    (VppApi.parse_address_with_prefix v (local_prefix v vrf)).1)
                  (λ x h. h))
                (and_then-Returns _ _
                  (ack-Returns sw_interface_set_flags (set_flags vrf.main_interface_id 1)
                    (λ x h. h))
                  (ack-Returns sw_interface_set_mpls_enable (enable_mpls vrf.main_interface_id)
                    (λ x h. h)))
                st)
      ]

  pub reset_main_interface-Returns : (id : ℕ) → Always (reset_main_interface v id)
  unfolding reset_main_interface
  reset_main_interface-Returns id =
      and_then-Returns _ _ (ack-Returns sw_interface_add_del_address (del_addresses id) (λ x h. h))
        (ack-Returns sw_interface_set_flags (set_flags id (2 ^ 32 - 1)) (λ x h. h))

  pub add_del_mpls_local_label_route-Returns :
      (b : Bool) (vrf : VppVrfTable) → Always (add_del_mpls_local_label_route v b vrf)
  unfolding add_del_mpls_local_label_route
  add_del_mpls_local_label_route-Returns b vrf st =
      elim (Result-cases (VppApi.parse_ip4 v vrf.next_hop)) [
        | inl (e, h) ↦ rw (add_del_mpls_local_label_route, h) tt
        | inr (nh, h) ↦
            rw (add_del_mpls_local_label_route, h)
              (ack-Returns mpls_route_add_del
                (mpls_route b vrf.mpls_local_label vrf.sub_interface_id nh) (λ x a. a) st)
      ]

  subif :
      (a b : ℕ) (x : Reply)
      → AnswersSetup {A = Address} {P = Prefix} (create_vlan_subif a b) x
      → Returns (λ _. Unit {0}) (subif_reply v (value x))
  subif a b (setup_reply (create_vlan_subif_reply none id)) h = tt
  subif a b (setup_reply (create_vlan_subif_reply (some e) id)) h = tt
  subif a b (setup_reply (show_version_reply _ _)) h = absurd h
  subif a b (setup_reply (ip_route_lookup_reply _ _)) h = absurd h
  subif a b (setup_reply (sw_interface_details _)) h = absurd h
  subif a b (setup_reply (udp_encap_details _ _ _ _)) h = absurd h
  subif a b (setup_reply (ip_table_details _)) h = absurd h
  subif a b (setup_reply (ip_route_details _)) h = absurd h
  subif a b (setup_reply (mpls_route_details _)) h = absurd h
  subif a b (setup_reply control_ping_reply) h = absurd h
  subif a b (setup_reply (acknowledged _ _)) h = absurd h
  subif a b (udp_encap_add_reply _ _) h = absurd h
  subif a b (udp_encap_del_reply _) h = absurd h
  subif a b other_reply h = absurd h
  subif a b (ip_route_add_del_reply _) h = absurd h

  bind_sub_interface-Returns : (vrf : VppVrfTable) (id : ℕ) → Always (bind_sub_interface v vrf id)
  unfolding bind_sub_interface
  bind_sub_interface-Returns vrf id =
      and_then-Returns _ _ (ack-Returns sw_interface_set_table (set_table id vrf.id) (λ x h. h)) (
        and_then-Returns _ _
          (ack-Returns sw_interface_add_del_address
            (add_address id (VppApi.parse_address_with_prefix v (local_prefix v vrf)).1) (λ x h. h))
          (ack-Returns sw_interface_set_flags (set_flags id 1) (λ x h. h)))

  pub add_sub_interface-Returns : (vrf : VppVrfTable) → Always (add_sub_interface v vrf)
  unfolding add_sub_interface
  add_sub_interface-Returns vrf st =
      Returns-bind (λ _. Unit {0}) (λ _. Unit {0}) _ _
        (answered (exchange v (setup request) st).0 (exchange-Answers laws (setup request) st))
        (λ c u. bound c (exchange v (setup request) st).1)
    where
      request : SetupRequest Address Prefix
      request = create_vlan_subif vrf.main_interface_id vrf.vlan

      answered :
          (x : Result Reply) → Answers (setup request) x → Returns (λ _. Unit {0}) (subif_reply v x)
      answered (failed e) a = tt
      answered (value x) a = subif vrf.main_interface_id vrf.vlan x a

      bound :
          (c : Result ℕ) (st1 : Stream)
          → Returns {A = Result ℕ × Stream}
              (λ _. Unit {0})
              (elim c [
                | failed e ↦ ok (failed e, st1)
                | value id ↦ do
                  r ← bind_sub_interface v vrf id st1
                  ok (elim r.0 [ some e ↦ failed e | none ↦ value id ], r.1)
              ])
      bound (failed e) st1 = tt
      bound (value id) st1 =
          Returns-bind (λ _. Unit {0}) (λ _. Unit {0}) _ _ (bind_sub_interface-Returns vrf id st1)
            (λ r u. tt)

  null_answer :
      (n : ℕ) (p : Prefix) (x : Reply)
      → AnswersSetup {A = Address} (null_route n p) x
      → Returns (λ _. Unit {0}) (route_reply v (value x))
  null_answer n p (ip_route_add_del_reply err) h = tt
  null_answer n p (setup_reply (show_version_reply _ _)) h = absurd h
  null_answer n p (setup_reply (create_vlan_subif_reply _ _)) h = absurd h
  null_answer n p (setup_reply (ip_route_lookup_reply _ _)) h = absurd h
  null_answer n p (setup_reply (sw_interface_details _)) h = absurd h
  null_answer n p (setup_reply (udp_encap_details _ _ _ _)) h = absurd h
  null_answer n p (setup_reply (ip_table_details _)) h = absurd h
  null_answer n p (setup_reply (ip_route_details _)) h = absurd h
  null_answer n p (setup_reply (mpls_route_details _)) h = absurd h
  null_answer n p (setup_reply control_ping_reply) h = absurd h
  null_answer n p (setup_reply (acknowledged _ _)) h = absurd h
  null_answer n p (udp_encap_add_reply _ _) h = absurd h
  null_answer n p (udp_encap_del_reply _) h = absurd h
  null_answer n p other_reply h = absurd h

  pub add_black_hole_ip_route-Returns : (r : VppIpRoute) → Always (add_black_hole_ip_route v r)
  unfolding add_black_hole_ip_route
  add_black_hole_ip_route-Returns r st = elim (Result-cases (VppApi.parse_prefix v r.prefix)) [
    | inl (e, h) ↦ rw (add_black_hole_ip_route, h) tt
    | inr (p, h) ↦
        rw (add_black_hole_ip_route, h)
          (Returns-bind (λ _. Unit {0}) (λ _. Unit {0}) _ _
            (routed r.vrf_id p (exchange v (setup (null_route r.vrf_id p)) st).0
              (exchange-Answers laws (setup (null_route r.vrf_id p)) st))
            (λ e u. tt))
  ]
    where
      routed :
          (n : ℕ) (p : Prefix) (x : Result Reply)
          → Answers {A = Address} (setup (null_route n p)) x
          → Returns (λ _. Unit {0}) (route_reply v x)
      routed n p (failed e) a = tt
      routed n p (value x) a = null_answer n p x a
