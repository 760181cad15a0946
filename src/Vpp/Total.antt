-- ===== src/Vpp/Total.antt =====
-- Requests return, with an error or a value, where the stream answers each request with its own
-- kind of reply (internal/repository/vpp/vpp.go).
use cloudgw.Model.Route.{VppIpRoute}
use cloudgw.Imdb.Memdb.{Result, Result-cases, failed, value}
use cloudgw.Govpp.{
  Kind, SetupRequest, kind_of, same_kind, acknowledged, show_version, show_version_reply,
  create_vlan_subif, create_vlan_subif_reply, ip_route_lookup, ip_route_lookup_reply, null_route,
}
use cloudgw.Vpp.{
  setup, setup_reply, VppApi, Request, Reply, exchange, udp_encap_del, udp_encap_add_reply,
  ip_route_add_del, ip_route_add_del_reply, parse_next_hops, udp_encap_add, route_reply, FibPath,
  udp_encap_del_reply, other_reply, add_del_fip_route, has_undefined, fip_paths, request_fip_route,
  del_reply, vpp_del_udp_tunnel, vpp_add_udp_tunnel, add_reply, setup_reply,
}
use cloudgw.Model.Tunnel.{VppUdpTunnel}
use cloudgw.Prelude.{
  true, Option, none, some, Bool, List, Option-cases, Returns, String, [], inl, inr, length, ℕ, ◌∷◌,
  ◌≡◌, arith, suc, refl, ap, Bool-cases, Returns-bind, ltb, sym, ◌∙◌, ◌%◌, ◌^◌,
}

-- A request with a return value only is answered by its own reply.
abbrev pub Acknowledges : Option Kind → Reply → Type 0
Acknowledges none x = Unit
Acknowledges (some k) (setup_reply (acknowledged k' e)) = same_kind k k' ≡ true
Acknowledges (some k) _ = ⊥

abbrev pub AnswersSetup : {A P : Type 0} → SetupRequest A P → Reply → Type 0
AnswersSetup show_version (setup_reply (show_version_reply _ _)) = Unit
AnswersSetup show_version _ = ⊥
AnswersSetup (create_vlan_subif _ _) (setup_reply (create_vlan_subif_reply _ _)) = Unit
AnswersSetup (create_vlan_subif _ _) _ = ⊥
AnswersSetup (ip_route_lookup _ _) (setup_reply (ip_route_lookup_reply _ _)) = Unit
AnswersSetup (ip_route_lookup _ _) _ = ⊥
AnswersSetup (null_route _ _) (ip_route_add_del_reply _) = Unit
AnswersSetup (null_route _ _) _ = ⊥
AnswersSetup r x = Acknowledges (kind_of r) x

-- The reply to a request has its type; an error of the stream is no reply.
abbrev pub Answers : {A P : Type 0} → Request A P → Result Reply → Type 0
Answers r (failed e) = Unit
Answers (udp_encap_add _ _ _ _ _) (value (udp_encap_add_reply _ _)) = Unit
Answers (udp_encap_del _) (value (udp_encap_del_reply _)) = Unit
Answers (ip_route_add_del _ _ _ _ _ _) (value (ip_route_add_del_reply _)) = Unit
Answers (setup r) (value x) = AnswersSetup r x
Answers _ _ = ⊥

pub record VppLaws (v : VppApi) : Type 0 where
  pub answers :
      (r : Request (VppApi.Address v) (VppApi.Prefix v)) (st : VppApi.Stream v)
      → Answers r (VppApi.recv v (VppApi.send v r st).1).0

-- The slices of a route have one length.
pub record IsAligned (r : VppIpRoute) : Type 0 where
  pub ids : length r.tunnel_ids ≡ length r.next_hops
  pub labels : length r.fip_mpls_labels ≡ length r.next_hops

-- A tunnel that is made leads where it was asked to.
abbrev pub LeadsTo : String → Result VppUdpTunnel → Type 0
LeadsTo ip (failed e) = Unit
LeadsTo ip (value t) = t.dst_ip ≡ ip

numbered-LeadsTo :
    (t : VppUdpTunnel) (r : Result ℕ)
    → LeadsTo t.dst_ip
        (elim r [ failed e ↦ failed e | value id ↦ value (record t { tunnel_id = id }) ])
numbered-LeadsTo t (failed e) = tt
numbered-LeadsTo t (value id) = refl

module _ {v : VppApi} (laws : VppLaws v) where
  open v use {Address, Prefix, Stream}

  pub exchange-Answers : (r : Request Address Prefix) (st : Stream) → Answers r (exchange v r st).0
  unfolding exchange
  exchange-Answers r st = elim (Option-cases (VppApi.send v r st).0) [
    | inl e ↦ rw (e, exchange) (laws.answers r st)
    | inr (x, e) ↦ rw (e, exchange) tt
  ]

  pub route_reply-Returns :
      (b c : Bool) (n : ℕ) (p : Prefix) (k : ℕ) (paths : List (FibPath Address)) (x : Result Reply)
      → Answers (ip_route_add_del b c n p k paths) x
      → Returns (λ _. Unit {0}) (route_reply v x)
  route_reply-Returns b c n p k paths (failed e) h = tt
  route_reply-Returns b c n p k paths (value (ip_route_add_del_reply err)) h = tt
  route_reply-Returns b c n p k paths (value (udp_encap_add_reply err id)) h = absurd h
  route_reply-Returns b c n p k paths (value (udp_encap_del_reply err)) h = absurd h
  route_reply-Returns b c n p k paths (value other_reply) h = absurd h
  route_reply-Returns b c n p k paths (value (setup_reply x)) h = absurd h

  add_reply-Returns :
      (a b : Address) (n p q : ℕ) (x : Result Reply)
      → Answers {A = Address} {P = Prefix} (udp_encap_add n a b p q) x
      → Returns (λ _. Unit {0}) (add_reply v x)
  add_reply-Returns a b n p q (failed e) h = tt
  add_reply-Returns a b n p q (value (udp_encap_add_reply none id)) h = tt
  add_reply-Returns a b n p q (value (udp_encap_add_reply (some e) id)) h = tt
  add_reply-Returns a b n p q (value (ip_route_add_del_reply err)) h = absurd h
  add_reply-Returns a b n p q (value (udp_encap_del_reply err)) h = absurd h
  add_reply-Returns a b n p q (value other_reply) h = absurd h
  add_reply-Returns a b n p q (value (setup_reply x)) h = absurd h

  pub vpp_add_udp_tunnel-Returns :
      (t : VppUdpTunnel) (st : Stream)
      → Returns (λ r. LeadsTo t.dst_ip r.0) (vpp_add_udp_tunnel v t st)
  unfolding vpp_add_udp_tunnel
  vpp_add_udp_tunnel-Returns t st = elim (Result-cases (VppApi.parse_address v t.src_ip)) [
    | inl (x, e) ↦ rw (e, vpp_add_udp_tunnel) tt
    | inr (src, e) ↦ elim (Result-cases (VppApi.parse_address v t.dst_ip)) [
      | inl (x, f) ↦ rw (e, f, vpp_add_udp_tunnel) tt
      | inr (dst, f) ↦
          rw (e, f, vpp_add_udp_tunnel)
            (Returns-bind (λ _. Unit {0}) (λ r. LeadsTo t.dst_ip r.0) _ _
              (add_reply-Returns src dst t.routing_table_id t.src_port t.dst_port _ (
                exchange-Answers (udp_encap_add t.routing_table_id src dst t.src_port t.dst_port)
                  st))
              (λ r u. numbered-LeadsTo t r))
    ]
  ]

  del_reply-Returns :
      (id : ℕ) (x : Result Reply)
      → Answers {A = Address} {P = Prefix} (udp_encap_del id) x
      → Returns (λ _. Unit {0}) (del_reply v x)
  del_reply-Returns id (failed e) h = tt
  del_reply-Returns id (value (udp_encap_del_reply err)) h = tt
  del_reply-Returns id (value (ip_route_add_del_reply err)) h = absurd h
  del_reply-Returns id (value (udp_encap_add_reply err k)) h = absurd h
  del_reply-Returns id (value other_reply) h = absurd h
  del_reply-Returns id (value (setup_reply x)) h = absurd h

  pub vpp_del_udp_tunnel-Returns :
      (id : ℕ) (st : Stream) → Returns (λ _. Unit {0}) (vpp_del_udp_tunnel v id st)
  unfolding vpp_del_udp_tunnel
  vpp_del_udp_tunnel-Returns id st =
      Returns-bind (λ _. Unit {0}) (λ _. Unit {0}) _ _
        (del_reply-Returns id _ (exchange-Answers (udp_encap_del id) st)) (λ err u. tt)

  abbrev LengthIs : ℕ → Result (List Address) → Type 0
  LengthIs n (value hops) = length hops ≡ n
  LengthIs n (failed e) = Unit

  parse_one-length :
      (x : Result Address) (rest : Result (List Address)) (n : ℕ)
      → LengthIs n rest
      → LengthIs (suc n) (elim x [
        | failed e ↦ failed e
        | value a ↦ elim rest [ failed e ↦ failed e | value hops ↦ value (a ∷ hops) ]
      ])
  parse_one-length (failed e) rest n h = tt
  parse_one-length (value a) (failed e) n h = tt
  parse_one-length (value a) (value hops) n h = ap suc h

  pub parse_next_hops-length : (nhs : List String) → LengthIs (length nhs) (parse_next_hops v nhs)
  unfolding parse_next_hops
  parse_next_hops-length [] = refl
  parse_next_hops-length (nh ∷ nhs) =
      parse_one-length (VppApi.parse_ip4 v nh) (parse_next_hops v nhs) (length nhs)
        (parse_next_hops-length nhs)

  fip_paths-Returns :
      (main_if : ℕ) (hops : List Address) (ids labels : List ℕ)
      → length ids ≡ length hops
      → length labels ≡ length hops
      → Returns (λ _. Unit {0}) (fip_paths v main_if hops ids labels)
  unfolding fip_paths
  fip_paths-Returns main_if [] ids labels a b = tt
  fip_paths-Returns main_if (h ∷ hops) [] labels a b = absurd (omega arith)
  fip_paths-Returns main_if (h ∷ hops) (id ∷ ids) [] a b = absurd (omega arith)
  fip_paths-Returns main_if (h ∷ hops) (id ∷ ids) (l ∷ labels) a b =
      Returns-bind (λ _. Unit {0}) (λ _. Unit {0}) (fip_paths v main_if hops ids labels) _
        (fip_paths-Returns main_if hops ids labels (omega arith) (omega arith)) (λ paths t. tt)

  request_fip_route-Returns :
      (is_add : Bool) (r : VppIpRoute) (prefix : Prefix) (hops : List Address) (st : Stream)
      → IsAligned r
      → length hops ≡ length r.next_hops
      → Returns (λ _. Unit {0}) (request_fip_route v is_add r prefix hops st)
  unfolding request_fip_route
  request_fip_route-Returns is_add r prefix hops st a h =
      Returns-bind (λ _. Unit {0}) (λ _. Unit {0})
        (fip_paths v r.main_interface_id hops r.tunnel_ids r.fip_mpls_labels) _
        (fip_paths-Returns r.main_interface_id hops r.tunnel_ids r.fip_mpls_labels (a.ids ∙ sym h)
          (a.labels ∙ sym h))
        (λ paths t.
          Returns-bind (λ _. Unit {0}) (λ _. Unit {0}) _ _
            (route_reply-Returns is_add (ltb 1 (length r.next_hops)) r.vrf_id prefix
              (length r.next_hops % 2 ^ 8) paths _
              (exchange-Answers
                (ip_route_add_del is_add (ltb 1 (length r.next_hops)) r.vrf_id prefix
                  (length r.next_hops % 2 ^ 8) paths)
                st))
            (λ err u. tt))

  hops_length :
      (nhs : List String) (hops : List Address)
      → parse_next_hops v nhs ≡ value hops
      → length hops ≡ length nhs
  hops_length nhs hops e = rw e at (parse_next_hops-length nhs)

  -- The request for a floating ip route returns, with an error or none, when its slices of tunnels
  -- and of labels are as long as its next hops and the stream answers a request with a reply of
  -- its kind: no index is out of range and no cast of the reply panics.
  pub add_del_fip_route-Returns :
      (is_add : Bool) (r : VppIpRoute) (st : Stream)
      → IsAligned r
      → Returns (λ _. Unit {0}) (add_del_fip_route v is_add r st)
  unfolding add_del_fip_route
  add_del_fip_route-Returns is_add r st a = elim (Bool-cases (has_undefined v r.tunnel_ids)) [
    | inl e ↦ rw (e, add_del_fip_route) tt
    | inr e ↦ elim (Result-cases (VppApi.parse_prefix v r.prefix)) [
      | inl (x, p) ↦ rw (e, p, add_del_fip_route) tt
      | inr (prefix, p) ↦ elim (Result-cases (parse_next_hops v r.next_hops)) [
        | inl (x, n) ↦ rw (e, p, n, add_del_fip_route) tt
        | inr (hops, n) ↦
            rw (e, p, n, add_del_fip_route)
              (request_fip_route-Returns is_add r prefix hops st a (hops_length r.next_hops hops n))
      ]
    ]
  ]
