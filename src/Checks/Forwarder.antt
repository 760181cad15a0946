-- ===== src/Checks/Forwarder.antt =====
-- A forwarder that answers each request with its own reply (internal/repository/vpp/vpp.go).
use cloudgw.Imdb.Memdb.{value}
use cloudgw.Govpp.{
  SetupRequest, show_version, show_version_reply, create_vlan_subif, create_vlan_subif_reply,
  ip_route_lookup, ip_route_lookup_reply, null_route, sw_interface_dump, udp_encap_dump,
  ip_table_dump, mpls_route_dump, control_ping, udp_decap, ip_route_dump, mpls_table, add_address,
  del_addresses, set_flags, enable_mpls, ip_table, set_table, del_subif, mpls_route, Kind, kind_of,
  acknowledged, control_ping_reply,
}
use cloudgw.Vpp.{
  setup, setup_reply, VppApi, Request, Reply, udp_encap_add, udp_encap_del, ip_route_add_del,
  udp_encap_add_reply, udp_encap_del_reply, ip_route_add_del_reply,
}
use cloudgw.Vpp.Total.{AnswersSetup, VppLaws, Answers}
use cloudgw.Prelude.{none, String, refl, [], some, Option}

-- The stream is the reply that waits on it.
abbrev acknowledge : Option Kind → Reply
acknowledge none = setup_reply control_ping_reply
acknowledge (some k) = setup_reply (acknowledged k none)

abbrev answer_setup : SetupRequest String String → Reply
answer_setup show_version = setup_reply (show_version_reply none "1")
answer_setup (create_vlan_subif _ _) = setup_reply (create_vlan_subif_reply none 3)
answer_setup (ip_route_lookup _ _) =
    setup_reply (ip_route_lookup_reply none (record { table_id = 0; prefix = ""; paths = [] }))
answer_setup (null_route _ _) = ip_route_add_del_reply none
answer_setup r = acknowledge (kind_of r)

abbrev answer : Request String String → Reply
answer (udp_encap_add _ _ _ _ _) = udp_encap_add_reply none 7
answer (udp_encap_del _) = udp_encap_del_reply none
answer (ip_route_add_del _ _ _ _ _ _) = ip_route_add_del_reply none
answer (setup r) = answer_setup r

abbrev pub obedient : VppApi
obedient = record {
  Address = String;
  Prefix = String;
  Stream = Reply;
  parse_address = λ s. value s;
  parse_ip4 = λ s. value s;
  parse_prefix = λ s. value s;
  parse_address_with_prefix = λ s. (none, s);
  format_uint = λ n. "24";
  send = λ r st. (none, answer r);
  recv = λ st. (value st, st);
}

answer_setup-AnswersSetup : (r : SetupRequest String String) → AnswersSetup r (answer_setup r)
answer_setup-AnswersSetup show_version = tt
answer_setup-AnswersSetup sw_interface_dump = tt
answer_setup-AnswersSetup udp_encap_dump = tt
answer_setup-AnswersSetup ip_table_dump = tt
answer_setup-AnswersSetup mpls_route_dump = tt
answer_setup-AnswersSetup control_ping = tt
answer_setup-AnswersSetup (ip_route_dump _) = tt
answer_setup-AnswersSetup (create_vlan_subif _ _) = tt
answer_setup-AnswersSetup (ip_route_lookup _ _) = tt
answer_setup-AnswersSetup (null_route _ _) = tt
answer_setup-AnswersSetup udp_decap = refl
answer_setup-AnswersSetup (mpls_table _) = refl
answer_setup-AnswersSetup (add_address _ _) = refl
answer_setup-AnswersSetup (del_addresses _) = refl
answer_setup-AnswersSetup (set_flags _ _) = refl
answer_setup-AnswersSetup (enable_mpls _) = refl
answer_setup-AnswersSetup (ip_table _ _ _) = refl
answer_setup-AnswersSetup (set_table _ _) = refl
answer_setup-AnswersSetup (del_subif _) = refl
answer_setup-AnswersSetup (mpls_route _ _ _ _) = refl

answer-Answers : (r : Request String String) → Answers r (value (answer r))
answer-Answers (udp_encap_add _ _ _ _ _) = tt
answer-Answers (udp_encap_del _) = tt
answer-Answers (ip_route_add_del _ _ _ _ _ _) = tt
answer-Answers (setup r) = answer_setup-AnswersSetup r

pub obedient_laws : VppLaws obedient
obedient_laws = record { answers = λ r st. answer-Answers r }
