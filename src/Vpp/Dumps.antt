-- ===== src/Vpp/Dumps.antt =====
-- The dumps of the forwarder's tables (internal/repository/vpp/vpp.go). A dump sends its request
-- and a control ping, and reads messages until the reply to the ping. The stream may go on for
-- ever, so the loops run on fuel: `unfinished` stands for a loop that has not ended.
pub mod Ends
pub mod Tunnels
use cloudgw.Govpp.{
  SetupRequest, control_ping, control_ping_reply, IpTable, ip_table_details, ip_table_dump,
  mpls_route_details, mpls_route_dump, sw_interface_details, sw_interface_dump, udp_encap_details,
  udp_encap_dump, del_subif, delete_subif,
}
use cloudgw.Imdb.Memdb.{Error, failed, library, value}
use cloudgw.Model.Tunnel.{VppUdpTunnel}
use cloudgw.Vpp.{VppApi, Reply, setup, setup_reply}
use cloudgw.Vpp.Setup.{request_ack}
use cloudgw.Prelude.{
  Bool, List, Option, Outcome, String, [], false, if◌then◌else◌, ltb, none, not, ok, panic, some,
  suc, zero, ℕ, ◌%◌, ◌+◌, ◌++◌, ◌==◌, ◌>>=◌, ◌^◌, ◌∷◌, nat_Eq, string_Eq,
}

-- What a loop does with a message: it goes on; it ends on the reply to the ping; it returns on a
-- message of another type; or it indexes past the end.
pub data Round {ℓ} (A : Type ℓ) : Type ℓ where
  more : A → Round A
  ended unexpected panics : Round A

-- The end of a dump: with what was collected; with an error, beside what was collected so far; with
-- a panic; or not within the fuel.
pub data Dumped {ℓ} (A : Type ℓ) : Type ℓ where
  collected : A → Dumped A
  broken : Error → A → Dumped A
  panicked unfinished : Dumped A

abbrev pub unexpected_message : Error
unexpected_message = library "unexpected message type"

-- A function that returns nil or 0 beside an error.
abbrev pub dropping {ℓ} : {A : Type ℓ} → A → Dumped A → Dumped A
dropping d (broken e a) = broken e d
dropping d (collected a) = collected a
dropping d panicked = panicked
dropping d unfinished = unfinished

module _ (v : VppApi) where
  open v use {Address, Prefix, Stream, send, recv}

  unfoldable pub dump_loop {ℓ} :
      {A : Type ℓ} → (Reply → A → Round A) → ℕ → A → Stream → Dumped A × Stream
  dump_loop on zero a st = (unfinished, st)
  dump_loop on (suc fuel) a st =
      let (msg, st1) = recv st in
      elim msg [
        | failed e ↦ (broken e a, st1)
        | value reply ↦ elim (on reply a) [
          | more b ↦ dump_loop on fuel b st1
          | ended ↦ (collected a, st1)
          | unexpected ↦ (broken unexpected_message a, st1)
          | panics ↦ (panicked, st1)
        ]
      ]

  -- SendMsg of the request and of the ping, and the loop. Beside an error of SendMsg stands `d`.
  unfoldable pub dump {ℓ} :
      {A : Type ℓ}
      → (Reply → A → Round A)
      → SetupRequest Address Prefix
      → ℕ
      → A
      → A
      → Stream
      → Dumped A × Stream
  unfolding dump_loop
  dump on r fuel d a st =
      let (err, st1) = send (setup r) st in
      elim err [
        | some e ↦ (broken e d, st1)
        | none ↦
            let (err2, st2) = send (setup control_ping) st1 in
            elim err2 [ some e ↦ (broken e d, st2) | none ↦ dump_loop on fuel a st2 ]
      ]

  -- The cases of the type switches; what `append` does is `++` with one element.
  abbrev pub on_interface : Reply → List ℕ → Round (List ℕ)
  on_interface (setup_reply (sw_interface_details id)) ids = more (ids ++ id ∷ [])
  on_interface (setup_reply control_ping_reply) ids = ended
  on_interface _ ids = unexpected

  abbrev pub on_sub_interface : ℕ → Reply → List ℕ → Round (List ℕ)
  on_sub_interface main_id (setup_reply (sw_interface_details id)) ids =
      more (if ltb main_id id then ids ++ id ∷ [] else ids)
  on_sub_interface main_id (setup_reply control_ping_reply) ids = ended
  on_sub_interface main_id _ ids = unexpected

  abbrev pub on_tunnel_count : Reply → ℕ → Round ℕ
  on_tunnel_count (setup_reply (udp_encap_details id src dst port)) n = more (n + 1)
  on_tunnel_count (setup_reply control_ping_reply) n = ended
  on_tunnel_count _ n = unexpected

  -- The tunnel of a message; the other fields have their zero values.
  abbrev pub dumped_tunnel : ℕ → String → String → ℕ → VppUdpTunnel
  dumped_tunnel id src dst port = record {
    routing_table_id = 0;
    tunnel_id = id;
    src_ip = src;
    dst_ip = dst;
    src_port = port;
    dst_port = 0;
    fip_served = 0;
  }

  abbrev pub on_tunnel : Reply → List VppUdpTunnel → Round (List VppUdpTunnel)
  on_tunnel (setup_reply (udp_encap_details id src dst port)) ts =
      more (ts ++ dumped_tunnel id src dst port ∷ [])
  on_tunnel (setup_reply control_ping_reply) ts = ended
  on_tunnel _ ts = unexpected

  abbrev pub on_table : Reply → List IpTable → Round (List IpTable)
  on_table (setup_reply (ip_table_details t)) ts = more (if not t.is_ip6 then ts ++ t ∷ [] else ts)
  on_table (setup_reply control_ping_reply) ts = ended
  on_table _ ts = unexpected

  abbrev pub on_mpls_route : Reply → List ℕ → Round (List ℕ)
  on_mpls_route (setup_reply (mpls_route_details label)) ls = more (ls ++ label ∷ [])
  on_mpls_route (setup_reply control_ping_reply) ls = ended
  on_mpls_route _ ls = unexpected

  unfoldable pub get_interface_ids : ℕ → Stream → Dumped (List ℕ) × Stream
  unfolding dump
  get_interface_ids fuel st =
      let (r, st1) = dump on_interface sw_interface_dump fuel [] [] st in (dropping [] r, st1)

  unfoldable pub count_udp_tunnels : ℕ → Stream → Dumped ℕ × Stream
  unfolding dump
  count_udp_tunnels fuel st = dump on_tunnel_count udp_encap_dump fuel 0 0 st

  abbrev pub is_empty_count : Dumped ℕ → Dumped Bool
  is_empty_count (collected n) = collected (n == 0)
  is_empty_count (broken e n) = broken e false
  is_empty_count panicked = panicked
  is_empty_count unfinished = unfinished

  unfoldable pub check_udp_tunnel_table_empty : ℕ → Stream → Dumped Bool × Stream
  unfolding dump
  check_udp_tunnel_table_empty fuel st =
      let (r, st1) = dump on_tunnel_count udp_encap_dump fuel 0 0 st in (is_empty_count r, st1)

  unfoldable pub dump_udp_tunnels : ℕ → Stream → Dumped (List VppUdpTunnel) × Stream
  unfolding dump
  dump_udp_tunnels fuel st = dump on_tunnel udp_encap_dump fuel [] [] st

  unfoldable pub get_routing_tables : ℕ → Stream → Dumped (List IpTable) × Stream
  unfolding dump
  get_routing_tables fuel st =
      let (r, st1) = dump on_table ip_table_dump fuel [] [] st in (dropping [] r, st1)

  unfoldable pub dump_mpls_local_label_route : ℕ → Stream → Dumped (List ℕ) × Stream
  unfolding dump
  dump_mpls_local_label_route fuel st =
      let (r, st1) = dump on_mpls_route mpls_route_dump fuel [] [] st in (dropping [] r, st1)

  -- The loop of DelSubInterfaces over the interfaces that it found, with the number removed so far.
  unfoldable pub delete_subifs : List ℕ → ℕ → Stream → Outcome ((ℕ × Option Error) × Stream)
  unfolding request_ack
  delete_subifs [] n st = ok ((n, none), st)
  delete_subifs (id ∷ ids) n st = do
    r ← request_ack v delete_subif (del_subif id) st
    elim r.0 [ some e ↦ ok ((n, some e), r.1) | none ↦ delete_subifs ids ((n + 1) % 2 ^ 32) r.1 ]

  -- none stands for a dump that has not ended
  unfoldable pub del_sub_interfaces :
      ℕ → ℕ → Stream → Option (Outcome ((ℕ × Option Error) × Stream))
  unfolding dump delete_subifs
  del_sub_interfaces fuel main_id st =
      let (r, st1) = dump (on_sub_interface main_id) sw_interface_dump fuel [] [] st in
      elim r [
        | collected ids ↦ some (delete_subifs ids 0 st1)
        | broken e ids ↦ some (ok ((0, some e), st1))
        | panicked ↦ some panic
        | unfinished ↦ none
      ]
