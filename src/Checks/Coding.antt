-- ===== src/Checks/Coding.antt =====
-- A coding of packets as lists of numbers, one for each field (pkg/bfd/packet.go).
use cloudgw.Bfd.Coding.{
  PacketApi, Decoded, CodingLaws, bfd_layer, decode_packet, encode_packet, decoded,
  decode_packet-encode_packet,
}
use cloudgw.Bfd.Packet.{
  Packet, AuthHeader, BfdState, admin_down, down, init, up, Diagnostic, diag_none, time_expired,
  neighbor_signal_down, other_diag,
}
use cloudgw.Bfd.Receive.{control_packet}
use mathlib.Core.Path.{refl}
use cloudgw.Checks.Sessions.{live_session}
use cloudgw.Prelude.{
  Bool, List, Option, [], arith, false, if◌then◌else◌, none, true, ℕ, ◌==◌, ◌∷◌, ◌≡◌, some, nat_Eq,
  ap,
}

abbrev of_bool : Bool → ℕ
of_bool false = 0
of_bool true = 1

abbrev of_state : BfdState → ℕ
of_state admin_down = 0
of_state down = 1
of_state init = 2
of_state up = 3

abbrev to_state : ℕ → BfdState
to_state n = if n == 0 then admin_down else if n == 1 then down else if n == 2 then init else up

abbrev of_diag : Diagnostic → ℕ
of_diag diag_none = 0
of_diag time_expired = 1
of_diag neighbor_signal_down = 3
of_diag other_diag = 4

abbrev to_diag : ℕ → Diagnostic
to_diag n =
    if n == 0
    then diag_none
    else if n == 1
    then time_expired
    else if n == 3
    then neighbor_signal_down
    else other_diag

abbrev of_header : Option AuthHeader → List ℕ
of_header none = []
of_header (some h) = h.auth_type ∷ h.key_id ∷ h.sequence_number ∷ h.auth_data

abbrev to_header : List ℕ → Option AuthHeader
to_header (t ∷ k ∷ s ∷ bytes) =
    some (record { auth_type = t; key_id = k; sequence_number = s; auth_data = bytes })
to_header bytes = none

abbrev bytes_of : Packet → List ℕ
bytes_of p =
    p.version
    ∷ of_diag p.diagnostic
    ∷ of_state p.state
    ∷ of_bool p.poll
    ∷ of_bool p.final
    ∷ of_bool p.control_plane_independent
    ∷ of_bool p.auth_present
    ∷ of_bool p.demand
    ∷ of_bool p.multipoint
    ∷ p.detect_multiplier
    ∷ p.my_discriminator
    ∷ p.your_discriminator
    ∷ p.desired_min_tx_interval
    ∷ p.required_min_rx_interval
    ∷ p.required_min_echo_rx_interval
    ∷ of_header p.auth_header

abbrev packet_of : List ℕ → Option Packet
packet_of (v ∷ d ∷ s ∷ po ∷ f ∷ cpi ∷ au ∷ de ∷ m ∷ dm ∷ my ∷ yo ∷ tx ∷ rx ∷ ec ∷ rest) =
    some (record {
      version = v;
      diagnostic = to_diag d;
      state = to_state s;
      poll = po == 1;
      final = f == 1;
      control_plane_independent = cpi == 1;
      auth_present = au == 1;
      demand = de == 1;
      multipoint = m == 1;
      detect_multiplier = dm;
      my_discriminator = my;
      your_discriminator = yo;
      desired_min_tx_interval = tx;
      required_min_rx_interval = rx;
      required_min_echo_rx_interval = ec;
      auth_header = to_header rest;
    })
packet_of bytes = none

bool_back : (b : Bool) → (of_bool b == 1) ≡ b
bool_back true = refl
bool_back false = refl

state_back : (s : BfdState) → to_state (of_state s) ≡ s
state_back admin_down = refl
state_back down = refl
state_back init = refl
state_back up = refl

diag_back : (d : Diagnostic) → to_diag (of_diag d) ≡ d
diag_back diag_none = refl
diag_back time_expired = refl
diag_back neighbor_signal_down = refl
diag_back other_diag = refl

header_back : (o : Option AuthHeader) → to_header (of_header o) ≡ o
header_back none = refl
header_back (some h) = refl

packet_back : (p : Packet) → packet_of (bytes_of p) ≡ some p
packet_back p =
    rw
      (
        bool_back p.poll,
        bool_back p.final,
        bool_back p.control_plane_independent,
        bool_back p.auth_present,
        bool_back p.demand,
        bool_back p.multipoint,
        state_back p.state,
        diag_back p.diagnostic,
        header_back p.auth_header,
      )
      refl

abbrev plain_api : PacketApi
plain_api = record {
  new_packet = λ bytes. record {
    error_layer = false;
    layers = bfd_layer ∷ [];
    application_layer = packet_of bytes;
  };
  serialize = λ p. some (bytes_of p);
}

plain_back :
    (p : Packet)
    → plain_api.new_packet (bytes_of p)
      ≡ record { error_layer = false; layers = bfd_layer ∷ []; application_layer = some p }
plain_back p =
    ap
      (λ (o : Option Packet).
        let d : Decoded = record {
          error_layer = false;
          layers = bfd_layer ∷ [];
          application_layer = o;
        } in
        d)
      (packet_back p)

plain_laws : CodingLaws plain_api
plain_laws = record { read_back = λ p f. (bytes_of p, refl, plain_back p) }

decode_packet-encode_packet_example :
    decode_packet plain_api (encode_packet plain_api (control_packet false live_session))
    ≡ decoded (control_packet false live_session)
decode_packet-encode_packet_example =
    decode_packet-encode_packet live_session (omega arith) (omega arith) (omega arith) (omega arith)
      (omega arith) plain_laws false
