-- ===== src/Checks/Sessions.antt =====
-- Sessions, packets and processes (pkg/bfd).
use cloudgw.Bfd.Packet.{Packet, validate, validate_lem, IsAuthentic, up, down, init, diag_none}
use cloudgw.Bfd.Session.{
  Session, slow_tx_interval, set_desired_min_tx_interval, set_required_min_rx_interval,
}
use cloudgw.Bfd.Receive.{rx_packet, control_packet, is_refused}
use cloudgw.Bfd.Receive.States.{rx_packet-Reaches, Reaches, rfc_state}
use cloudgw.Bfd.Receive.Timers.{rx_packet-detect_time}
use cloudgw.Bfd.Receive.Handshake.{handshake}
use cloudgw.Bfd.Lifecycle.{
  SessionArgs, Process, Reach, here, next, ticks, redials, init_process, new_session, on_tick,
  on_client_down, session_literal, detect_failure,
}
use cloudgw.Bfd.Lifecycle.Lost.{IsLost, Reach-IsLost}
use cloudgw.Bfd.Lifecycle.Detection.{Detects, detect_failure-Detects}
use cloudgw.Bfd.Lifecycle.Invariant.{IsSound, new_session-IsSound, new_session-IsDead}
use cloudgw.Bfd.Control.{RxData, process_packets, process_packets-Delivers, Delivers, is_addressed}
use cloudgw.Prelude.{[], none, true, false, ◌∷◌, ◌≡◌, refl, arith, ◌↔◌, ℕ}

abbrev args : SessionArgs
args = record {
  local_ip = "10.0.0.1";
  remote_ip = "10.0.0.9";
  family = 4;
  passive = false;
  rx_interval = 300000;
  tx_interval = 300000;
  detect_mult = 3;
}

abbrev fresh : Session
fresh = new_session args 17 1

abbrev peer : Session
peer = new_session args 99 2

-- The session above, written out, and up.
abbrev pub live_session : Session
live_session = record {
  local_ip = "10.0.0.1";
  remote_ip = "10.0.0.9";
  family = 4;
  passive = false;
  rx_interval = 300000;
  tx_interval = 3000000;
  state = up;
  remote_state = up;
  local_discr = 17;
  remote_discr = 99;
  local_diag = diag_none;
  desired_min_tx_interval = slow_tx_interval;
  required_min_rx_interval = 300000;
  remote_min_rx_interval = 300000;
  demand_mode = false;
  remote_demand_mode = false;
  detect_mult = 3;
  auth_type = false;
  rcv_auth_seq = 0;
  xmit_auth_seq = 1;
  auth_seq_known = false;
  async_tx_interval = slow_tx_interval;
  final_async_tx_interval = 0;
  last_rx_packet_time = 1000;
  async_detect_time = 900000;
  final_async_detect_time = 0;
  poll_sequence = false;
  remote_detect_mult = 3;
  remote_min_tx_interval = 0;
  conn_open = true;
  client_down = false;
  done = false;
  events = [];
}

abbrev packet : Packet
packet = record {
  version = 1;
  diagnostic = diag_none;
  state = down;
  poll = true;
  final = false;
  control_plane_independent = false;
  auth_present = false;
  demand = false;
  multipoint = false;
  detect_multiplier = 3;
  my_discriminator = 99;
  your_discriminator = 17;
  desired_min_tx_interval = 400000;
  required_min_rx_interval = 300000;
  required_min_echo_rx_interval = 0;
  auth_header = none;
}

packet_accepted : is_refused packet live_session ≡ false
unfolding is_refused
packet_accepted = refl

rx_packet-Reaches_example :
    Reaches (rfc_state up down) live_session (rx_packet 1500 true packet live_session)
rx_packet-Reaches_example = rx_packet-Reaches 1500 true packet live_session packet_accepted

rx_packet-detect_time_example :
    (rx_packet 1500 true packet live_session).async_detect_time ≡ 1200000
rx_packet-detect_time_example =
    rx_packet-detect_time 1500 true packet live_session refl refl (omega arith) refl

validate_lem_example :
    (validate packet ≡ none)
    ↔ ((packet.version ≡ 1) × (packet.auth_present ≡ true → IsAuthentic packet.auth_header))
validate_lem_example = validate_lem packet

fresh_down : (a : SessionArgs) (discr seq : ℕ) → (new_session a discr seq).state ≡ down
unfolding new_session session_literal set_desired_min_tx_interval set_required_min_rx_interval
fresh_down a discr seq = ground arith

handshake_example :
    let t1 = rx_packet 10 true (control_packet false fresh) peer in
    let s1 = rx_packet 20 true (control_packet false t1) fresh in
    let t2 = rx_packet 30 true (control_packet false s1) t1 in
    (t1.state ≡ init) × (s1.state ≡ up) × (t2.state ≡ up)
handshake_example =
    handshake 10 20 30 true fresh peer (new_session-IsDead args 17 1) (new_session-IsDead args 99 2)
      (fresh_down args 17 1) (fresh_down args 99 2)

detect_failure-Detects_example : Detects 2000 live_session (detect_failure 2000 live_session)
detect_failure-Detects_example = detect_failure-Detects 2000 live_session

fresh_connected : (a : SessionArgs) (discr seq : ℕ) → (new_session a discr seq).client_down ≡ false
unfolding new_session session_literal set_desired_min_tx_interval set_required_min_rx_interval
fresh_connected a discr seq = ground arith

ticked : Reach (init_process fresh) (on_tick true (init_process fresh))
unfolding init_process
ticked = next here (ticks true (init_process fresh) refl (fresh_connected args 17 1))

new_session-IsSound_example : IsSound (on_tick true (init_process fresh))
new_session-IsSound_example = new_session-IsSound args 17 1 ticked

-- Detection was started, and ended when the connection was closed.
abbrev lost : Process
lost = record {
  session = record live_session { client_down = true; conn_open = false };
  started = true;
  looping = true;
  detecting = false;
}

Reach-IsLost_example :
    IsLost (on_client_down true lost) × ((on_client_down true lost).session.done ≡ false)
Reach-IsLost_example =
    Reach-IsLost (record { was_started = refl; not_detecting = refl })
      (next here (redials true lost refl refl))

abbrev data_rx : RxData
data_rx = record { packet = packet; addr = "10.0.0.9:50000" }

process_packets-Delivers_example :
    Delivers
      (is_addressed (λ a. "10.0.0.9") data_rx)
      (rx_packet 1500 true packet)
      (live_session ∷ [])
      (process_packets (λ a. "10.0.0.9") 1500 true data_rx (live_session ∷ []))
process_packets-Delivers_example =
    process_packets-Delivers (λ a. "10.0.0.9") 1500 true data_rx (live_session ∷ [])
