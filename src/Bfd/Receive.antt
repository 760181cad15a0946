-- ===== src/Bfd/Receive.antt =====
-- Reception and transmission of packets (RxPacket and TxPacket of pkg/bfd/session.go).
pub mod States
pub mod Timers
pub mod Dead
pub mod Handshake
use cloudgw.Bfd.Packet.{Packet, neighbor_signal_down, admin_down, init, auth, BfdState, down, up}
use cloudgw.Bfd.Session.{
  Session, set_desired_min_tx_interval, emit, set_remote_detect_mult, u32, is_up, slow_tx_interval,
  callback, set_remote_min_rx_interval, sent, close_conn, set_remote_min_tx_interval,
}
use cloudgw.Prelude.{Bool, false, if◌then◌else◌, ltb, none, not, some, true, ℕ, ◌&&◌, ◌||◌}

-- The packet that TxPacket encodes.
unfoldable pub control_packet : Bool → Session → Packet
control_packet final s = record {
  version = 1;
  diagnostic = s.local_diag;
  state = s.state;
  poll = if final then false else s.poll_sequence;
  final = final;
  control_plane_independent = false;
  auth_present = s.auth_type;
  demand = s.demand_mode && is_up s.state && is_up s.remote_state;
  multipoint = false;
  detect_multiplier = s.detect_mult;
  my_discriminator = s.local_discr;
  your_discriminator = s.remote_discr;
  desired_min_tx_interval = s.desired_min_tx_interval;
  required_min_rx_interval = s.required_min_rx_interval;
  required_min_echo_rx_interval = 0;
  auth_header = if s.auth_type then some auth else none;
}

-- `net` says whether the network takes a packet; a closed connection takes none.
unfoldable pub tx_packet : Bool → Bool → Session → Session
tx_packet net final s =
    let s1 = emit (sent (control_packet final s)) s in
    if s.conn_open && net then s1 else close_conn s1

-- `a != b`
abbrev pub differ : Bool → Bool → Bool
differ true true = false
differ false false = false
differ _ _ = true

-- The three tests at the head, on the use of authentication.
unfoldable pub is_refused : Packet → Session → Bool
is_refused p s =
    p.auth_present && not s.auth_type
    || not p.auth_present && s.auth_type
    || differ p.auth_present s.auth_type

-- What is taken over from the packet before the state is looked at.
unfoldable pub learn : Packet → Session → Session
learn p s =
    let s1 = record s {
      remote_discr = p.my_discriminator;
      remote_state = p.state;
      remote_demand_mode = p.demand;
    } in
    set_remote_min_tx_interval p.desired_min_tx_interval (
      set_remote_detect_mult p.detect_multiplier
        (set_remote_min_rx_interval p.required_min_rx_interval s1))

abbrev pub move : BfdState → Session → Session
move to s = emit (callback s.state to) (record s { state = to })

unfoldable pub go_up : Session → Session
go_up s = set_desired_min_tx_interval (u32 s.tx_interval) (move up s)

-- The branches on the two states, the local one first. The clauses with the remote state
-- admin_down are the first branch of the source.
unfoldable pub transition : BfdState → BfdState → Session → Session
transition admin_down remote s = s
transition down admin_down s = s
transition local admin_down s =
    record (move down (record s { local_diag = neighbor_signal_down })) {
      desired_min_tx_interval = slow_tx_interval;
    }
transition down down s = move init s
transition down init s = go_up s
transition down up s = s
transition init down s = s
transition init init s = go_up s
transition init up s = go_up s
transition up down s = move down (record s { local_diag = neighbor_signal_down })
transition up init s = s
transition up up s = s

unfoldable pub end_poll : Session → Session
end_poll s =
    let s1 = record s { poll_sequence = false } in
    let s2 =
      if ltb 0 s.final_async_tx_interval
      then record s1 { async_tx_interval = s.final_async_tx_interval; final_async_tx_interval = 0 }
      else s1 in
    if ltb 0 s.final_async_detect_time
    then record s2 { async_detect_time = s.final_async_detect_time; final_async_detect_time = 0 }
    else s2

abbrev pub is_admin_down : BfdState → Bool
is_admin_down admin_down = true
is_admin_down _ = false

-- From the branches on the states to the end; `now` is the time in milliseconds.
unfoldable pub react : ℕ → Bool → Packet → Session → Session
react now net p s =
    let s1 = transition s.state p.state s in
    let s2 = if p.poll then tx_packet net true s1 else s1 in
    let s3 = if p.final then end_poll s2 else s2 in record s3 { last_rx_packet_time = now }

unfoldable pub rx_packet : ℕ → Bool → Packet → Session → Session
rx_packet now net p s =
    if is_refused p s
    then s
    else let s1 = learn p s in if is_admin_down s1.state then s1 else react now net p s1
