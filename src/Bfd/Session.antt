-- ===== src/Bfd/Session.antt =====
-- A BFD session (pkg/bfd/session.go): its state, the setters, reception, transmission and the
-- detection of failures. Every method returns the new session. What a method does outside (the
-- callback, a packet, a closed connection) is appended to `events`, the newest first. Intervals
-- are uint32 microseconds, and an `int` of the configuration is taken as not negative.
use cloudgw.Bfd.Packet.{Packet, Diagnostic, up, BfdState, down}
use cloudgw.Prelude.{
  Bool, List, String, false, if◌then◌else◌, ltb, true, ℕ, ◌%◌, ◌&&◌, ◌*◌, ◌==◌, ◌^◌, ◌∷◌, nat_Eq,
}

pub data Event : Type 0 where
  callback : BfdState → BfdState → Event
  sent : Packet → Event
  conn_closed done_closed : Event

pub record Session : Type 0 where
  pub local_ip : String
  pub remote_ip : String
  pub family : ℕ
  pub passive : Bool
  pub rx_interval : ℕ
  pub tx_interval : ℕ
  pub state : BfdState
  pub remote_state : BfdState
  pub local_discr : ℕ
  pub remote_discr : ℕ
  pub local_diag : Diagnostic
  pub desired_min_tx_interval : ℕ
  pub required_min_rx_interval : ℕ
  pub remote_min_rx_interval : ℕ
  pub demand_mode : Bool
  pub remote_demand_mode : Bool
  pub detect_mult : ℕ
  pub auth_type : Bool
  pub rcv_auth_seq : ℕ
  pub xmit_auth_seq : ℕ
  pub auth_seq_known : Bool
  pub async_tx_interval : ℕ
  pub final_async_tx_interval : ℕ
  pub last_rx_packet_time : ℕ
  pub async_detect_time : ℕ
  pub final_async_detect_time : ℕ
  pub poll_sequence : Bool
  pub remote_detect_mult : ℕ
  pub remote_min_tx_interval : ℕ
  -- the connection, and the channels `clientDown` and `chBFDDone`
  pub conn_open : Bool
  pub client_down : Bool
  pub done : Bool
  pub events : List Event

abbrev pub default_detect_multiplier : ℕ
default_detect_multiplier = 3

-- DesiredMinTXInterval, one second
abbrev pub slow_tx_interval : ℕ
slow_tx_interval = 1000000

abbrev pub u32 : ℕ → ℕ
u32 n = n % 2 ^ 32

abbrev pub is_down : BfdState → Bool
is_down down = true
is_down _ = false

abbrev pub is_up : BfdState → Bool
is_up up = true
is_up _ = false

abbrev pub emit : Event → Session → Session
emit e s = record s { events = e ∷ s.events }

-- The second close of `clientDown` panics, and the deferred recover drops that.
unfoldable pub close_conn : Session → Session
close_conn s = emit conn_closed (record s { conn_open = false; client_down = true })

unfoldable pub calc_detect_time : ℕ → ℕ → ℕ → ℕ
calc_detect_time detect_mult rx_interval tx_interval =
    if detect_mult == 0 && rx_interval == 0 && tx_interval == 0
    then 0
    else if ltb tx_interval rx_interval
    then u32 (detect_mult * rx_interval)
    else u32 (detect_mult * tx_interval)

unfoldable pub set_remote_detect_mult : ℕ → Session → Session
unfolding calc_detect_time
set_remote_detect_mult v s = if v == s.remote_detect_mult then s else record s {
  async_detect_time = calc_detect_time v s.required_min_rx_interval s.remote_detect_mult;
  remote_detect_mult = v;
}

unfoldable pub set_remote_min_tx_interval : ℕ → Session → Session
unfolding calc_detect_time
set_remote_min_tx_interval v s = if v == s.remote_min_tx_interval then s else record s {
  async_detect_time = calc_detect_time s.remote_detect_mult s.required_min_rx_interval v;
  remote_min_rx_interval = v;
}

unfoldable pub set_remote_min_rx_interval : ℕ → Session → Session
unfolding close_conn
set_remote_min_rx_interval v s =
    if v == s.remote_min_rx_interval
    then s
    else let tx = if ltb s.desired_min_tx_interval v then v else s.desired_min_tx_interval in
      let s1 = record s { async_tx_interval = tx } in
      let s2 = if ltb tx s.async_tx_interval then close_conn s1 else s1 in
      record s2 { remote_min_rx_interval = v }

unfoldable pub set_required_min_rx_interval : ℕ → Session → Session
unfolding calc_detect_time
set_required_min_rx_interval v s =
    if v == s.required_min_rx_interval
    then s
    else let time = calc_detect_time s.remote_detect_mult v s.remote_min_rx_interval in
      let s1 =
        if ltb v s.required_min_rx_interval && is_up s.state
        then record s { final_async_detect_time = time }
        else record s { async_detect_time = time } in
      record s1 { required_min_rx_interval = v; poll_sequence = true }

unfoldable pub set_desired_min_tx_interval : ℕ → Session → Session
set_desired_min_tx_interval v s =
    if v == s.desired_min_tx_interval
    then s
    else let tx = if ltb s.remote_min_rx_interval v then v else s.remote_min_rx_interval in
      let s1 =
        if ltb s.desired_min_tx_interval v && is_up s.state
        then record s { final_async_detect_time = tx }
        else record s { async_tx_interval = v } in
      record s1 { desired_min_tx_interval = v; poll_sequence = true }
