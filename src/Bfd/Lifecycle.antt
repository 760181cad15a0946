-- ===== src/Bfd/Lifecycle.antt =====
-- The life of a session (NewSession, sessionLoop and DetectFailure of pkg/bfd/session.go). The two
-- loops run as goroutines; here each round is a function, and a process interleaves them with the
-- reception of packets. The jitter of the intervals is not modelled: rounds come at any time.
pub mod Invariant
pub mod Detection
pub mod Lost
use cloudgw.Bfd.Packet.{Packet, time_expired, diag_none, down}
use cloudgw.Bfd.Session.{
  Session, is_up, slow_tx_interval, set_desired_min_tx_interval, emit, close_conn,
  default_detect_multiplier, u32, done_closed, set_required_min_rx_interval,
}
use cloudgw.Bfd.Receive.{rx_packet, tx_packet, move}
use cloudgw.Prelude.{
  Bool, Outcome, String, [], false, if◌then◌else◌, ltb, ok, panic, true, ℕ, ◌%◌, ◌&&◌, ◌+◌, ◌/◌,
  ◌==◌, ◌^◌, ◌||◌, ◌≡◌, not, nat_Eq,
}

pub record SessionArgs : Type 0 where
  pub local_ip : String
  pub remote_ip : String
  pub family : ℕ
  pub passive : Bool
  pub rx_interval : ℕ
  pub tx_interval : ℕ
  pub detect_mult : ℕ

-- The struct literal; `discr` and `seq` are the two draws of rand.Int32, and the connection is the
-- one that sessionLoop opens before its first round.
unfoldable pub session_literal : SessionArgs → ℕ → ℕ → Session
session_literal a discr seq = record {
  local_ip = a.local_ip;
  remote_ip = a.remote_ip;
  family = a.family;
  passive = a.passive;
  rx_interval = a.rx_interval;
  tx_interval = a.tx_interval;
  state = down;
  remote_state = down;
  local_discr = discr;
  remote_discr = 0;
  local_diag = diag_none;
  desired_min_tx_interval = slow_tx_interval;
  required_min_rx_interval = u32 a.rx_interval;
  remote_min_rx_interval = 1;
  demand_mode = false;
  remote_demand_mode = false;
  detect_mult = (if a.detect_mult == 0 then default_detect_multiplier else a.detect_mult) % 2 ^ 8;
  auth_type = false;
  rcv_auth_seq = 0;
  xmit_auth_seq = seq;
  auth_seq_known = false;
  async_tx_interval = slow_tx_interval;
  final_async_tx_interval = 0;
  last_rx_packet_time = 0;
  async_detect_time = 0;
  final_async_detect_time = 0;
  poll_sequence = false;
  remote_detect_mult = 0;
  remote_min_tx_interval = 0;
  conn_open = true;
  client_down = false;
  done = false;
  events = [];
}

unfoldable pub new_session : SessionArgs → ℕ → ℕ → Session
unfolding session_literal set_desired_min_tx_interval set_required_min_rx_interval
new_session a discr seq =
    set_required_min_rx_interval (u32 a.rx_interval)
      (set_desired_min_tx_interval slow_tx_interval (session_literal a discr seq))

-- `close(chBFDDone)`: closing twice panics.
unfoldable pub close_done : Session → Outcome Session
close_done s = if s.done then panic else ok (emit done_closed (record s { done = true }))

-- The session is up, and the last packet is older than the detection time, in milliseconds.
unfoldable pub is_expired : ℕ → Session → Bool
is_expired now s =
    not (s.demand_mode || s.async_detect_time == 0)
    && (is_up s.state && ltb (s.last_rx_packet_time + s.async_detect_time / 1000) now)

unfoldable pub take_down : Session → Session
take_down s =
    set_desired_min_tx_interval slow_tx_interval
      (record (move down s) { local_diag = time_expired })

-- A round of DetectFailure in its default branch.
unfoldable pub detect_failure : ℕ → Session → Outcome Session
detect_failure now s = if is_expired now s then close_done (take_down s) else ok s

-- The test before a periodic packet.
unfoldable pub may_send : Session → Bool
may_send s = not (
    s.remote_discr == 0 && s.passive
    || s.remote_min_rx_interval == 0
    || not s.poll_sequence && (s.remote_demand_mode && is_up s.state && is_up s.remote_state))

-- A session with its two goroutines, and the variable isBdfSessionStarted.
pub record Process : Type 0 where
  pub session : Session
  pub started : Bool
  pub looping : Bool
  pub detecting : Bool

-- `if !isBdfSessionStarted { go s.DetectFailure(…); isBdfSessionStarted = true }`
unfoldable pub start_detection : Process → Process
start_detection q = if q.started then q else record q { detecting = true; started = true }

-- The case of a closed channel clientDown; `dialed` says whether NewClient succeeded.
unfoldable pub on_client_down : Bool → Process → Process
on_client_down dialed q =
    if dialed
    then start_detection
        (record q { session = record q.session { conn_open = true; client_down = false } })
    else record q { session = close_conn q.session }

-- The case of a value on clientQuit.
unfoldable pub on_client_quit : Process → Process
on_client_quit q = record q { session = close_conn q.session; looping = false }

-- The default case.
unfoldable pub on_tick : Bool → Process → Process
on_tick net q =
    start_detection (record q {
      session = if may_send q.session then tx_packet net false q.session else q.session;
    })

-- Steps of the process: the environment chooses packets, times and which goroutine runs.
pub data Step : Process → Process → Type 0 where
  receives :
      (now : ℕ) (net : Bool) (p : Packet) (q : Process)
      → Step q (record q { session = rx_packet now net p q.session })
  redials :
      (dialed : Bool) (q : Process)
      → q.looping ≡ true
      → q.session.client_down ≡ true
      → Step q (on_client_down dialed q)
  quits : (q : Process) → q.looping ≡ true → Step q (on_client_quit q)
  ticks :
      (net : Bool) (q : Process)
      → q.looping ≡ true
      → q.session.client_down ≡ false
      → Step q (on_tick net q)
  detects :
      (now : ℕ) (q : Process) (s : Session)
      → q.detecting ≡ true
      → q.session.client_down ≡ false
      → detect_failure now q.session ≡ ok s
      → Step q (record q { session = s })
  stops :
      (q : Process)
      → q.detecting ≡ true
      → q.session.client_down ≡ true
      → Step q (record q { detecting = false })

pub data Reach (a : Process) : Process → Type 0 where
  here : Reach a a
  next : {q r : Process} → Reach a q → Step q r → Reach a r

unfoldable pub init_process : Session → Process
init_process s = record { session = s; started = false; looping = true; detecting = false }
