-- ===== src/Bfd/Lifecycle/Lost.antt =====
-- How the detection of failures is lost: a redial does not start it again (sessionLoop and
-- DetectFailure of pkg/bfd/session.go).
use cloudgw.Bfd.Packet.{Packet, up, down, init, BfdState, admin_down}
use cloudgw.Bfd.Session.{
  Session, set_remote_detect_mult, set_desired_min_tx_interval, set_remote_min_rx_interval,
  close_conn, set_remote_min_tx_interval,
}
use cloudgw.Bfd.Receive.{
  rx_packet, react, is_admin_down, end_poll, tx_packet, transition, go_up, is_refused, learn,
}
use cloudgw.Bfd.Lifecycle.{
  Process, receives, on_client_down, Step, detects, ticks, redials, next, on_tick, stops, here,
  may_send, Reach, start_detection, on_client_quit, quits,
}
use cloudgw.Prelude.{Bool, arith, false, if◌then◌else◌, refl, sym, true, ℕ, ◌∙◌, ◌≡◌}
use mathlib.Core.Bool.{false≢true}

-- A method that leaves the channel to the gateway alone.
abbrev KeepsDone : Session → Session → Type 0
KeepsDone s t = t.done ≡ s.done

set_remote_min_rx_interval-done :
    (v : ℕ) (s : Session) → KeepsDone s (set_remote_min_rx_interval v s)
unfolding set_remote_min_rx_interval close_conn
set_remote_min_rx_interval-done v s = ground arith

set_remote_detect_mult-done : (v : ℕ) (s : Session) → KeepsDone s (set_remote_detect_mult v s)
unfolding set_remote_detect_mult
set_remote_detect_mult-done v s = ground arith

set_remote_min_tx_interval-done :
    (v : ℕ) (s : Session) → KeepsDone s (set_remote_min_tx_interval v s)
unfolding set_remote_min_tx_interval
set_remote_min_tx_interval-done v s = ground arith

learn-done : (p : Packet) (s : Session) → KeepsDone s (learn p s)
unfolding learn
learn-done p s =
    set_remote_min_tx_interval-done p.desired_min_tx_interval _
    ∙ set_remote_detect_mult-done p.detect_multiplier _
    ∙ set_remote_min_rx_interval-done p.required_min_rx_interval _

go_up-done : (s : Session) → KeepsDone s (go_up s)
unfolding go_up set_desired_min_tx_interval
go_up-done s = ground arith

transition-done : (local remote : BfdState) (s : Session) → KeepsDone s (transition local remote s)
unfolding transition
transition-done admin_down remote s = refl
transition-done down admin_down s = refl
transition-done down down s = refl
transition-done down init s = go_up-done s
transition-done down up s = refl
transition-done init admin_down s = refl
transition-done init down s = refl
transition-done init init s = go_up-done s
transition-done init up s = go_up-done s
transition-done up admin_down s = refl
transition-done up down s = refl
transition-done up init s = refl
transition-done up up s = refl

tx_packet-done : (net final : Bool) (s : Session) → KeepsDone s (tx_packet net final s)
unfolding tx_packet close_conn
tx_packet-done net final s = ground arith

end_poll-done : (s : Session) → KeepsDone s (end_poll s)
unfolding end_poll
end_poll-done s = ground arith

choose-done :
    (b : Bool) (a s t : Session) → KeepsDone a s → KeepsDone a t → KeepsDone a (if b then s else t)
choose-done true a s t h k = h
choose-done false a s t h k = k

react-done : (now : ℕ) (net : Bool) (p : Packet) (s : Session) → KeepsDone s (react now net p s)
unfolding react
react-done now net p s =
    let s1 = transition s.state p.state s in
    let a = transition-done s.state p.state s in
    let s2 = if p.poll then tx_packet net true s1 else s1 in
    let b = choose-done p.poll s (tx_packet net true s1) s1 (tx_packet-done net true s1 ∙ a) a in
    choose-done p.final s (end_poll s2) s2 (end_poll-done s2 ∙ b) b

rx_packet-done :
    (now : ℕ) (net : Bool) (p : Packet) (s : Session) → KeepsDone s (rx_packet now net p s)
unfolding rx_packet
rx_packet-done now net p s = choose-done (is_refused p s) s s _ refl (
    choose-done (is_admin_down (learn p s).state) s (learn p s) (react now net p (learn p s))
      (learn-done p s) (react-done now net p (learn p s) ∙ learn-done p s))

-- Detection was started and has ended.
pub record IsLost (q : Process) : Type 0 where
  pub was_started : q.started ≡ true
  pub not_detecting : q.detecting ≡ false

-- Steps keep that, and leave the channel to the gateway alone.
abbrev Stays : Process → Process → Type 0
Stays q r = (r.started ≡ true) × (r.detecting ≡ false) × (r.session.done ≡ q.session.done)

start_detection-Stays : (q r : Process) → Stays q r → Stays q (start_detection r)
unfolding start_detection
start_detection-Stays q r h = ground arith

Step-Stays : {q r : Process} → Step q r → IsLost q → Stays q r
unfolding on_client_down on_client_quit on_tick close_conn
Step-Stays (receives now net p q) h =
    (h.was_started, h.not_detecting, rx_packet-done now net p q.session)
Step-Stays (redials true q l c) h = start_detection-Stays q _ (h.was_started, h.not_detecting, refl)
Step-Stays (redials false q l c) h = (h.was_started, h.not_detecting, refl)
Step-Stays (quits q l) h = (h.was_started, h.not_detecting, refl)
Step-Stays (ticks net q l c) h = start_detection-Stays q _ (
  h.was_started,
  h.not_detecting,
  choose-done (may_send q.session) q.session (tx_packet net false q.session) q.session
      (tx_packet-done net false q.session) refl,
)
Step-Stays (detects now q s d c e) h = absurd (false≢true (sym h.not_detecting ∙ d))
Step-Stays (stops q d c) h = absurd (false≢true (sym h.not_detecting ∙ d))

-- Once the detection was started and has ended it never runs again, whatever packets arrive and
-- however often the connection is opened anew, and the channel that tells the gateway of a failure
-- stays open if it is open.
pub Reach-IsLost :
    {q r : Process} → IsLost q → Reach q r → IsLost r × (r.session.done ≡ q.session.done)
Reach-IsLost h here = (h, refl)
Reach-IsLost h (next r st) =
    let (l, d) = Reach-IsLost h r in
    let s = Step-Stays st l in (record { was_started = s.0; not_detecting = s.1 }, s.2 ∙ d)
