-- ===== src/Bfd/Receive/Timers.antt =====
-- The detection time that a session keeps (pkg/bfd/session.go) against RFC 5880, 6.8.4.
use cloudgw.Bfd.Packet.{Packet, BfdState, admin_down, init, up, down}
use cloudgw.Bfd.Session.{
  Session, set_remote_detect_mult, close_conn, set_remote_min_rx_interval,
  set_remote_min_tx_interval, calc_detect_time, set_desired_min_tx_interval,
}
use cloudgw.Bfd.Receive.{
  rx_packet, go_up, tx_packet, learn, is_admin_down, react, move, transition, u32,
}
use cloudgw.Bfd.Receive.States.{is_refused_iff}
use cloudgw.Prelude.{
  Bool, Bool-cases, arith, false, if◌then◌else◌, inl, inr, ltb, refl, true, ℕ, ◌*◌, ◌∙◌, ◌≡◌, ◌≢◌,
}

abbrev larger : ℕ → ℕ → ℕ
larger a b = if ltb b a then a else b

-- The time by the RFC: the multiplier of the peer times the larger of what the session requires
-- and what the peer wants to send, as a uint32.
abbrev pub rfc_detect_time : Packet → Session → ℕ
rfc_detect_time p s =
    u32 (p.detect_multiplier * larger s.required_min_rx_interval p.desired_min_tx_interval)

-- The fields that the detection time is computed from.
abbrev Inputs : Session → Session → Type 0
Inputs s t =
    (t.required_min_rx_interval ≡ s.required_min_rx_interval)
    × (t.remote_min_tx_interval ≡ s.remote_min_tx_interval)

set_remote_min_rx_interval-Inputs :
    (v : ℕ) (s : Session) → Inputs s (set_remote_min_rx_interval v s)
unfolding set_remote_min_rx_interval close_conn
set_remote_min_rx_interval-Inputs v s = (ground arith, ground arith)

set_remote_detect_mult-Inputs :
    (v : ℕ) (s : Session)
    → Inputs s (set_remote_detect_mult v s) × ((set_remote_detect_mult v s).remote_detect_mult ≡ v)
unfolding set_remote_detect_mult
set_remote_detect_mult-Inputs v s = ((ground arith, ground arith), ground arith)

set_remote_min_tx_interval-time :
    (v : ℕ) (s : Session)
    → s.remote_min_tx_interval ≡ 0
    → v ≢ 0
    → (set_remote_min_tx_interval v s).async_detect_time
      ≡ u32 (s.remote_detect_mult * larger s.required_min_rx_interval v)
unfolding set_remote_min_tx_interval calc_detect_time
set_remote_min_tx_interval-time v s h n = ground arith

learn-time :
    (p : Packet) (s : Session)
    → s.remote_min_tx_interval ≡ 0
    → p.desired_min_tx_interval ≢ 0
    → (learn p s).async_detect_time ≡ rfc_detect_time p s
unfolding learn
learn-time p s h n =
    let s1 = record s {
      remote_discr = p.my_discriminator;
      remote_state = p.state;
      remote_demand_mode = p.demand;
    } in
    let s2 = set_remote_min_rx_interval p.required_min_rx_interval s1 in
    let a = set_remote_min_rx_interval-Inputs p.required_min_rx_interval s1 in
    let b = set_remote_detect_mult-Inputs p.detect_multiplier s2 in
    set_remote_min_tx_interval-time p.desired_min_tx_interval
      (set_remote_detect_mult p.detect_multiplier s2) (b.0.1 ∙ a.1 ∙ h) n
    ∙ rw (b.1, b.0.0, a.0) refl

-- A method that keeps the detection time.
abbrev KeepsTime : Session → Session → Type 0
KeepsTime s t = t.async_detect_time ≡ s.async_detect_time

set_desired_min_tx_interval-time :
    (v : ℕ) (s : Session) → KeepsTime s (set_desired_min_tx_interval v s)
unfolding set_desired_min_tx_interval
set_desired_min_tx_interval-time v s = ground arith

go_up-time : (s : Session) → KeepsTime s (go_up s)
unfolding go_up
go_up-time s = set_desired_min_tx_interval-time (u32 s.tx_interval) (move up s)

transition-time : (local remote : BfdState) (s : Session) → KeepsTime s (transition local remote s)
unfolding transition
transition-time admin_down remote s = refl
transition-time down admin_down s = refl
transition-time down down s = refl
transition-time down init s = go_up-time s
transition-time down up s = refl
transition-time init admin_down s = refl
transition-time init down s = refl
transition-time init init s = go_up-time s
transition-time init up s = go_up-time s
transition-time up admin_down s = refl
transition-time up down s = refl
transition-time up init s = refl
transition-time up up s = refl

tx_packet-time : (net final : Bool) (s : Session) → KeepsTime s (tx_packet net final s)
unfolding tx_packet close_conn
tx_packet-time net final s = ground arith

react-time :
    (now : ℕ) (net : Bool) (p : Packet) (s : Session)
    → p.final ≡ false
    → KeepsTime s (react now net p s)
unfolding react
react-time now net p s h = rw (h, react) (answer p.poll ∙ transition-time s.state p.state s)
  where
    answer :
        (b : Bool)
        → KeepsTime (transition s.state p.state s) (
            if b
            then tx_packet net true (transition s.state p.state s)
            else transition s.state p.state s)
    answer true = tx_packet-time net true (transition s.state p.state s)
    answer false = refl

-- After a packet with the session's use of authentication, that is no answer to a poll and whose
-- sender wants to send at all, the detection time is that of the RFC, modulo 2^32, provided that the
-- session's field for the peer's interval is 0.
pub rx_packet-detect_time :
    (now : ℕ) (net : Bool) (p : Packet) (s : Session)
    → p.auth_present ≡ s.auth_type
    → s.remote_min_tx_interval ≡ 0
    → p.desired_min_tx_interval ≢ 0
    → p.final ≡ false
    → (rx_packet now net p s).async_detect_time ≡ rfc_detect_time p s
unfolding rx_packet
rx_packet-detect_time now net p s a h n f = elim (Bool-cases (is_admin_down (learn p s).state)) [
  | inl e ↦ rw ((is_refused_iff p s).1 a, e, rx_packet) (learn-time p s h n)
  | inr e ↦
      rw ((is_refused_iff p s).1 a, e, rx_packet)
        (react-time now net p (learn p s) f ∙ learn-time p s h n)
]
