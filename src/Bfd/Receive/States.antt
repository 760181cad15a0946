-- ===== src/Bfd/Receive/States.antt =====
-- The state machine of a session (RxPacket of pkg/bfd/session.go) against RFC 5880, 6.8.6.
use cloudgw.Bfd.Packet.{Packet, down, admin_down, up, BfdState, init}
use cloudgw.Bfd.Session.{
  Session, conn_closed, callback, Event, set_remote_min_rx_interval, done_closed, sent, u32,
  set_remote_detect_mult, set_desired_min_tx_interval, close_conn, set_remote_min_tx_interval,
}
use cloudgw.Bfd.Receive.{
  rx_packet, transition, end_poll, learn, tx_packet, react, is_refused, move, go_up, is_admin_down,
}
use cloudgw.Prelude.{
  Bool, List, [], arith, refl, ℕ, ◌∷◌, ◌≡◌, false, true, if◌then◌else◌, ◌∙◌, ap, inl, inr,
  Bool-cases, ◌↔◌,
}

-- The next state by the RFC: the local state, then the received one.
unfoldable pub rfc_state : BfdState → BfdState → BfdState
rfc_state admin_down remote = admin_down
rfc_state local admin_down = down
rfc_state down down = init
rfc_state down init = up
rfc_state down up = down
rfc_state init down = init
rfc_state init init = up
rfc_state init up = up
rfc_state up down = down
rfc_state up init = up
rfc_state up up = up

-- The callbacks among the events.
abbrev pub callbacks : List Event → List (BfdState × BfdState)
callbacks [] = []
callbacks (callback a b ∷ es) = (a, b) ∷ callbacks es
callbacks (sent p ∷ es) = callbacks es
callbacks (conn_closed ∷ es) = callbacks es
callbacks (done_closed ∷ es) = callbacks es

-- A report of the change from one state to another, and none where they are the same.
unfoldable pub reported :
    BfdState → BfdState → List (BfdState × BfdState) → List (BfdState × BfdState)
reported admin_down admin_down rest = rest
reported down down rest = rest
reported init init rest = rest
reported up up rest = rest
reported a b rest = (a, b) ∷ rest

-- A method that changes neither the state nor what was reported.
abbrev pub Frames : Session → Session → Type 0
Frames s t = (t.state ≡ s.state) × (callbacks t.events ≡ callbacks s.events)

Frames-trans : (s t u : Session) → Frames s t → Frames t u → Frames s u
Frames-trans s t u a b = (b.0 ∙ a.0, b.1 ∙ a.1)

set_remote_min_rx_interval_frame : (v : ℕ) (s : Session) → Frames s (set_remote_min_rx_interval v s)
unfolding set_remote_min_rx_interval
set_remote_min_rx_interval_frame v s = (ground arith, ground arith)

set_remote_detect_mult_frame : (v : ℕ) (s : Session) → Frames s (set_remote_detect_mult v s)
unfolding set_remote_detect_mult
set_remote_detect_mult_frame v s = (ground arith, ground arith)

set_remote_min_tx_interval_frame : (v : ℕ) (s : Session) → Frames s (set_remote_min_tx_interval v s)
unfolding set_remote_min_tx_interval
set_remote_min_tx_interval_frame v s = (ground arith, ground arith)

set_desired_min_tx_interval_frame :
    (v : ℕ) (s : Session) → Frames s (set_desired_min_tx_interval v s)
unfolding set_desired_min_tx_interval
set_desired_min_tx_interval_frame v s = (ground arith, ground arith)

pub learn_frame : (p : Packet) (s : Session) → Frames s (learn p s)
unfolding learn
learn_frame p s =
    let a = set_remote_min_rx_interval_frame p.required_min_rx_interval (record s {
      remote_discr = p.my_discriminator;
      remote_state = p.state;
      remote_demand_mode = p.demand;
    }) in
    let b = set_remote_detect_mult_frame p.detect_multiplier _ in
    let c = set_remote_min_tx_interval_frame p.desired_min_tx_interval _ in
    (c.0 ∙ b.0 ∙ a.0, c.1 ∙ b.1 ∙ a.1)

tx_packet_frame : (net final : Bool) (s : Session) → Frames s (tx_packet net final s)
unfolding tx_packet close_conn
tx_packet_frame net final s = (ground arith, ground arith)

end_poll_frame : (s : Session) → Frames s (end_poll s)
unfolding end_poll
end_poll_frame s = (ground arith, ground arith)

-- A step of the state machine reaches the state and reports the change.
abbrev pub Reaches : BfdState → Session → Session → Type 0
Reaches to s t = (t.state ≡ to) × (callbacks t.events ≡ reported s.state to (callbacks s.events))

go_up_frame :
    (s : Session)
    → ((go_up s).state ≡ up) × (callbacks (go_up s).events ≡ (s.state, up) ∷ callbacks s.events)
unfolding go_up
go_up_frame s = set_desired_min_tx_interval_frame (u32 s.tx_interval) (move up s)

transition_lem :
    (local remote : BfdState) (s : Session)
    → s.state ≡ local
    → Reaches (rfc_state local remote) s (transition local remote s)
unfolding transition rfc_state reported
transition_lem admin_down remote s h = (h, rw h refl)
transition_lem down admin_down s h = (h, rw h refl)
transition_lem down down s h = (refl, rw h refl)
transition_lem down init s h = ((go_up_frame s).0, (go_up_frame s).1 ∙ rw h refl)
transition_lem down up s h = (h, rw h refl)
transition_lem init admin_down s h = (refl, rw h refl)
transition_lem init down s h = (h, rw h refl)
transition_lem init init s h = ((go_up_frame s).0, (go_up_frame s).1 ∙ rw h refl)
transition_lem init up s h = ((go_up_frame s).0, (go_up_frame s).1 ∙ rw h refl)
transition_lem up admin_down s h = (refl, rw h refl)
transition_lem up down s h = (refl, rw h refl)
transition_lem up init s h = (h, rw h refl)
transition_lem up up s h = (h, rw h refl)

answer_poll_frame : (b net : Bool) (s : Session) → Frames s (if b then tx_packet net true s else s)
answer_poll_frame true net s = tx_packet_frame net true s
answer_poll_frame false net s = (refl, refl)

finish_poll_frame : (b : Bool) (s : Session) → Frames s (if b then end_poll s else s)
finish_poll_frame true s = end_poll_frame s
finish_poll_frame false s = (refl, refl)

react_lem :
    (now : ℕ) (net : Bool) (p : Packet) (s : Session)
    → Reaches (rfc_state s.state p.state) s (react now net p s)
unfolding react
react_lem now net p s =
    let t = transition_lem s.state p.state s refl in
    let a = answer_poll_frame p.poll net (transition s.state p.state s) in
    let b = finish_poll_frame p.final _ in (b.0 ∙ a.0 ∙ t.0, b.1 ∙ a.1 ∙ t.1)

-- The session after the fields of the packet are taken over.
ignore_lem :
    (remote : BfdState) (s t : Session)
    → Frames s t
    → is_admin_down t.state ≡ true
    → Reaches (rfc_state s.state remote) s t
unfolding rfc_state reported
ignore_lem remote s t f h =
    let e : s.state ≡ admin_down = ground (arith, f.0) in rw (e, rfc_state, reported) (f.0 ∙ e, f.1)

go_on_lem :
    (remote : BfdState) (s t u : Session)
    → Frames s t
    → Reaches (rfc_state t.state remote) t u
    → Reaches (rfc_state s.state remote) s u
go_on_lem remote s t u f r =
    (r.0 ∙ ap (λ (x : BfdState). rfc_state x remote) f.0, rw (← f.0, ← f.1) r.1)

-- An accepted packet moves the session as RFC 5880 says, and the callback reports each change of
-- the state once, with the old and the new state, and nothing where the state stays.
pub rx_packet-Reaches :
    (now : ℕ) (net : Bool) (p : Packet) (s : Session)
    → is_refused p s ≡ false
    → Reaches (rfc_state s.state p.state) s (rx_packet now net p s)
unfolding rx_packet
rx_packet-Reaches now net p s h = elim (Bool-cases (is_admin_down (learn p s).state)) [
  | inl e ↦ rw (h, e, rx_packet) (ignore_lem p.state s (learn p s) (learn_frame p s) e)
  | inr e ↦
      rw (h, e, rx_packet)
        (go_on_lem p.state s (learn p s) (react now net p (learn p s)) (learn_frame p s)
          (react_lem now net p (learn p s)))
]

-- A packet is accepted exactly when its use of authentication is the session's: the third test
-- never decides.
pub is_refused_iff :
    (p : Packet) (s : Session) → (is_refused p s ≡ false) ↔ (p.auth_present ≡ s.auth_type)
unfolding is_refused
is_refused_iff p s = (ground arith, ground arith)
