-- ===== src/Bfd/Receive/Dead.antt =====
-- Fields of a session that no method changes from their first values (pkg/bfd/session.go).
use cloudgw.Bfd.Packet.{Packet, up, BfdState, down, admin_down, init, Diagnostic}
use cloudgw.Bfd.Session.{
  Session, set_remote_detect_mult, set_required_min_rx_interval, set_remote_min_rx_interval, u32,
  close_conn, set_remote_min_tx_interval, set_desired_min_tx_interval,
}
use cloudgw.Bfd.Receive.{
  rx_packet, react, transition, is_admin_down, end_poll, move, learn, tx_packet, go_up, is_refused,
}
use cloudgw.Prelude.{Bool, arith, false, if◌then◌else◌, true, ℕ, ◌≡◌}

-- The peer's transmission interval, the interval after a poll sequence, demand mode and
-- authentication, as a new session has them.
pub record IsDead (s : Session) : Type 0 where
  pub no_remote_tx : s.remote_min_tx_interval ≡ 0
  pub no_final_tx : s.final_async_tx_interval ≡ 0
  pub no_demand : s.demand_mode ≡ false
  pub no_auth : s.auth_type ≡ false

module _ {s : Session} (h : IsDead s) where
  set_remote_min_rx_interval-IsDead : (v : ℕ) → IsDead (set_remote_min_rx_interval v s)
  unfolding set_remote_min_rx_interval close_conn
  set_remote_min_rx_interval-IsDead v = ground arith

  set_remote_detect_mult-IsDead : (v : ℕ) → IsDead (set_remote_detect_mult v s)
  unfolding set_remote_detect_mult
  set_remote_detect_mult-IsDead v = ground arith

  set_remote_min_tx_interval-IsDead : (v : ℕ) → IsDead (set_remote_min_tx_interval v s)
  unfolding set_remote_min_tx_interval
  set_remote_min_tx_interval-IsDead v = ground arith

  pub set_desired_min_tx_interval-IsDead : (v : ℕ) → IsDead (set_desired_min_tx_interval v s)
  unfolding set_desired_min_tx_interval
  set_desired_min_tx_interval-IsDead v = ground arith

  pub set_required_min_rx_interval-IsDead : (v : ℕ) → IsDead (set_required_min_rx_interval v s)
  unfolding set_required_min_rx_interval
  set_required_min_rx_interval-IsDead v = ground arith

  pub close_conn-IsDead : IsDead (close_conn s)
  unfolding close_conn
  close_conn-IsDead = ground arith

  pub move-IsDead : (to : BfdState) → IsDead (move to s)
  move-IsDead to = ground arith

  pub tx_packet-IsDead : (net final : Bool) → IsDead (tx_packet net final s)
  unfolding tx_packet close_conn
  tx_packet-IsDead net final = ground arith

  end_poll-IsDead : IsDead (end_poll s)
  unfolding end_poll
  end_poll-IsDead = ground arith

  pub diag-IsDead : (d : Diagnostic) → IsDead (record s { local_diag = d })
  diag-IsDead d = ground arith

learn-IsDead : {s : Session} (p : Packet) → IsDead s → IsDead (learn p s)
unfolding learn
learn-IsDead {s} p h =
    set_remote_min_tx_interval-IsDead
      (set_remote_detect_mult-IsDead
        (set_remote_min_rx_interval-IsDead
          (record {
            no_remote_tx = h.no_remote_tx;
            no_final_tx = h.no_final_tx;
            no_demand = h.no_demand;
            no_auth = h.no_auth;
          })
          p.required_min_rx_interval)
        p.detect_multiplier)
      p.desired_min_tx_interval

go_up-IsDead : {s : Session} → IsDead s → IsDead (go_up s)
unfolding go_up
go_up-IsDead {s} h = set_desired_min_tx_interval-IsDead (move-IsDead h up) (u32 s.tx_interval)

transition-IsDead :
    (local remote : BfdState) {s : Session} → IsDead s → IsDead (transition local remote s)
unfolding transition
transition-IsDead admin_down remote h = h
transition-IsDead down admin_down h = h
transition-IsDead down down h = ground arith
transition-IsDead down init h = go_up-IsDead h
transition-IsDead down up h = h
transition-IsDead init admin_down h = ground arith
transition-IsDead init down h = h
transition-IsDead init init h = go_up-IsDead h
transition-IsDead init up h = go_up-IsDead h
transition-IsDead up admin_down h = ground arith
transition-IsDead up down h = ground arith
transition-IsDead up init h = h
transition-IsDead up up h = h

pub if-IsDead : (b : Bool) {s t : Session} → IsDead s → IsDead t → IsDead (if b then s else t)
if-IsDead true h k = h
if-IsDead false h k = k

react-IsDead :
    (now : ℕ) (net : Bool) (p : Packet) {s : Session} → IsDead s → IsDead (react now net p s)
unfolding react
react-IsDead now net p {s} h =
    let a = transition-IsDead s.state p.state h in
    let b = if-IsDead p.poll (tx_packet-IsDead a net true) a in
    let c = if-IsDead p.final (end_poll-IsDead b) b in
    record {
      no_remote_tx = c.no_remote_tx;
      no_final_tx = c.no_final_tx;
      no_demand = c.no_demand;
      no_auth = c.no_auth;
    }

-- Reception keeps these fields.
pub rx_packet-IsDead :
    (now : ℕ) (net : Bool) (p : Packet) {s : Session} → IsDead s → IsDead (rx_packet now net p s)
unfolding rx_packet
rx_packet-IsDead now net p {s} h = if-IsDead (is_refused p s) h (
    if-IsDead (is_admin_down (learn p s).state) (learn-IsDead p h)
      (react-IsDead now net p (learn-IsDead p h)))
