-- ===== src/Bfd/Lifecycle/Invariant.antt =====
-- What holds of a session and its goroutines at all times (pkg/bfd/session.go).
use cloudgw.Bfd.Packet.{down, time_expired}
use cloudgw.Bfd.Session.{Session, u32, slow_tx_interval, emit, done_closed}
use cloudgw.Bfd.Receive.Dead.{
  IsDead, close_conn-IsDead, rx_packet-IsDead, if-IsDead, set_desired_min_tx_interval-IsDead,
  tx_packet-IsDead, set_required_min_rx_interval-IsDead, move-IsDead, diag-IsDead,
}
use cloudgw.Bfd.Lifecycle.{
  Process, start_detection, quits, close_done, detect_failure, init_process, next, on_client_down,
  on_client_quit, SessionArgs, new_session, may_send, session_literal, here, on_tick, Step, Reach,
  ticks, detects, take_down, is_expired, receives, redials, stops,
}
use cloudgw.Prelude.{
  arith, false, inl, inr, ok, refl, true, ℕ, ◌≡◌, sym, ok-injective, ◌⊎◌, if◌then◌else◌, Bool,
  panic, Outcome,
}

session_literal-IsDead : (a : SessionArgs) (discr seq : ℕ) → IsDead (session_literal a discr seq)
unfolding session_literal
session_literal-IsDead a discr seq = ground arith

pub new_session-IsDead : (a : SessionArgs) (discr seq : ℕ) → IsDead (new_session a discr seq)
unfolding new_session
new_session-IsDead a discr seq =
    set_required_min_rx_interval-IsDead
      (set_desired_min_tx_interval-IsDead (session_literal-IsDead a discr seq) slow_tx_interval)
      (u32 a.rx_interval)

-- The fields of the session that nothing changes, and a detection that runs was started.
pub record IsSound (q : Process) : Type 0 where
  pub dead : IsDead q.session
  pub known : q.detecting ≡ true → q.started ≡ true

start_lem :
    (b : Bool) {q : Process}
    → q.started ≡ b
    → IsSound q
    → IsSound (if b then q else record q { detecting = true; started = true })
start_lem true e h = h
start_lem false e h = record { dead = h.dead; known = λ _. refl }

start_detection-IsSound : {q : Process} → IsSound q → IsSound (start_detection q)
unfolding start_detection
start_detection-IsSound {q} h = start_lem q.started refl h

take_down-IsDead : {s : Session} → IsDead s → IsDead (take_down s)
unfolding take_down
take_down-IsDead h =
    set_desired_min_tx_interval-IsDead (diag-IsDead (move-IsDead h down) time_expired)
      slow_tx_interval

closed_inv : (b : Bool) {u t : Session} → (if b then panic else ok u) ≡ ok t → t ≡ u
closed_inv true e = cc
closed_inv false e = sym (ok-injective e)

round_inv :
    (b : Bool) {s u t : Session} {o : Outcome Session}
    → (o ≡ ok t → t ≡ u)
    → (if b then o else ok s) ≡ ok t
    → (t ≡ s) ⊎ (t ≡ u)
round_inv true k e = inr (k e)
round_inv false k e = inl (sym (ok-injective e))

-- A round of the detection ends in the session as it was or in one that was taken down.
pub detect_failure-inv :
    (now : ℕ) (s t : Session)
    → detect_failure now s ≡ ok t
    → (t ≡ s) ⊎ (t ≡ emit done_closed (record (take_down s) { done = true }))
unfolding detect_failure close_done
detect_failure-inv now s t e = round_inv (is_expired now s) (closed_inv (take_down s).done) e

detect_failure-IsDead :
    (now : ℕ) (s t : Session) → IsDead s → detect_failure now s ≡ ok t → IsDead t
detect_failure-IsDead now s t h e = elim (detect_failure-inv now s t e) [
  | inl same ↦ rw same h
  | inr failed ↦
      let k = take_down-IsDead h in
      rw failed (record {
        no_remote_tx = k.no_remote_tx;
        no_final_tx = k.no_final_tx;
        no_demand = k.no_demand;
        no_auth = k.no_auth;
      })
]

Step-IsSound : {q r : Process} → Step q r → IsSound q → IsSound r
unfolding on_client_down on_client_quit on_tick
Step-IsSound (receives now net p q) h = record {
  dead = rx_packet-IsDead now net p h.dead;
  known = h.known;
}
Step-IsSound (redials true q l c) h =
    start_detection-IsSound (record { dead = ground (arith, h.dead); known = h.known })
Step-IsSound (redials false q l c) h = record { dead = close_conn-IsDead h.dead; known = h.known }
Step-IsSound (quits q l) h = record { dead = close_conn-IsDead h.dead; known = h.known }
Step-IsSound (ticks net q l c) h = start_detection-IsSound (record {
  dead = if-IsDead (may_send q.session) (tx_packet-IsDead h.dead net false) h.dead;
  known = h.known;
})
Step-IsSound (detects now q s d c e) h = record {
  dead = detect_failure-IsDead now q.session s h.dead e;
  known = h.known;
}
Step-IsSound (stops q d c) h = record { dead = h.dead; known = λ e. cc }

Reach-IsSound : {a q : Process} → IsSound a → Reach a q → IsSound q
Reach-IsSound h here = h
Reach-IsSound h (next r st) = Step-IsSound st (Reach-IsSound h r)

-- In every state that a new session can reach, whatever packets arrive and however its goroutines
-- run, the peer's transmission interval is unset, no interval waits for the end of a poll sequence,
-- demand mode and authentication are off, and detection runs only if it was started.
pub new_session-IsSound :
    (a : SessionArgs) (discr seq : ℕ) {q : Process}
    → Reach (init_process (new_session a discr seq)) q
    → IsSound q
unfolding init_process
new_session-IsSound a discr seq r =
    Reach-IsSound (record { dead = new_session-IsDead a discr seq; known = λ e. cc }) r
