-- ===== src/Bfd/Lifecycle/Detection.antt =====
-- The detection of failures (DetectFailure of pkg/bfd/session.go).
use cloudgw.Bfd.Packet.{time_expired, down, up, BfdState}
use cloudgw.Bfd.Session.{Session, set_desired_min_tx_interval}
use cloudgw.Bfd.Receive.States.{callbacks}
use cloudgw.Bfd.Lifecycle.{is_expired, close_done, detect_failure, take_down}
use mathlib.Core.Bool.{false≢true}
use cloudgw.Prelude.{
  Outcome, arith, false, ok, panic, true, ℕ, ◌∷◌, ◌≡◌, ◌⊎◌, ◌∙◌, refl, ap, Bool-cases, sym, inr,
  ◌/◌, ◌≢◌, ◌<◌, ◌+◌, inl,
}

-- The last packet is too old: without demand mode, the session is up, its detection time is not 0,
-- and more milliseconds than the whole ones of the detection time have passed since that packet.
abbrev pub IsLate : ℕ → Session → Type 0
IsLate now s =
    (s.demand_mode ≡ false)
    × (s.async_detect_time ≢ 0)
    × (s.state ≡ up)
    × (s.last_rx_packet_time + s.async_detect_time / 1000 < now)

is_expired-IsLate : (now : ℕ) (s : Session) → is_expired now s ≡ true → IsLate now s
unfolding is_expired
is_expired-IsLate now s h = (ground arith, ground arith, ground arith, ground arith)

IsLate-is_expired : (now : ℕ) (s : Session) → IsLate now s → is_expired now s ≡ true
unfolding is_expired
IsLate-is_expired now s (d, t, u, h) = ground arith

-- What a round of the detection does: nothing; or it takes the session down, once; or it panics,
-- if it has taken the session down before.
abbrev pub Detects : ℕ → Session → Outcome Session → Type 0
Detects now s panic = IsLate now s × (s.done ≡ true)
Detects now s (ok t) =
    (¬ IsLate now s × (t ≡ s))
    ⊎ (IsLate now s
        × (s.done ≡ false)
        × (t.state ≡ down)
        × (t.local_diag ≡ time_expired)
        × (t.done ≡ true)
        × (callbacks t.events ≡ (up, down) ∷ callbacks s.events))

take_down_lem :
    (s : Session)
    → ((take_down s).state ≡ down)
      × ((take_down s).local_diag ≡ time_expired)
      × ((take_down s).done ≡ s.done)
      × (callbacks (take_down s).events ≡ (s.state, down) ∷ callbacks s.events)
unfolding take_down set_desired_min_tx_interval
take_down_lem s = (ground arith, ground arith, ground arith, ground arith)

close_done-Detects :
    (now : ℕ) (s : Session) → is_expired now s ≡ true → Detects now s (close_done (take_down s))
unfolding close_done
close_done-Detects now s h =
    let t = take_down_lem s in
    elim (Bool-cases (take_down s).done) [
      | inl d ↦ rw (d, close_done) (is_expired-IsLate now s h, sym t.2 ∙ d)
      | inr d ↦
          rw (d, close_done)
            (inr (
              is_expired-IsLate now s h,
              sym t.2 ∙ d,
              t.0,
              t.1,
              refl,
              t.3
                  ∙ ap (λ (x : BfdState). (x, down) ∷ callbacks s.events)
                      (is_expired-IsLate now s h).2,
            ))
    ]

-- A round of the detection leaves the session alone where the last packet is not too old: where
-- demand mode is on, the detection time is 0, the session is not up, or no more milliseconds than
-- the whole ones of the detection time have passed since that packet. Else the session goes down,
-- the callback reports the change from up once, the diagnostic says that the time expired, and the
-- channel to the gateway is closed; if that channel was closed before, the round panics.
pub detect_failure-Detects : (now : ℕ) (s : Session) → Detects now s (detect_failure now s)
unfolding detect_failure
detect_failure-Detects now s = elim (Bool-cases (is_expired now s)) [
  | inl e ↦ rw (e, detect_failure) (close_done-Detects now s e)
  | inr e ↦ rw (e, detect_failure) (inl (λ k. false≢true (sym e ∙ IsLate-is_expired now s k), refl))
]
