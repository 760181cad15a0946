-- ===== src/Bfd/Receive/Handshake.antt =====
-- Two sessions that exchange packets, and what a sent packet satisfies (pkg/bfd/session.go,
-- pkg/bfd/packet.go).
use cloudgw.Bfd.Packet.{validate, validate_auth, same_bytes, up, down, init}
use cloudgw.Bfd.Session.{Session}
use cloudgw.Bfd.Receive.{rx_packet, control_packet, is_refused}
use cloudgw.Bfd.Receive.States.{rx_packet-Reaches, rfc_state}
use cloudgw.Bfd.Receive.Dead.{IsDead, rx_packet-IsDead}
use cloudgw.Prelude.{Bool, Bool-cases, arith, false, inl, inr, none, refl, ℕ, ◌≡◌, ◌∙◌, sym}

-- Every packet that a session sends passes the validation of the receiver, with authentication and
-- without.
pub validate-control_packet :
    (final : Bool) (s : Session) → validate (control_packet final s) ≡ none
unfolding validate control_packet validate_auth same_bytes
validate-control_packet final s = elim (Bool-cases s.auth_type) [
  | inl e ↦ rw e refl
  | inr e ↦ rw e refl
]

control_packet_accepted :
    (s t : Session) → s.auth_type ≡ t.auth_type → is_refused (control_packet false s) t ≡ false
unfolding control_packet is_refused
control_packet_accepted s t h = ground arith

-- The state of a session after it receives the other's periodic packet.
hears :
    (now : ℕ) (net : Bool) (s t : Session)
    → s.auth_type ≡ t.auth_type
    → (rx_packet now net (control_packet false s) t).state ≡ rfc_state t.state s.state
unfolding control_packet
hears now net s t h =
    (rx_packet-Reaches now net (control_packet false s) t (control_packet_accepted s t h)).0

-- Two sessions that are down, with authentication and demand mode off and no interval that waits for
-- a poll sequence, come up in three packets: the first packet takes its receiver to init,
-- the answer takes the first sender up, and its next packet takes the other up.
pub handshake :
    (n1 n2 n3 : ℕ) (net : Bool) (s t : Session)
    → IsDead s
    → IsDead t
    → s.state ≡ down
    → t.state ≡ down
    → let t1 = rx_packet n1 net (control_packet false s) t in
      let s1 = rx_packet n2 net (control_packet false t1) s in
      let t2 = rx_packet n3 net (control_packet false s1) t1 in
      (t1.state ≡ init) × (s1.state ≡ up) × (t2.state ≡ up)
unfolding rfc_state
handshake n1 n2 n3 net s t a b h k =
    let t1 = rx_packet n1 net (control_packet false s) t in
    let s1 = rx_packet n2 net (control_packet false t1) s in
    let a1 = rx_packet-IsDead n2 net (control_packet false t1) a in
    let b1 = rx_packet-IsDead n1 net (control_packet false s) b in
    let e1 : t1.state ≡ init = hears n1 net s t (a.no_auth ∙ sym b.no_auth) ∙ rw (h, k) refl in
    let e2 : s1.state ≡ up = hears n2 net t1 s (b1.no_auth ∙ sym a.no_auth) ∙ rw (e1, h) refl in
    let e3 = hears n3 net s1 t1 (a1.no_auth ∙ sym b1.no_auth) ∙ rw (e2, e1) refl in (e1, e2, e3)
