-- ===== src/Bfd/Control.antt =====
-- The control of sessions (pkg/bfd/control.go): a new session for a peer, and the delivery of
-- received packets. `host` is the part of an address before the colon, by strings.Split.
use cloudgw.Bfd.Packet.{Packet}
use cloudgw.Bfd.Session.{Session}
use cloudgw.Bfd.Receive.{rx_packet}
use cloudgw.Bfd.Lifecycle.{new_session, SessionArgs}
use cloudgw.Prelude.{
  Bool, Bool-cases, List, String, [], ap, if◌then◌else◌, inl, ltb, not, refl, true, ℕ, ◌&&◌, ◌*◌,
  ◌++◌, ◌==◌, ◌∷◌, ◌≡◌, ◌⊎◌, inr, nat_Eq, string_Eq,
}

pub record RxData : Type 0 where
  pub packet : Packet
  pub addr : String

-- The intervals of the configuration are milliseconds.
unfoldable pub add_session : String → SessionArgs → ℕ → ℕ → List Session → List Session
unfolding new_session
add_session local_ip a discr seq sessions =
    sessions
    ++ new_session
        (record a {
          local_ip = local_ip;
          rx_interval = a.rx_interval * 1000;
          tx_interval = a.tx_interval * 1000;
        })
        discr seq
      ∷ []

-- The loops of processPackets: the first session that passes the test gets the packet.
unfoldable pub deliver : (Session → Bool) → (Session → Session) → List Session → List Session
deliver test f [] = []
deliver test f (s ∷ ss) = let rest = deliver test f ss in if test s then f s ∷ ss else s ∷ rest

abbrev pub is_addressed : (String → String) → RxData → Session → Bool
is_addressed host d =
    if ltb 0 d.packet.your_discriminator
    then (λ s. s.local_discr == d.packet.your_discriminator)
    else (λ s. s.remote_ip == host d.addr)

unfoldable pub process_packets : (String → String) → ℕ → Bool → RxData → List Session → List Session
process_packets host now net d sessions =
    if ltb 0 d.packet.your_discriminator
    then deliver (λ s. s.local_discr == d.packet.your_discriminator) (rx_packet now net d.packet)
        sessions
    else deliver (λ s. s.remote_ip == host d.addr) (rx_packet now net d.packet) sessions

-- Nothing in the list passes the test.
abbrev pub none_passes {ℓ} : {A : Type ℓ} → (A → Bool) → List A → Bool
none_passes test [] = true
none_passes test (s ∷ ss) = not (test s) && none_passes test ss

abbrev pub Delivers : (Session → Bool) → (Session → Session) → List Session → List Session → Type 0
Delivers test f before after =
    ((none_passes test before ≡ true) × (after ≡ before))
    ⊎ ((xs : List Session) × (s : Session) × (ys : List Session) × (before ≡ xs ++ s ∷ ys)
        × (none_passes test xs ≡ true)
        × (test s ≡ true)
        × (after ≡ xs ++ f s ∷ ys))

deliver-Delivers :
    (test : Session → Bool) (f : Session → Session) (ss : List Session)
    → Delivers test f ss (deliver test f ss)
unfolding deliver
deliver-Delivers test f [] = inl (refl, refl)
deliver-Delivers test f (s ∷ ss) = elim (Bool-cases (test s)) [
  | inl e ↦ inr ([], s, ss, refl, refl, e, rw (e, deliver) refl)
  | inr e ↦ elim (deliver-Delivers test f ss) [
    | inl (a, b) ↦ inl (rw e a, rw (e, deliver, b) refl)
    | inr (xs, t, ys, b, n, p, a) ↦
        inr (s ∷ xs, t, ys, ap (λ (k : List Session). s ∷ k) b, rw e n, p, rw (e, deliver, a) refl)
  ]
]

-- A packet reaches at most one session: the first whose discriminator it names, or, where it names
-- none, the first whose peer has its address. Every other session stays as it is, and so do all if
-- no session is meant.
pub process_packets-Delivers :
    (host : String → String) (now : ℕ) (net : Bool) (d : RxData) (ss : List Session)
    → Delivers
        (is_addressed host d)
        (rx_packet now net d.packet)
        ss
        (process_packets host now net d ss)
unfolding process_packets
process_packets-Delivers host now net d ss = elim (Bool-cases (ltb 0 d.packet.your_discriminator)) [
  | inl e ↦
      rw (e, process_packets)
        (deliver-Delivers (λ s. s.local_discr == d.packet.your_discriminator)
          (rx_packet now net d.packet) ss)
  | inr e ↦
      rw (e, process_packets)
        (deliver-Delivers (λ s. s.remote_ip == host d.addr) (rx_packet now net d.packet) ss)
]
