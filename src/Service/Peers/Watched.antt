-- ===== src/Service/Peers/Watched.antt =====
-- What holds between two events of the BGP peers (internal/service/handle_bgp_update.go): the
-- metric of active peers, and the watches by BFD.
use cloudgw.Imdb.BgpPeers.{
  BgpPeerStorage, bgp_peer_schema, get_bgp_peer, update_bgp_peer_state, set_state,
}
use cloudgw.Imdb.BgpPeers.States.{get-update_bgp_peer_state}
use cloudgw.Imdb.Memdb.{MemDb, MemDbLaws}
use cloudgw.Imdb.Table.Invariant.{IsValid}
use cloudgw.Model.Peer.{BfdPeer, BgpPeer, phynet, SessionState}
use cloudgw.Service.Peers.{Monitor, count_peer, is_established}
use cloudgw.Service.Peers.Totals.{bit, total, Distinct, total-update, total-bound, total-member}
use cloudgw.Prelude.{
  Bool, List, Option, String, [], absent, arith, false, if◌then◌else◌, none, some, string_Eq, suc,
  true, ℕ, ◌%◌, ◌+◌, ◌-◌, ◌<◌, ◌==◌, ◌^◌, ◌∷◌, ◌≡◌, nat_Eq, ◌≤◌, ap, length, ◌∙◌, refl,
  Option-cases, inl, inr,
}

-- 1 for a peer whose session is established.
abbrev pub up_of : Option BgpPeer → ℕ
up_of none = 0
up_of (some peer) = bit (is_established peer.bgp_peer_state)

-- 1 for a peer that is marked as watched.
abbrev pub mark_of : Option BgpPeer → ℕ
mark_of none = 0
mark_of (some peer) = elim peer.bfd_peering [ none ↦ 0 | some bfd ↦ bit bfd.bfd_peer_established ]

-- How often the watch of an address was started.
abbrev pub checks_of : String → List BgpPeer → ℕ
checks_of ip [] = 0
checks_of ip (peer ∷ peers) =
    let n = checks_of ip peers in if peer.peer_address == ip then suc n else n

-- A stored peer, with the BFD of its own that a router has.
pub record IsReady (o : Option BgpPeer) : Type 0 where
  pub peer : BgpPeer
  pub found : o ≡ some peer
  pub watchable :
      (peer.peer_type == phynet) ≡ true → (bfd : BfdPeer) × (peer.bfd_peering ≡ some bfd)

bit_le : (b : Bool) → bit b ≤ 1
bit_le true = omega arith
bit_le false = omega arith

module _ {m : MemDb String} (laws : MemDbLaws m) (ips : List String) where
  abbrev pub up_at : BgpPeerStorage m → String → ℕ
  up_at s ip = up_of (get_bgp_peer m ip s)

  -- The metric is the number of established peers, and each watch was started once where the peer
  -- is marked as watched, and never where it is not.
  pub record IsWatched (w : Monitor m) : Type 0 where
    pub valid : IsValid laws bgp_peer_schema w.peers
    pub counted : w.active ≡ total (up_at w.peers) ips
    pub checked :
        (ip : String)
        → absent ip ips ≡ false
        → checks_of ip w.checks ≡ mark_of (get_bgp_peer m ip w.peers)
    pub ready : (ip : String) → absent ip ips ≡ false → IsReady (get_bgp_peer m ip w.peers)

  abbrev pub counted_active : BgpPeer → ℕ → ℕ
  counted_active peer n =
      let n1 = if is_established peer.bgp_peer_state then (n + 1) % 2 ^ 32 else n in
      if is_established peer.bgp_peer_prev_state then (n1 + 2 ^ 32 - 1) % 2 ^ 32 else n1

  pub count_peer-active :
      (peer : BgpPeer) (w : Monitor m)
      → count_peer m peer w ≡ record w { active = counted_active peer w.active }
  unfolding count_peer
  count_peer-active peer w = ground arith

  counted_active-moves :
      (b c : Bool) (n k : ℕ)
      → bit b ≤ n
      → n ≤ k
      → k < 2 ^ 32
      → n + bit c ≤ k + bit b
      → (let n1 = if c then (n + 1) % 2 ^ 32 else n in if b then (n1 + 2 ^ 32 - 1) % 2 ^ 32 else n1)
          + bit b
        ≡ n + bit c
  counted_active-moves true true n k x y z u = omega (arith, x, y, z, u)
  counted_active-moves true false n k x y z u = omega (arith, x, y, z, u)
  counted_active-moves false true n k x y z u = omega (arith, x, y, z, u)
  counted_active-moves false false n k x y z u = omega (arith, x, y, z, u)

  -- The storage after the update of the state of a peer.
  abbrev pub moved : String → SessionState → BgpPeer → BgpPeerStorage m → BgpPeerStorage m
  moved ip state peer s = (update_bgp_peer_state m ip peer.bgp_peer_state state s).1

  pub view_apart :
      {A : Type 0} (ip j : String) (a b : A) → (ip == j) ≡ false → (if ip == j then a else b) ≡ b
  view_apart ip j a b e = rw e refl

  pub view_here : {A : Type 0} (ip : String) (a b : A) → (if ip == ip then a else b) ≡ a
  view_here ip a b = rw ((string_Eq.beq_iff ip ip).1 refl) refl

  module _ (ip : String) (state : SessionState) (peer : BgpPeer) (w : Monitor m)
      (watched : IsWatched w) (found : get_bgp_peer m ip w.peers ≡ some peer)
      (distinct : Distinct ips) (few : length ips < 2 ^ 32) (known : absent ip ips ≡ false) where
    abbrev pub after : BgpPeer
    after = set_state peer.bgp_peer_state state peer

    look :
        (j : String)
        → get_bgp_peer m j (moved ip state peer w.peers) ≡ (
            if ip == j
            then some (set_state peer.bgp_peer_state state peer)
            else get_bgp_peer m j w.peers)
    look j =
        get-update_bgp_peer_state laws ip j peer.bgp_peer_state state w.peers peer watched.valid
          found

    pub look_here : get_bgp_peer m ip (moved ip state peer w.peers) ≡ some after
    look_here = look ip ∙ view_here ip _ _

    pub look_apart :
        (j : String)
        → (ip == j) ≡ false
        → get_bgp_peer m j (moved ip state peer w.peers) ≡ get_bgp_peer m j w.peers
    look_apart j e = look j ∙ view_apart ip j _ _ e

    totals :
        total (up_at (moved ip state peer w.peers)) ips + bit (is_established peer.bgp_peer_state)
        ≡ total (up_at w.peers) ips + bit (is_established state)
    totals =
        let t =
          total-update (up_at w.peers) (up_at (moved ip state peer w.peers)) ip
            (λ j e. ap up_of (look_apart j e)) ips distinct known in
        omega (arith, t, ap up_of look_here, ap up_of found)

    up_le : (j : String) → up_at w.peers j ≤ 1
    up_le j = elim (Option-cases (get_bgp_peer m j w.peers)) [
      | inl e ↦ omega (arith, ap up_of e)
      | inr (p, e) ↦ omega (arith, ap up_of e, bit_le (is_established p.bgp_peer_state))
    ]

    moved_le : (j : String) → up_at (moved ip state peer w.peers) j ≤ 1
    moved_le j = elim (Option-cases (get_bgp_peer m j (moved ip state peer w.peers))) [
      | inl e ↦ omega (arith, ap up_of e)
      | inr (p, e) ↦ omega (arith, ap up_of e, bit_le (is_established p.bgp_peer_state))
    ]

    pub moved-counted :
        counted_active after w.active ≡ total (up_at (moved ip state peer w.peers)) ips
    moved-counted =
        let u = total-bound (up_at (moved ip state peer w.peers)) moved_le ips in
        let n = total-bound (up_at w.peers) up_le ips in
        let k = total-member (up_at w.peers) (up_at w.peers) ip (λ j e. refl) ips known in
        omega (
          arith,
          totals,
          watched.counted,
          ap up_of found,
          counted_active-moves (is_established peer.bgp_peer_state) (is_established state) w.active
              (length ips) (omega (arith, k, watched.counted, ap up_of found))
              (omega (arith, n, watched.counted)) few (omega (arith, u, totals, watched.counted)),
        )
