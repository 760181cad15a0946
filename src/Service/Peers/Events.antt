-- ===== src/Service/Peers/Events.antt =====
-- The two parts of an event of a BGP peer, the change of the state and the start of the watch (the
-- last callback of internal/service/handle_bgp_update.go).
use cloudgw.Imdb.BgpPeers.{get_bgp_peer, set_state, BgpPeerStorage, set_established}
use cloudgw.Imdb.BgpPeers.States.{
  update_bfd_peer_state-Established, get_bgp_peer-address, Established,
  update_bgp_peer_state-IsValid,
}
use cloudgw.Imdb.Memdb.{MemDb, MemDbLaws}
use cloudgw.Model.Peer.{BfdPeer, BgpPeer, SessionState, phynet}
use cloudgw.Service.Peers.{Monitor, count_peer, start_bfd, is_established}
use cloudgw.Service.Peers.Totals.{total-ext, Distinct}
use cloudgw.Service.Peers.Watched.{
  IsReady, IsWatched, count_peer-active, look_apart, look_here, mark_of, moved, moved-counted,
  up_at, up_of, checks_of, view_here, view_apart,
}
use cloudgw.Prelude.{
  Bool-cases, List, String, absent, false, inl, inr, length, some, string_Eq, sym, true, ◌<◌, ◌==◌,
  ◌^◌, ◌∙◌, ◌≡◌, ap, subst, nat_Eq, Option, none, arith, not, Returns, refl, ◌&&◌, suc, ◌∷◌,
}

abbrev peer_or : BgpPeer → Option BgpPeer → BgpPeer
peer_or d none = d
peer_or d (some peer) = peer

-- A router that is ready has BFD.
abbrev pub IsWatchable : BgpPeer → Type 0
IsWatchable peer =
    (peer.peer_type == phynet) ≡ true → (bfd : BfdPeer) × (peer.bfd_peering ≡ some bfd)

pub ready-IsWatchable :
    (o : Option BgpPeer) (peer : BgpPeer) → o ≡ some peer → IsReady o → IsWatchable peer
ready-IsWatchable o peer e r = subst IsWatchable (ap (peer_or peer) (sym r.found ∙ e)) r.watchable

module _ {m : MemDb String} (laws : MemDbLaws m) (ips : List String) where
  pub moved-IsWatched :
      (ip : String) (state : SessionState) (peer : BgpPeer) (w : Monitor m)
      → IsWatched laws ips w
      → get_bgp_peer m ip w.peers ≡ some peer
      → Distinct ips
      → length ips < 2 ^ 32
      → absent ip ips ≡ false
      → IsWatched laws ips (
          count_peer m
            (set_state peer.bgp_peer_state state peer)
            (record w { peers = moved laws ips ip state peer w.peers }))
  moved-IsWatched ip state peer w watched found distinct few known =
      let here = look_here laws ips ip state peer w watched found distinct few known in
      let apart = look_apart laws ips ip state peer w watched found distinct few known in
      rw
        (count_peer-active laws ips (set_state peer.bgp_peer_state state peer)
          (record w { peers = moved laws ips ip state peer w.peers }))
        (record {
          valid =
              update_bgp_peer_state-IsValid laws ip peer.bgp_peer_state state w.peers watched.valid;
          counted = moved-counted laws ips ip state peer w watched found distinct few known;
          checked = λ j a. watched.checked j a ∙ elim (Bool-cases (ip == j)) [
            | inl e ↦
                subst
                  (λ (k : String).
                    mark_of (get_bgp_peer m k w.peers)
                    ≡ mark_of (get_bgp_peer m k (moved laws ips ip state peer w.peers)))
                  ((string_Eq.beq_iff ip j).0 e) (ap mark_of found ∙ sym (ap mark_of here))
            | inr e ↦ sym (ap mark_of (apart j e))
          ];
          ready = λ j a. elim (Bool-cases (ip == j)) [
            | inl e ↦
                subst
                  (λ (k : String).
                    IsReady (get_bgp_peer m k (moved laws ips ip state peer w.peers)))
                  ((string_Eq.beq_iff ip j).0 e)
                  (record {
                    peer = set_state peer.bgp_peer_state state peer;
                    found = here;
                    watchable =
                        ready-IsWatchable (get_bgp_peer m ip w.peers) peer found
                          (watched.ready ip known);
                  })
            | inr e ↦ subst IsReady (sym (apart j e)) (watched.ready j a)
          ];
        })

  -- The start of a watch: the peer is marked, and its address is once more in the list.
  module _ (ip : String) (peer : BgpPeer) (bfd : BfdPeer) (w : Monitor m)
      (watched : IsWatched laws ips w) (found : get_bgp_peer m ip w.peers ≡ some peer)
      (has_bfd : peer.bfd_peering ≡ some bfd) (known : absent ip ips ≡ false) where
    module _ (u : BgpPeerStorage m) (est : Established laws ip true peer w.peers u) where
      marked_here : get_bgp_peer m ip u ≡ some (set_established true peer)
      marked_here = est.found ip ∙ view_here laws ips ip _ _

      marked_apart :
          (j : String) → (ip == j) ≡ false → get_bgp_peer m j u ≡ get_bgp_peer m j w.peers
      marked_apart j e = est.found j ∙ view_apart laws ips ip j _ _ e

      marked-up : (j : String) → up_at laws ips u j ≡ up_at laws ips w.peers j
      marked-up j = elim (Bool-cases (ip == j)) [
        | inl e ↦
            subst (λ (k : String). up_at laws ips u k ≡ up_at laws ips w.peers k)
              ((string_Eq.beq_iff ip j).0 e) (ap up_of marked_here ∙ sym (ap up_of found))
        | inr e ↦ ap up_of (marked_apart j e)
      ]

      address : peer.peer_address ≡ ip
      address = get_bgp_peer-address laws ip w.peers peer watched.valid found

      marked-mark : mark_of (some (set_established true peer)) ≡ 1
      marked-mark = rw has_bfd refl

      unmarked : bfd.bfd_peer_established ≡ false → mark_of (get_bgp_peer m ip w.peers) ≡ 0
      unmarked f = ap mark_of found ∙ rw (has_bfd, f) refl

      checks-here : checks_of ip (peer ∷ w.checks) ≡ suc (checks_of ip w.checks)
      checks-here = rw ((string_Eq.beq_iff peer.peer_address ip).1 address) refl

      checks-apart :
          (j : String) → (ip == j) ≡ false → checks_of j (peer ∷ w.checks) ≡ checks_of j w.checks
      checks-apart j e = rw (address, e) refl

      marked-IsWatched :
          bfd.bfd_peer_established ≡ false
          → IsWatched laws ips (record w { peers = u; checks = peer ∷ w.checks })
      marked-IsWatched f = record {
        valid = est.valid;
        counted =
            watched.counted
            ∙ sym (total-ext (up_at laws ips w.peers) (up_at laws ips u) marked-up ips);
        checked = λ j a. elim (Bool-cases (ip == j)) [
          | inl e ↦
              subst (λ (k : String). checks_of k (peer ∷ w.checks) ≡ mark_of (get_bgp_peer m k u))
                ((string_Eq.beq_iff ip j).0 e)
                (omega (
                  arith,
                  checks-here,
                  watched.checked ip known,
                  unmarked f,
                  marked-mark,
                  ap mark_of marked_here,
                ))
          | inr e ↦ checks-apart j e ∙ watched.checked j a ∙ sym (ap mark_of (marked_apart j e))
        ];
        ready = λ j a. elim (Bool-cases (ip == j)) [
          | inl e ↦
              subst (λ (k : String). IsReady (get_bgp_peer m k u)) ((string_Eq.beq_iff ip j).0 e)
                (record {
                  peer = set_established true peer;
                  found = marked_here;
                  watchable = λ r. (record bfd { bfd_peer_established = true }, rw has_bfd refl);
                })
          | inr e ↦ subst IsReady (sym (marked_apart j e)) (watched.ready j a)
        ];
      }

    pub start_bfd-IsWatched : Returns (IsWatched laws ips) (start_bfd m ip peer bfd w)
    unfolding start_bfd
    start_bfd-IsWatched =
        elim (Bool-cases (
          bfd.bfd_enabled
          && (is_established peer.bgp_peer_state && not bfd.bfd_peer_established))) [
            | inr e ↦ rw (start_bfd, e) watched
            | inl e ↦
                let (u, h, est) =
                  update_bfd_peer_state-Established laws ip true w.peers peer bfd watched.valid
                    found has_bfd in
                rw (start_bfd, e, h) (marked-IsWatched u est (ground arith))
          ]
