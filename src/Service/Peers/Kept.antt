-- ===== src/Service/Peers/Kept.antt =====
-- The metric of active peers and the watches after any sequence of events (the last callback of
-- internal/service/handle_bgp_update.go).
use cloudgw.Imdb.BgpPeers.{get_bgp_peer, set_state}
use cloudgw.Imdb.Memdb.{MemDb, MemDbLaws}
use cloudgw.Model.Peer.{BgpPeer, SessionState, phynet}
use cloudgw.Service.Peers.{Monitor, on_peer, on_peers, watch_bfd}
use cloudgw.Service.Peers.Events.{moved-IsWatched, ready-IsWatchable, start_bfd-IsWatched}
use cloudgw.Service.Peers.Totals.{Distinct}
use cloudgw.Service.Peers.Watched.{IsWatched, count_peer-active, look_here}
use cloudgw.Prelude.{
  Bool-cases, List, Returns, Returns-bind, String, [], absent, arith, false, inl, inr, length, some,
  string_Eq, true, ◌<◌, ◌==◌, ◌^◌, ◌∙◌, ◌∷◌, ◌≡◌, ◌⊎◌, ap, nat_Eq,
}

module _ {m : MemDb String} (laws : MemDbLaws m) (ips : List String) where
  watch_bfd-IsWatched :
      (ip : String) (peer : BgpPeer) (w : Monitor m)
      → IsWatched laws ips w
      → get_bgp_peer m ip w.peers ≡ some peer
      → absent ip ips ≡ false
      → Returns (IsWatched laws ips) (watch_bfd m ip peer w)
  unfolding watch_bfd
  watch_bfd-IsWatched ip peer w watched found known = elim (Bool-cases (peer.peer_type == phynet)) [
    | inr e ↦ rw (watch_bfd, e) watched
    | inl e ↦
        let (bfd, has) =
          ready-IsWatchable (get_bgp_peer m ip w.peers) peer found (watched.ready ip known) e in
        simp (watch_bfd, e, has)
          (start_bfd-IsWatched laws ips ip peer bfd w watched found has known)
  ]

  -- The addresses of an event: it has none, or names a peer of the list.
  abbrev pub IsKnown : String → Type 0
  IsKnown ip = ((ip == "<nil>") ≡ true) ⊎ (absent ip ips ≡ false)

  abbrev pub AreKnown : List (String × SessionState) → Type 0
  AreKnown [] = Unit
  AreKnown ((ip, state) ∷ events) = IsKnown ip × AreKnown events

  module _ (distinct : Distinct ips) (few : length ips < 2 ^ 32) where
    event-IsWatched :
        (ip : String) (state : SessionState) (w : Monitor m)
        → IsWatched laws ips w
        → absent ip ips ≡ false
        → (ip == "<nil>") ≡ false
        → Returns (IsWatched laws ips) (on_peer m ip state w)
    unfolding on_peer
    event-IsWatched ip state w watched known e =
        let r = watched.ready ip known in
        let here = look_here laws ips ip state r.peer w watched r.found distinct few known in
        simp (on_peer, e, r.found, here)
          (watch_bfd-IsWatched ip (set_state r.peer.bgp_peer_state state r.peer) _
            (moved-IsWatched laws ips ip state r.peer w watched r.found distinct few known)
            (ap (λ (z : Monitor m). get_bgp_peer m ip z.peers)
                (count_peer-active laws ips (set_state r.peer.bgp_peer_state state r.peer) _)
              ∙ here)
            known)

    on_peer-IsWatched :
        (ip : String) (state : SessionState) (w : Monitor m)
        → IsWatched laws ips w
        → IsKnown ip
        → Returns (IsWatched laws ips) (on_peer m ip state w)
    unfolding on_peer
    on_peer-IsWatched ip state w watched known = elim (Bool-cases (ip == "<nil>")) [
      | inl e ↦ rw (on_peer, e) watched
      | inr e ↦ elim known [
        | inl f ↦ absurd (ground arith)
        | inr k ↦ event-IsWatched ip state w watched k e
      ]
    ]

    -- Start where the storage is valid, the metric is the number of established peers among some
    -- distinct addresses, fewer than 2^32, each with a stored peer that has a BFD peering if it is
    -- a router of the physical network, and where each watch was started once for a peer that is
    -- marked as watched and never for another. Every sequence of events for these addresses or
    -- for none returns, and leaves all of that true.
    pub on_peers-IsWatched :
        (events : List (String × SessionState)) (w : Monitor m)
        → IsWatched laws ips w
        → AreKnown events
        → Returns (IsWatched laws ips) (on_peers m events w)
    unfolding on_peers
    on_peers-IsWatched [] w watched known = watched
    on_peers-IsWatched ((ip, state) ∷ events) w watched known =
        Returns-bind (IsWatched laws ips) (IsWatched laws ips) (on_peer m ip state w) _
          (on_peer-IsWatched ip state w watched known.0)
          (λ u h. on_peers-IsWatched events u h known.1)
