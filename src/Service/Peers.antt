-- ===== src/Service/Peers.antt =====
-- The callback of HandleBGPUpdate on the states of peers (internal/service/handle_bgp_update.go),
-- and the watch over a peer by BFD (internal/service/bfd_health_check.go).
pub mod Totals
pub mod Watched
pub mod Events
pub mod Kept
use cloudgw.Bfd.Control.{add_session}
use cloudgw.Bfd.Session.{Session}
use cloudgw.Imdb.BgpPeers.{
  BgpPeerStorage, get_bgp_peer, update_bgp_peer_state, update_bfd_peer_state,
}
use cloudgw.Imdb.Memdb.{MemDb}
use cloudgw.Model.Peer.{BgpPeer, BfdPeer, SessionState, established, phynet}
use cloudgw.Prelude.{
  Bool, List, Outcome, String, [], deref, false, if◌then◌else◌, not, ok, true, ℕ, ◌%◌, ◌&&◌, ◌+◌,
  ◌-◌, ◌==◌, ◌>>=◌, ◌^◌, ◌∷◌, nat_Eq, string_Eq,
}

abbrev pub is_established : SessionState → Bool
is_established established = true
is_established _ = false

-- CheckBFDPeerStatus up to its `select`: the sessions of its control. `discr` and `seq` are the two
-- draws for the session.
unfoldable pub check_bfd_peer_status : BgpPeer → ℕ → ℕ → Outcome (List Session)
unfolding add_session
check_bfd_peer_status peer discr seq = do
  bfd ← deref peer.bfd_peering
  ok (
      add_session bfd.bfd_local_ip
        (record {
          local_ip = bfd.bfd_local_ip;
          remote_ip = bfd.bfd_peer_ip;
          family = 2;
          passive = false;
          rx_interval = bfd.bfd_rx_min;
          tx_interval = bfd.bfd_tx_rate;
          detect_mult = bfd.bfd_multiplier;
        })
        discr seq [])

module _ (m : MemDb String) where
  -- The peers, the metric ActivePeerCount as the bit pattern of its int32, and the peers for which
  -- CheckBFDPeerStatus was started, the last one first.
  pub record Monitor : Type 0 where
    pub peers : BgpPeerStorage m
    pub active : ℕ
    pub checks : List BgpPeer

  -- IncActivePeerCount and DecActivePeerCount of pkg/exporter/gobgpexporter/metrics.go
  unfoldable pub inc_active_peer_count : Monitor → Monitor
  inc_active_peer_count w = record w { active = (w.active + 1) % 2 ^ 32 }

  unfoldable pub dec_active_peer_count : Monitor → Monitor
  dec_active_peer_count w = record w { active = (w.active + 2 ^ 32 - 1) % 2 ^ 32 }

  -- The two updates of the metric, for the peer after its state was written.
  unfoldable pub count_peer : BgpPeer → Monitor → Monitor
  unfolding inc_active_peer_count dec_active_peer_count
  count_peer peer w =
      let w1 = if is_established peer.bgp_peer_state then inc_active_peer_count w else w in
      if is_established peer.bgp_peer_prev_state then dec_active_peer_count w1 else w1

  -- The start of the watch, once the peer is known to have BFD.
  unfoldable pub start_bfd : String → BgpPeer → BfdPeer → Monitor → Outcome Monitor
  start_bfd peer_ip peer bfd w =
      if bfd.bfd_enabled && (is_established peer.bgp_peer_state && not bfd.bfd_peer_established)
      then (do
        peers ← update_bfd_peer_state m peer_ip true w.peers
        ok (record w { peers = peers; checks = peer ∷ w.checks }))
      else ok w

  unfoldable pub watch_bfd : String → BgpPeer → Monitor → Outcome Monitor
  unfolding start_bfd
  watch_bfd peer_ip peer w =
      if peer.peer_type == phynet
      then (do bfd ← deref peer.bfd_peering; start_bfd peer_ip peer bfd w)
      else ok w

  -- The callback for one event. A peer that is not stored is dereferenced through nil. The fields
  -- of the peer are read again through its pointer after UpdateBGPPeerState has written them; the
  -- table still has that pointer under the address.
  unfoldable pub on_peer : String → SessionState → Monitor → Outcome Monitor
  unfolding count_peer watch_bfd
  on_peer peer_ip state w = if peer_ip == "<nil>" then ok w else (do
    before ← deref (get_bgp_peer m peer_ip w.peers)
    let peers = (update_bgp_peer_state m peer_ip before.bgp_peer_state state w.peers).1
    peer ← deref (get_bgp_peer m peer_ip peers)
    watch_bfd peer_ip peer (count_peer peer (record w { peers = peers })))

  unfoldable pub on_peers : List (String × SessionState) → Monitor → Outcome Monitor
  unfolding on_peer
  on_peers [] w = ok w
  on_peers ((peer_ip, state) ∷ events) w = do w1 ← on_peer peer_ip state w; on_peers events w1
