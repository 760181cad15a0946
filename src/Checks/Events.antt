-- ===== src/Checks/Events.antt =====
-- A router of the physical network that comes up and goes down
-- (internal/service/handle_bgp_update.go).
use cloudgw.Checks.Store.{assoc_db, assoc_laws}
use cloudgw.Imdb.BgpPeers.{
  BgpPeerStorage, add_bgp_peer, bgp_peer_schema, get_bgp_peer, new_bgp_peer_storage,
}
use cloudgw.Imdb.Table.{add, alloc, fetch, get, insert, new_store}
use cloudgw.Imdb.Table.Invariant.{IsValid, add-IsValid, new_store-IsValid}
use cloudgw.Model.Peer.{BgpPeer, SessionState, established, idle, phynet, unicast, unknown}
use cloudgw.Service.Peers.{Monitor, on_peers}
use cloudgw.Service.Peers.Kept.{on_peers-IsWatched}
use cloudgw.Service.Peers.Watched.{IsReady, IsWatched, mark_of, up_of}
use cloudgw.Prelude.{
  Bool-cases, List, Returns, String, [], absent, ap, arith, false, inl, inr, refl, some, string_Eq,
  subst, sym, true, ◌==◌, ◌∷◌, ◌≡◌, nat_Eq,
}

abbrev router : BgpPeer
router = record {
  peer_type = phynet;
  peer_asn = 64520;
  peer_address = "10.1.0.2";
  peer_port = 179;
  md5_password = "";
  ebgp_multi_hop = false;
  ebgp_multi_hop_ttl = 0;
  vrf_name = "blue";
  safi = unicast;
  keep_alive_timer = 3;
  hold_timer = 9;
  bgp_peer_state = idle;
  bgp_peer_prev_state = unknown;
  bgp_peer_last_activity = 0;
  bfd_peering = some (record {
    bfd_enabled = true;
    bfd_peer_ip = "10.1.0.2";
    bfd_peer_established = false;
    bfd_local_ip = "10.1.0.1";
    bfd_tx_rate = 300;
    bfd_rx_min = 300;
    bfd_multiplier = 3;
  });
}

abbrev peers : BgpPeerStorage assoc_db
peers = (add_bgp_peer assoc_db router (new_bgp_peer_storage assoc_db)).1

abbrev start : Monitor assoc_db
start = record { peers = peers; active = 0; checks = [] }

peers-IsValid : IsValid assoc_laws bgp_peer_schema peers
unfolding add_bgp_peer new_bgp_peer_storage
peers-IsValid =
    add-IsValid assoc_laws bgp_peer_schema router _ (new_store-IsValid assoc_laws bgp_peer_schema)
      refl

router_found : get_bgp_peer assoc_db "10.1.0.2" peers ≡ some router
unfolding get_bgp_peer add_bgp_peer new_bgp_peer_storage get fetch add insert alloc new_store
router_found = refl

abbrev addresses : List String
addresses = "10.1.0.2" ∷ []

only_router : (ip : String) → absent ip addresses ≡ false → "10.1.0.2" ≡ ip
only_router ip a = elim (Bool-cases ("10.1.0.2" == ip)) [
  | inl e ↦ (string_Eq.beq_iff "10.1.0.2" ip).0 e
  | inr e ↦ absurd (ground arith)
]

start-IsWatched : IsWatched assoc_laws addresses start
start-IsWatched = record {
  valid = peers-IsValid;
  counted = omega (arith, ap up_of router_found);
  checked = λ ip a.
      subst (λ (k : String). 0 ≡ mark_of (get_bgp_peer assoc_db k peers)) (only_router ip a)
        (sym (ap mark_of router_found));
  ready = λ ip a.
      subst (λ (k : String). IsReady (get_bgp_peer assoc_db k peers)) (only_router ip a)
        (record { peer = router; found = router_found; watchable = λ r. (_, refl) });
}

abbrev events : List (String × SessionState)
events =
    ("10.1.0.2", established)
    ∷ ("<nil>", idle)
    ∷ ("10.1.0.2", idle)
    ∷ ("10.1.0.2", established)
    ∷ []

on_peers-IsWatched_example :
    Returns (IsWatched assoc_laws addresses) (on_peers assoc_db events start)
on_peers-IsWatched_example =
    on_peers-IsWatched assoc_laws addresses (refl, tt) (omega arith) events start start-IsWatched
      (inr refl, (inl refl, (inr refl, (inr refl, tt))))
