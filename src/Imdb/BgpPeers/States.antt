-- ===== src/Imdb/BgpPeers/States.antt =====
-- What the two updates of a BGP peer do to the stored peers (UpdateBGPPeerState and
-- UpdateBFDPeerState of internal/repository/imdb/bgp_peer.go).
use cloudgw.Imdb.BgpPeers.{
  BgpPeerStorage, bgp_peer_schema, get_bgp_peer, set_established, set_state, update_bfd_peer_state,
  update_bgp_peer_state,
}
use cloudgw.Imdb.Memdb.{MemDb, MemDbLaws, no_bgp_peer_found}
use cloudgw.Imdb.Table.{change, get, string_index}
use cloudgw.Imdb.Table.Change.{change-IsValid}
use cloudgw.Imdb.Table.Invariant.{IsValid, KeepsIndexes}
use cloudgw.Imdb.Table.View.{get-indexed}
use cloudgw.Imdb.Table.Updates.{get-change}
use cloudgw.Model.Peer.{BfdPeer, BgpPeer, SessionState}
use cloudgw.Prelude.{
  Bool, String, if◌then◌else◌, none, ok, refl, some, ◌==◌, ◌∙◌, ◌≡◌, string_Eq, arith, true,
}

set_state-KeepsIndexes :
    (prev current : SessionState)
    → KeepsIndexes bgp_peer_schema (λ peer. some (set_state prev current peer))
set_state-KeepsIndexes prev current row row' h = ground arith

set_established-KeepsIndexes :
    (b : Bool) → KeepsIndexes bgp_peer_schema (λ peer. some (set_established b peer))
set_established-KeepsIndexes b row row' h = ground arith

indexed_at :
    (ip : String) (peer : BgpPeer)
    → string_index peer.peer_address ≡ some ip
    → peer.peer_address ≡ ip
indexed_at ip peer h = ground arith

module _ {m : MemDb String} (laws : MemDbLaws m) where
  pub update_bgp_peer_state-IsValid :
      (ip : String) (prev current : SessionState) (s : BgpPeerStorage m)
      → IsValid laws bgp_peer_schema s
      → IsValid laws bgp_peer_schema (update_bgp_peer_state m ip prev current s).1
  unfolding update_bgp_peer_state
  update_bgp_peer_state-IsValid ip prev current s v =
      change-IsValid laws bgp_peer_schema true (some no_bgp_peer_found)
        (λ peer. some (set_state prev current peer)) ip s (set_state-KeepsIndexes prev current) v

  pub get-update_bgp_peer_state :
      (ip j : String) (prev current : SessionState) (s : BgpPeerStorage m) (peer : BgpPeer)
      → IsValid laws bgp_peer_schema s
      → get_bgp_peer m ip s ≡ some peer
      → get_bgp_peer m j (update_bgp_peer_state m ip prev current s).1
        ≡ (if ip == j then some (set_state prev current peer) else get_bgp_peer m j s)
  unfolding update_bgp_peer_state get_bgp_peer
  get-update_bgp_peer_state ip j prev current s peer v e =
      get-change laws bgp_peer_schema true (some no_bgp_peer_found)
        (λ peer. some (set_state prev current peer)) ip j s (set_state-KeepsIndexes prev current) v
      ∙ rw e refl

  -- The storage after the update of a peer with BFD.
  pub record Established (ip : String) (b : Bool) (peer : BgpPeer) (s u : BgpPeerStorage m)
      : Type 0 where
    pub valid : IsValid laws bgp_peer_schema u
    pub found :
        (j : String)
        → get_bgp_peer m j u
          ≡ (if ip == j then some (set_established b peer) else get_bgp_peer m j s)

  writes_established :
      (ip : String) (b : Bool) (s : BgpPeerStorage m) (peer : BgpPeer) (bfd : BfdPeer)
      → get m bgp_peer_schema ip s ≡ some peer
      → peer.bfd_peering ≡ some bfd
      → update_bfd_peer_state m ip b s
        ≡ ok (change m bgp_peer_schema true none (λ peer. some (set_established b peer)) ip s).1
  unfolding update_bfd_peer_state
  writes_established ip b s peer bfd e f = rw (update_bfd_peer_state, e, f) refl

  pub update_bfd_peer_state-Established :
      (ip : String) (b : Bool) (s : BgpPeerStorage m) (peer : BgpPeer) (bfd : BfdPeer)
      → IsValid laws bgp_peer_schema s
      → get_bgp_peer m ip s ≡ some peer
      → peer.bfd_peering ≡ some bfd
      → (u : BgpPeerStorage m) × (update_bfd_peer_state m ip b s ≡ ok u) × Established ip b peer s u
  unfolding update_bfd_peer_state get_bgp_peer
  update_bfd_peer_state-Established ip b s peer bfd v e f = (
    (change m bgp_peer_schema true none (λ peer. some (set_established b peer)) ip s).1,
    writes_established ip b s peer bfd e f,
    record {
      valid =
          change-IsValid laws bgp_peer_schema true none (λ peer. some (set_established b peer)) ip s
            (set_established-KeepsIndexes b) v;
      found = λ j.
          get-change laws bgp_peer_schema true none (λ peer. some (set_established b peer)) ip j s
            (set_established-KeepsIndexes b) v
          ∙ rw e refl;
    },
  )

  -- A stored peer has the address under which it is found.
  pub get_bgp_peer-address :
      (ip : String) (s : BgpPeerStorage m) (peer : BgpPeer)
      → IsValid laws bgp_peer_schema s
      → get_bgp_peer m ip s ≡ some peer
      → peer.peer_address ≡ ip
  unfolding get_bgp_peer
  get_bgp_peer-address ip s peer v e =
      indexed_at ip peer (get-indexed laws bgp_peer_schema ip peer s v e)
