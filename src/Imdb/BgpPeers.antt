-- ===== src/Imdb/BgpPeers.antt =====
-- The storage of BGP peers (internal/repository/imdb/bgp_peer.go).
pub mod States
use cloudgw.Model.Peer.{BgpPeer, phynet, tf, SessionState}
use cloudgw.Imdb.Memdb.{MemDb, failed, no_bgp_peer_found, Result, Error, value, no_bgp_peers_found}
use cloudgw.Imdb.Table.{
  Schema, Store, string_index, add, new_store, rows, clear, is_present, get, change,
}
use cloudgw.Prelude.{
  Bool, List, Option, Outcome, [], false, if◌then◌else◌, none, ok, panic, some, true, ℕ, ◌==◌, ◌∷◌,
  String, nat_Eq, string_Eq,
}

abbrev pub bgp_peer_schema : Schema String BgpPeer
bgp_peer_schema = record {
  id_of = λ peer. string_index peer.peer_address;
  has_others = λ peer. true;
}

-- `make(map[string]int)`: a later entry for a key hides an earlier one.
abbrev pub TypeMap : Type 0
TypeMap = List (String × ℕ)

unfoldable pub lookup_type : String → TypeMap → Option ℕ
lookup_type ip [] = none
lookup_type ip ((key, t) ∷ rest) = if key == ip then some t else lookup_type ip rest

-- `for _, peer := range peers { result[peer.PeerAddress] = peer.PeerType }`
unfoldable pub fill_types : List BgpPeer → TypeMap → TypeMap
fill_types [] result = result
fill_types (peer ∷ peers) result = fill_types peers ((peer.peer_address, peer.peer_type) ∷ result)

abbrev pub set_state : SessionState → SessionState → BgpPeer → BgpPeer
set_state prev current peer = record peer { bgp_peer_prev_state = prev; bgp_peer_state = current }

abbrev pub set_established : Bool → BgpPeer → BgpPeer
set_established b peer = record peer {
  bfd_peering = elim peer.bfd_peering [
    | none ↦ none
    | some bfd ↦ some (record bfd { bfd_peer_established = b })
  ];
}

module _ (m : MemDb String) where
  abbrev pub BgpPeerStorage : Type 0
  BgpPeerStorage = Store m BgpPeer

  unfoldable pub new_bgp_peer_storage : BgpPeerStorage
  unfolding new_store
  new_bgp_peer_storage = new_store m bgp_peer_schema

  unfoldable pub add_bgp_peer : BgpPeer → BgpPeerStorage → Option Error × BgpPeerStorage
  unfolding add
  add_bgp_peer peer s = add m bgp_peer_schema peer s

  unfoldable pub del_bgp_peers : BgpPeerStorage → Option Error × BgpPeerStorage
  unfolding clear
  del_bgp_peers s = clear m bgp_peer_schema s

  unfoldable pub get_bgp_peer : String → BgpPeerStorage → Option BgpPeer
  unfolding get
  get_bgp_peer peer_ip s = get m bgp_peer_schema peer_ip s

  unfoldable pub get_bgp_peers : BgpPeerStorage → List BgpPeer
  unfolding rows
  get_bgp_peers s = rows m bgp_peer_schema (MemDb.walk_id m s.db) s

  unfoldable pub is_configured_bgp_peer : String → BgpPeerStorage → Bool
  unfolding is_present
  is_configured_bgp_peer peer_ip s = is_present m bgp_peer_schema peer_ip s

  unfoldable pub create_bgp_peer_to_type_map : BgpPeerStorage → Result TypeMap
  unfolding rows fill_types
  create_bgp_peer_to_type_map s = elim (rows m bgp_peer_schema (MemDb.walk_id m s.db) s) [
    | [] ↦ failed no_bgp_peers_found
    | peer ∷ peers ↦ value (fill_types (peer ∷ peers) [])
  ]

  unfoldable pub is_tf : String → BgpPeerStorage → Bool
  unfolding get
  is_tf peer_ip s = elim (get m bgp_peer_schema peer_ip s) [
    | none ↦ false
    | some peer ↦ peer.peer_type == tf
  ]

  unfoldable pub is_phynet : String → BgpPeerStorage → Bool
  unfolding get
  is_phynet peer_ip s = elim (get m bgp_peer_schema peer_ip s) [
    | none ↦ false
    | some peer ↦ peer.peer_type == phynet
  ]

  unfoldable pub update_bgp_peer_state :
      String → SessionState → SessionState → BgpPeerStorage → Option Error × BgpPeerStorage
  unfolding change
  update_bgp_peer_state peer_ip prev current s =
      change m bgp_peer_schema true (some no_bgp_peer_found)
        (λ peer. some (set_state prev current peer)) peer_ip s

  -- A peer with no BFD peering is dereferenced through nil. The method returns nothing.
  unfoldable pub update_bfd_peer_state : String → Bool → BgpPeerStorage → Outcome BgpPeerStorage
  unfolding get change
  update_bfd_peer_state peer_ip b s =
      let changed =
        (change m bgp_peer_schema true none (λ peer. some (set_established b peer)) peer_ip s).1 in
      elim (get m bgp_peer_schema peer_ip s) [
        | none ↦ ok changed
        | some peer ↦ elim peer.bfd_peering [ none ↦ panic | some bfd ↦ ok changed ]
      ]
