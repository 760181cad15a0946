-- ===== src/App/Bgp.antt =====
-- The configuration of the BGP server from the storages (internal/app/init_gobgp.go), with the
-- metrics that it sets.
pub mod Exports
pub mod Stored
pub mod Launched
use cloudgw.Gobgp.Server.{
  BgpControl, set_gobgp_local_config, add_gobgp_vrf, gobgp_add_bgp_peer, gobgp_del_bgp_peer,
}
use cloudgw.Gobgp.Policy.{create_gobgp_policy}
use cloudgw.Config.{AppConfig}
use cloudgw.Imdb.BgpPeers.{BgpPeerStorage, get_bgp_peers}
use cloudgw.Imdb.BgpVrfs.{BgpVrfStorage, get_bgp_vrfs}
use cloudgw.Imdb.Memdb.{MemDb, Error}
use cloudgw.Model.Peer.{BgpPeer, tf, phynet}
use cloudgw.Model.Vrf.{BgpVrfTable}
use cloudgw.Prelude.{
  List, Option, String, [], if◌then◌else◌, length, none, some, string_append, ℕ, ◌%◌, ◌+◌, ◌==◌,
  ◌^◌, ◌∷◌, nat_Eq,
}

-- The counts of GoBGPGeneralMetrics that are set here; they are int32 and wrap.
pub record Counts : Type 0 where
  pub vrf_count : ℕ
  pub peer_count : ℕ

abbrev inc_vrf_count : Counts → Counts
inc_vrf_count k = record k { vrf_count = (k.vrf_count + 1) % 2 ^ 32 }

-- The addresses of the peers of one type, each as a network of one host.
unfoldable pub hosts_of : ℕ → List BgpPeer → List String
hosts_of type [] = []
hosts_of type (peer ∷ peers) =
    let rest = hosts_of type peers in
    if peer.peer_type == type then string_append peer.peer_address "/32" ∷ rest else rest

module _ (c : BgpControl) where
  open c use {Conn}

  unfoldable pub init_gobgp_server : AppConfig → Conn → Option Error × Conn
  unfolding set_gobgp_local_config
  init_gobgp_server cfg conn =
      set_gobgp_local_config c cfg.gobgp.bgp_local_asn cfg.gobgp.rid cfg.gobgp.bgp_local_port conn

  unfoldable pub add_vrfs : List BgpVrfTable → Counts → Conn → Option Error × Counts × Conn
  unfolding add_gobgp_vrf
  add_vrfs [] k conn = (none, k, conn)
  add_vrfs (vrf ∷ vrfs) k conn =
      let (err, conn1) = add_gobgp_vrf c vrf conn in
      elim err [ some e ↦ (some e, k, conn1) | none ↦ add_vrfs vrfs (inc_vrf_count k) conn1 ]

  unfoldable pub add_peers : List BgpPeer → Conn → Option Error × Conn
  unfolding gobgp_add_bgp_peer
  add_peers [] conn = (none, conn)
  add_peers (peer ∷ peers) conn =
      let (err, conn1) = gobgp_add_bgp_peer c peer conn in
      elim err [ some e ↦ (some e, conn1) | none ↦ add_peers peers conn1 ]

  -- The function that is returned, which ignores errors.
  unfoldable pub delete_peers : List BgpPeer → Conn → Conn
  unfolding gobgp_del_bgp_peer
  delete_peers [] conn = conn
  delete_peers (peer ∷ peers) conn = delete_peers peers (gobgp_del_bgp_peer c peer conn).1

module _ (c : BgpControl) (sprint : ℕ → String) (md5_hex : String → String) where
  open c use {Conn}

  -- An error of the policy is only logged.
  unfoldable pub configure_peers : List BgpPeer → Conn → Option Error × Conn
  unfolding add_peers hosts_of create_gobgp_policy
  configure_peers peers conn =
      let (err, conn1) = add_peers c peers conn in
      elim err [
        | some e ↦ (some e, conn1)
        | none ↦ (
          none,
          (create_gobgp_policy c sprint md5_hex (hosts_of tf peers) (hosts_of phynet peers)
              conn1).1,
        )
      ]

  module _ {ms : MemDb String} {mn : MemDb ℕ} where
    unfoldable pub configure_gobgp :
        BgpPeerStorage ms → BgpVrfStorage mn → Counts → Conn → Option Error × Counts × Conn
    unfolding add_vrfs configure_peers get_bgp_vrfs get_bgp_peers
    configure_gobgp peers vrfs k conn =
        let (err, k1, conn1) = add_vrfs c (get_bgp_vrfs mn vrfs) k conn in
        let k2 = record k1 { peer_count = length (get_bgp_peers ms peers) % 2 ^ 32 } in
        let (err2, conn2) = configure_peers (get_bgp_peers ms peers) conn1 in
        elim err [ some e ↦ (some e, k1, conn1) | none ↦ (err2, k2, conn2) ]
