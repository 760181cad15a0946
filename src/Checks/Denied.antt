-- ===== src/Checks/Denied.antt =====
-- The start with one controller and one VRF, up to the export policy (internal/app).
use cloudgw.App.Bgp.{configure_gobgp, Counts, add_vrfs, add_peers, hosts_of}
use cloudgw.App.Bgp.Exports.{PeerLaws, HasNames}
use cloudgw.App.Bgp.Launched.{action_for, configure_gobgp-Denies}
use cloudgw.App.Storages.{
  Init, done, refused, init_bgp_peer_storage, tf_peer, phynet_peer, add_tf_peers, add_phynet_peers,
  enough_peers, fill,
}
use cloudgw.App.Storages.Peers.{IsConfigured, init_bgp_peer_storage-IsConfigured}
use cloudgw.Checks.Launch.{launch, blue, controller_configured, router_configured}
use cloudgw.Checks.Policies.{server, server_laws, sprint, fresh_server, tagged}
use cloudgw.Checks.Store.{assoc_db, assoc_laws}
use cloudgw.Gobgp.Policy.{join}
use cloudgw.Gobgp.Server.{add_gobgp_vrf, gobgp_add_bgp_peer}
use cloudgw.Imdb.BgpPeers.{BgpPeerStorage, new_bgp_peer_storage, add_bgp_peer, get_bgp_peers}
use cloudgw.Imdb.BgpVrfs.{BgpVrfStorage, new_bgp_vrf_storage, get_bgp_vrfs}
use cloudgw.Imdb.Table.{add, insert, alloc, rows, collect, new_store}
use cloudgw.Model.Peer.{new_bgp_peer}
use cloudgw.Prelude.{String, ap, none, refl, sym, ℕ, ◌∙◌, ◌≡◌, ◌≤◌, subst, nat_Eq, string_Eq}

abbrev peers : BgpPeerStorage assoc_db
peers =
    (add_bgp_peer assoc_db (phynet_peer 5 blue)
      (add_bgp_peer assoc_db (tf_peer launch.tf_controller 5 "10.0.0.2")
        (new_bgp_peer_storage assoc_db)).1).1

abbrev storage_in : Init (BgpPeerStorage assoc_db) → BgpPeerStorage assoc_db
storage_in (done s) = s
storage_in (refused e) = peers

peers-made : init_bgp_peer_storage assoc_db 5 launch ≡ done peers
unfolding init_bgp_peer_storage add_tf_peers add_phynet_peers enough_peers fill tf_peer phynet_peer
    new_bgp_peer add_bgp_peer add insert alloc new_bgp_peer_storage new_store get_bgp_peers rows
    collect
peers-made = refl

peers-IsConfigured : IsConfigured assoc_laws 5 launch peers
peers-IsConfigured =
    let made =
      init_bgp_peer_storage-IsConfigured assoc_laws 5 launch "10.0.0.2" "10.1.0.2" refl refl refl
        controller_configured router_configured in
    subst (IsConfigured assoc_laws 5 launch) (ap storage_in (sym made.1 ∙ peers-made)) made.2

abbrev peer_laws : PeerLaws server_laws
peer_laws = record {
  sets-add_vrf = λ v conn j. refl;
  knows-add_vrf = λ v conn j. refl;
  sets-add_peer = λ p conn j. refl;
  knows-add_peer = λ p conn j. refl;
  states-add_vrf = λ v conn j. refl;
  states-add_peer = λ p conn j. refl;
}

abbrev counts : Counts
counts = record { vrf_count = 0; peer_count = 0 }

abbrev vrfs : BgpVrfStorage assoc_db
vrfs = new_bgp_vrf_storage assoc_db

peers-HasNames : HasNames server_laws peer_laws sprint tagged (get_bgp_peers assoc_db peers)
unfolding get_bgp_peers rows collect add_bgp_peer add insert alloc new_bgp_peer_storage new_store
    tf_peer phynet_peer new_bgp_peer hosts_of join
peers-HasNames = record {
  sets_differ = refl;
  rules_differ = refl;
  is_named = refl;
  tf_hosts = refl;
  phynet_hosts = refl;
}

vrfs-taken : (add_vrfs server (get_bgp_vrfs assoc_db vrfs) counts fresh_server).0 ≡ none
unfolding add_vrfs add_gobgp_vrf get_bgp_vrfs rows collect new_bgp_vrf_storage new_store
vrfs-taken = refl

peers-taken :
    (add_peers server
      (get_bgp_peers assoc_db peers)
      (add_vrfs server (get_bgp_vrfs assoc_db vrfs) counts fresh_server).2).0
    ≡ none
unfolding get_bgp_peers rows collect add_bgp_peer add insert alloc new_bgp_peer_storage new_store
    tf_peer phynet_peer new_bgp_peer add_peers gobgp_add_bgp_peer add_vrfs add_gobgp_vrf
    get_bgp_vrfs new_bgp_vrf_storage
peers-taken = refl

configure_gobgp-Denies_example :
    ((configure_gobgp server sprint tagged peers vrfs counts fresh_server).0 ≡ none)
    × ((ip : String) (len : ℕ)
        → len ≤ 32
        → server_laws.exports
            (configure_gobgp server sprint tagged peers vrfs counts fresh_server).2
            ip
            len
          ≡ action_for launch ip len)
configure_gobgp-Denies_example =
    configure_gobgp-Denies assoc_laws 5 launch peers peers-IsConfigured server_laws peer_laws sprint
      tagged vrfs counts fresh_server (λ j. refl) (λ j. refl) (λ j. refl) peers-HasNames vrfs-taken
      peers-taken
