-- ===== src/App/Bgp/Launched.antt =====
-- The start as a whole: the storage of peers from the configuration, and the BGP server from the
-- storage (initBGPPeerStorage of internal/app/init_imdb.go, ConfigureGoBGP of
-- internal/app/init_gobgp.go).
use cloudgw.App.Bgp.{configure_gobgp, add_vrfs, add_peers, Counts}
use cloudgw.App.Bgp.Exports.{has_peer, intended_for, PeerLaws, HasNames, configure_gobgp-Exports}
use cloudgw.App.Bgp.Stored.{typed, has_peer-typed}
use cloudgw.App.Storages.Peers.{IsConfigured, vrf_at, controller_at}
use cloudgw.Config.{AppConfig}
use cloudgw.Gobgp.Policy.Meaning.{PolicyLaws}
use cloudgw.Gobgp.Server.{BgpControl, RouteAction, accept, reject}
use cloudgw.Imdb.BgpPeers.{BgpPeerStorage, get_bgp_peers, get_bgp_peer, is_tf, is_phynet}
use cloudgw.Imdb.BgpVrfs.{BgpVrfStorage, get_bgp_vrfs}
use cloudgw.Imdb.Memdb.{MemDb, MemDbLaws}
use cloudgw.Imdb.Table.View.{is_some}
use cloudgw.Model.Peer.{tf, phynet}
use cloudgw.Prelude.{
  String, arith, false, if◌then◌else◌, leb, none, not, refl, ℕ, ◌&&◌, ◌==◌, ◌||◌, ◌∙◌, ◌≡◌, ◌≤◌,
  nat_Eq, string_Eq,
}

-- What the configuration means for an address: the router of a VRF, a controller, or another.
abbrev pub action_for : AppConfig → String → ℕ → RouteAction
action_for cfg ip len =
    if is_some (vrf_at cfg ip) && (len == 32 || len == 0)
    then reject
    else if (not (is_some (vrf_at cfg ip)) && is_some (controller_at cfg ip)) && leb 1 len
    then reject
    else accept

module _ {ms : MemDb String} (laws : MemDbLaws ms) (now : ℕ) (cfg : AppConfig)
    (s : BgpPeerStorage ms) (made : IsConfigured laws now cfg s) where
  typed-is_phynet : (ip : String) → typed phynet (get_bgp_peer ms ip s) ≡ is_phynet ms ip s
  unfolding is_phynet get_bgp_peer
  typed-is_phynet ip = ground arith

  typed-is_tf : (ip : String) → typed tf (get_bgp_peer ms ip s) ≡ is_tf ms ip s
  unfolding is_tf get_bgp_peer
  typed-is_tf ip = ground arith

  phynets-listed : (ip : String) → has_peer phynet ip (get_bgp_peers ms s) ≡ is_some (vrf_at cfg ip)
  phynets-listed ip =
      has_peer-typed laws phynet ip s made.valid ∙ typed-is_phynet ip ∙ made.phynets ip

  tfs-listed :
      (ip : String)
      → has_peer tf ip (get_bgp_peers ms s)
        ≡ (not (is_some (vrf_at cfg ip)) && is_some (controller_at cfg ip))
  tfs-listed ip = has_peer-typed laws tf ip s made.valid ∙ typed-is_tf ip ∙ made.tfs ip

  intended_for-action_for :
      (ip : String) (len : ℕ) → intended_for (get_bgp_peers ms s) ip len ≡ action_for cfg ip len
  intended_for-action_for ip len = rw (phynets-listed ip, tfs-listed ip) refl

  module _ {c : BgpControl} (policy_laws : PolicyLaws c) (peer_laws : PeerLaws policy_laws)
      (sprint : ℕ → String) (md5_hex : String → String) {mn : MemDb ℕ} where
    -- Let the storage of peers be as the start makes it from a configuration, let the server have
    -- no sets, statements and policies and take the tables and the peers, and let the library accept
    -- the names and the addresses in the policy, which implies a controller and a router of a VRF.
    -- Then ConfigureGoBGP returns with no error, and from then on the server
    -- sends to the router of a configured VRF no route to a host and no default route, to a
    -- configured controller that is no such router no route but the default one, and every route to
    -- any other address.
    pub configure_gobgp-Denies :
        (vrfs : BgpVrfStorage mn) (k : Counts) (conn : BgpControl.Conn c)
        → ((j : String) → policy_laws.sets conn j ≡ none)
        → ((j : String) → policy_laws.knows conn j ≡ false)
        → ((j : String) → policy_laws.states conn j ≡ false)
        → HasNames policy_laws peer_laws sprint md5_hex (get_bgp_peers ms s)
        → (add_vrfs c (get_bgp_vrfs mn vrfs) k conn).0 ≡ none
        → (add_peers c (get_bgp_peers ms s) (add_vrfs c (get_bgp_vrfs mn vrfs) k conn).2).0 ≡ none
        → ((configure_gobgp c sprint md5_hex s vrfs k conn).0 ≡ none)
          × ((ip : String) (len : ℕ)
              → len ≤ 32
              → policy_laws.exports (configure_gobgp c sprint md5_hex s vrfs k conn).2 ip len
                ≡ action_for cfg ip len)
    configure_gobgp-Denies vrfs k conn n u st d v p =
        let r =
          configure_gobgp-Exports policy_laws peer_laws sprint md5_hex s vrfs k conn n u st d v p in
        (r.0, λ ip len h. r.1 ip len h ∙ intended_for-action_for ip len)
