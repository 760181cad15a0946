-- ===== src/App/Storages/Peers.antt =====
-- The storage of BGP peers at the start (initBGPPeerStorage of internal/app/init_imdb.go).
use cloudgw.App.Storages.{
  done, failed_bgp_peer, init_bgp_peer_storage, add_tf_peers, add_phynet_peers, enough_peers,
  tf_peer, phynet_peer,
}
use cloudgw.App.Storages.Filled.{last_with, placed, fill-IsFilled, IsFilled}
use cloudgw.App.Storages.Counted.{length-get_bgp_peers}
use cloudgw.App.Storages.Complete.{tf_complete, phynet_complete, tf_of_placed, phynet_of_placed}
use cloudgw.Config.{AppConfig, VrfConfig}
use cloudgw.Imdb.Memdb.{MemDb, MemDbLaws}
use cloudgw.Imdb.BgpPeers.{
  BgpPeerStorage, new_bgp_peer_storage, add_bgp_peer, get_bgp_peers, get_bgp_peer, is_tf, is_phynet,
  bgp_peer_schema,
}
use cloudgw.Imdb.Table.{new_store}
use cloudgw.Imdb.Table.Invariant.{IsValid, new_store-IsValid}
use cloudgw.Imdb.Table.View.{is_some, get-new_store}
use cloudgw.Model.Peer.{BgpPeer}
use cloudgw.Prelude.{
  List, Option, String, absent, arith, false, length, map, none, not, true, ℕ, ◌&&◌, ◌==◌, ◌≡◌, ◌≤◌,
  string_Eq, nat_Eq, refl, ◌∙◌,
}

-- The peer that the configuration gives an address: that of the last VRF with it, or else the
-- controller with it.
unfoldable pub configured_peer : ℕ → AppConfig → String → Option BgpPeer
configured_peer now cfg ip =
    placed (phynet_peer now) (last_with (λ (vrf : VrfConfig). vrf.bgp_peer_ip) ip cfg.vrf) (
      placed (tf_peer cfg.tf_controller now)
        (last_with (λ (a : String). a) ip cfg.tf_controller.address) none)

abbrev pub peer_ips : AppConfig → List String
peer_ips cfg = map (λ (vrf : VrfConfig). vrf.bgp_peer_ip) cfg.vrf

abbrev pub vrf_at : AppConfig → String → Option VrfConfig
vrf_at cfg ip = last_with (λ (vrf : VrfConfig). vrf.bgp_peer_ip) ip cfg.vrf

abbrev pub controller_at : AppConfig → String → Option String
controller_at cfg ip = last_with (λ (a : String). a) ip cfg.tf_controller.address

module _ {m : MemDb String} (laws : MemDbLaws m) (now : ℕ) (cfg : AppConfig) where
  -- The storage has the configured peers, and tells the two types apart.
  pub record IsConfigured (s : BgpPeerStorage m) : Type 0 where
    pub valid : IsValid laws bgp_peer_schema s
    pub holds : (ip : String) → get_bgp_peer m ip s ≡ configured_peer now cfg ip
    pub phynets :
        (ip : String)
        → is_phynet m ip s ≡ is_some (last_with (λ (vrf : VrfConfig). vrf.bgp_peer_ip) ip cfg.vrf)
    pub tfs :
        (ip : String)
        → is_tf m ip s ≡ (
            not (is_some (last_with (λ (vrf : VrfConfig). vrf.bgp_peer_ip) ip cfg.vrf))
            && is_some (last_with (λ (a : String). a) ip cfg.tf_controller.address))

  enough_peers-done :
      (s : BgpPeerStorage m) → 2 ≤ length (get_bgp_peers m s) → enough_peers m now cfg s ≡ done s
  unfolding enough_peers
  enough_peers-done s h = ground arith

  filled-IsConfigured :
      (s : BgpPeerStorage m)
      → IsValid laws bgp_peer_schema s
      → ((ip : String) → get_bgp_peer m ip s ≡ configured_peer now cfg ip)
      → IsConfigured s
  unfolding get_bgp_peer is_phynet is_tf configured_peer
  filled-IsConfigured s v h = record {
    valid = v;
    holds = h;
    phynets = λ ip.
        rw (h ip, is_phynet)
          (phynet_of_placed now cfg.tf_controller (vrf_at cfg ip) (controller_at cfg ip));
    tfs = λ ip.
        rw (h ip, is_tf)
          (tf_of_placed now cfg.tf_controller (vrf_at cfg ip) (controller_at cfg ip));
  }

  -- The two loops, one after the other.
  controllers_filled :
      absent "" cfg.tf_controller.address ≡ true
      → IsFilled laws bgp_peer_schema
          (λ ip. done (tf_peer cfg.tf_controller now ip))
          (tf_peer cfg.tf_controller now)
          (λ (ip : String). ip)
          (λ ip e. failed_bgp_peer ip e)
          cfg.tf_controller.address
          (new_store m bgp_peer_schema)
  controllers_filled t =
      fill-IsFilled laws bgp_peer_schema (λ ip. done (tf_peer cfg.tf_controller now ip))
        (tf_peer cfg.tf_controller now) (λ (ip : String). ip) (λ ip e. failed_bgp_peer ip e)
        cfg.tf_controller.address (new_store m bgp_peer_schema)
        (new_store-IsValid laws bgp_peer_schema)
        (tf_complete laws cfg.tf_controller now cfg.tf_controller.address t)

  phynets_filled :
      absent "" (peer_ips cfg) ≡ true
      → (s : BgpPeerStorage m) → IsValid laws bgp_peer_schema s
      → IsFilled laws bgp_peer_schema
          (λ vrf. done (phynet_peer now vrf))
          (phynet_peer now)
          (λ (vrf : VrfConfig). vrf.bgp_peer_ip)
          (λ vrf e. failed_bgp_peer vrf.bgp_peer_ip e)
          cfg.vrf
          s
  phynets_filled p s v =
      fill-IsFilled laws bgp_peer_schema (λ vrf. done (phynet_peer now vrf)) (phynet_peer now)
        (λ (vrf : VrfConfig). vrf.bgp_peer_ip) (λ vrf e. failed_bgp_peer vrf.bgp_peer_ip e) cfg.vrf
        s v (phynet_complete laws now cfg.vrf p)

  fills_controllers :
      (t : absent "" cfg.tf_controller.address ≡ true)
      → add_tf_peers m now cfg cfg.tf_controller.address (new_bgp_peer_storage m)
        ≡ done (controllers_filled t).after
  unfolding add_tf_peers new_bgp_peer_storage add_bgp_peer
  fills_controllers t = (controllers_filled t).fills

  fills_phynets :
      (p : absent "" (peer_ips cfg) ≡ true) (s : BgpPeerStorage m)
      (v : IsValid laws bgp_peer_schema s)
      → add_phynet_peers m now cfg cfg.vrf s ≡ done (phynets_filled p s v).after
  unfolding add_phynet_peers add_bgp_peer
  fills_phynets p s v = (phynets_filled p s v).fills

  holds_both :
      (t : absent "" cfg.tf_controller.address ≡ true) (p : absent "" (peer_ips cfg) ≡ true)
      (ip : String)
      → get_bgp_peer m ip
          (phynets_filled p (controllers_filled t).after (controllers_filled t).valid).after
        ≡ configured_peer now cfg ip
  unfolding get_bgp_peer configured_peer
  holds_both t p ip =
      (phynets_filled p (controllers_filled t).after (controllers_filled t).valid).holds ip
      ∙ rw ((controllers_filled t).holds ip, get-new_store laws bgp_peer_schema ip) refl

  made :
      (s1 s2 : BgpPeerStorage m)
      → add_tf_peers m now cfg cfg.tf_controller.address (new_bgp_peer_storage m) ≡ done s1
      → add_phynet_peers m now cfg cfg.vrf s1 ≡ done s2
      → enough_peers m now cfg s2 ≡ done s2
      → init_bgp_peer_storage m now cfg ≡ done s2
  unfolding init_bgp_peer_storage
  made s1 s2 x y z = rw (x, y, z) refl

  -- Where no address of a controller or of a router is empty, and two different ones are
  -- configured, the storage is made. It holds under each address the peer of the last VRF that has
  -- it, or else the controller with it, and nothing else; the peers of the VRFs
  -- are the physical ones, and the controllers that are no such peers the others.
  pub init_bgp_peer_storage-IsConfigured :
      (a b : String)
      → absent "" cfg.tf_controller.address ≡ true
      → absent "" (peer_ips cfg) ≡ true
      → (a == b) ≡ false
      → is_some (configured_peer now cfg a) ≡ true
      → is_some (configured_peer now cfg b) ≡ true
      → (s : BgpPeerStorage m) × (init_bgp_peer_storage m now cfg ≡ done s) × IsConfigured s
  init_bgp_peer_storage-IsConfigured a b t p d f g =
      let r = controllers_filled t in
      let q = phynets_filled p r.after r.valid in
      let holds = holds_both t p in
      let enough =
        length-get_bgp_peers laws a b q.after q.valid d (rw (holds a) f) (rw (holds b) g) in
      (
        q.after,
        made r.after q.after (fills_controllers t) (fills_phynets p r.after r.valid)
            (enough_peers-done q.after enough),
        filled-IsConfigured q.after q.valid holds,
      )
