-- ===== src/App/Bgp/Exports.antt =====
-- What the BGP server sends to the peers of the storage after ConfigureGoBGP
-- (internal/app/init_gobgp.go).
use cloudgw.App.Bgp.{hosts_of, add_vrfs, add_peers, configure_peers, configure_gobgp, Counts}
use cloudgw.Gobgp.Policy.Filters.{create_gobgp_policy-Filters}
use cloudgw.Gobgp.Policy.Names.{IsAcceptable}
use cloudgw.Gobgp.Policy.Meaning.{PolicyLaws, is_host_in}
use cloudgw.Gobgp.Server.{
  BgpControl, VrfMessage, PeerMessage, vrf_message, peer_message, add_gobgp_vrf, gobgp_add_bgp_peer,
  RouteAction, accept, reject,
}
use cloudgw.Imdb.BgpPeers.{BgpPeerStorage, get_bgp_peers}
use cloudgw.Imdb.BgpVrfs.{BgpVrfStorage, get_bgp_vrfs}
use cloudgw.Imdb.Memdb.{MemDb, Error}
use cloudgw.Model.Peer.{BgpPeer, tf, phynet}
use cloudgw.Model.Vrf.{BgpVrfTable}
use text.Mathlib.TextLemmas.{append_cancel_right}
use cloudgw.Prelude.{
  Bool, Bool-cases, List, Option-cases, String, [], ap, arith, eq_iff, false, if◌then◌else◌, inl,
  inr, leb, none, refl, string_append, ℕ, ◌&&◌, ◌==◌, ◌||◌, ◌∙◌, ◌∷◌, ◌≡◌, nat_Eq, string_Eq,
  Option, ◌≤◌,
}

-- One of the peers has the type and the address.
abbrev pub has_peer : ℕ → String → List BgpPeer → Bool
has_peer type ip [] = false
has_peer type ip (peer ∷ peers) =
    (peer.peer_type == type && peer.peer_address == ip) || has_peer type ip peers

same_host : (a b : String) → (string_append a "/32" == string_append b "/32") ≡ (a == b)
same_host a b = elim (Bool-cases (a == b)) [
  | inl e ↦ rw e ((eq_iff _ _).1 (ap (λ (x : String). string_append x "/32") ((eq_iff a b).0 e)))
  | inr e ↦ elim (Bool-cases (string_append a "/32" == string_append b "/32")) [
    | inl f ↦ absurd (cc ((eq_iff a b).1 (append_cancel_right a b "/32" ((eq_iff _ _).0 f)), e))
    | inr f ↦ rw (e, f) refl
  ]
]

is_host_in-hosts_of :
    (type : ℕ) (ip : String) (peers : List BgpPeer)
    → is_host_in ip (hosts_of type peers) ≡ has_peer type ip peers
unfolding hosts_of
is_host_in-hosts_of type ip [] = refl
is_host_in-hosts_of type ip (peer ∷ peers) = elim (Bool-cases (peer.peer_type == type)) [
  | inl e ↦
      rw (e, same_host peer.peer_address ip, ← is_host_in-hosts_of type ip peers) (ground arith)
  | inr e ↦ rw (e, ← is_host_in-hosts_of type ip peers) refl
]

-- The routes that are meant for each address, by the peers.
abbrev pub intended_for : List BgpPeer → String → ℕ → RouteAction
intended_for peers ip len =
    if has_peer phynet ip peers && (len == 32 || len == 0)
    then reject
    else if has_peer tf ip peers && leb 1 len
    then reject
    else accept

-- Tables and peers have nothing to do with sets, statements and policies.
pub record PeerLaws {c : BgpControl} (laws : PolicyLaws c) : Type 0 where
  pub sets-add_vrf :
      (v : VrfMessage) (conn : BgpControl.Conn c) (j : String)
      → laws.sets (BgpControl.add_vrf c v conn).1 j ≡ laws.sets conn j
  pub knows-add_vrf :
      (v : VrfMessage) (conn : BgpControl.Conn c) (j : String)
      → laws.knows (BgpControl.add_vrf c v conn).1 j ≡ laws.knows conn j
  pub sets-add_peer :
      (p : PeerMessage) (conn : BgpControl.Conn c) (j : String)
      → laws.sets (BgpControl.add_peer c p conn).1 j ≡ laws.sets conn j
  pub knows-add_peer :
      (p : PeerMessage) (conn : BgpControl.Conn c) (j : String)
      → laws.knows (BgpControl.add_peer c p conn).1 j ≡ laws.knows conn j
  pub states-add_vrf :
      (v : VrfMessage) (conn : BgpControl.Conn c) (j : String)
      → laws.states (BgpControl.add_vrf c v conn).1 j ≡ laws.states conn j
  pub states-add_peer :
      (p : PeerMessage) (conn : BgpControl.Conn c) (j : String)
      → laws.states (BgpControl.add_peer c p conn).1 j ≡ laws.states conn j

module _ {c : BgpControl} (laws : PolicyLaws c) (more_laws : PeerLaws laws) where
  open c use {Conn}

  record IsFresh (conn : Conn) : Type 0 where
    pub no_sets : (j : String) → laws.sets conn j ≡ none
    pub no_policies : (j : String) → laws.knows conn j ≡ false
    pub no_statements : (j : String) → laws.states conn j ≡ false

  add_vrfs-IsFresh :
      (vrfs : List BgpVrfTable) (k : Counts) (conn : Conn)
      → IsFresh conn
      → IsFresh (add_vrfs c vrfs k conn).2
  unfolding add_vrfs add_gobgp_vrf
  add_vrfs-IsFresh [] k conn f = f
  add_vrfs-IsFresh (vrf ∷ vrfs) k conn f =
      let f1 : IsFresh (BgpControl.add_vrf c (vrf_message vrf) conn).1 = record {
        no_sets = λ j. more_laws.sets-add_vrf (vrf_message vrf) conn j ∙ f.no_sets j;
        no_policies = λ j. more_laws.knows-add_vrf (vrf_message vrf) conn j ∙ f.no_policies j;
        no_statements = λ j. more_laws.states-add_vrf (vrf_message vrf) conn j ∙ f.no_statements j;
      } in
      elim (Option-cases (BgpControl.add_vrf c (vrf_message vrf) conn).0) [
        | inl e ↦ rw (e, add_vrfs) (add_vrfs-IsFresh vrfs _ _ f1)
        | inr (x, e) ↦ rw (e, add_vrfs) f1
      ]

  add_peers-IsFresh :
      (peers : List BgpPeer) (conn : Conn) → IsFresh conn → IsFresh (add_peers c peers conn).1
  unfolding add_peers gobgp_add_bgp_peer
  add_peers-IsFresh [] conn f = f
  add_peers-IsFresh (peer ∷ peers) conn f =
      let f1 : IsFresh (BgpControl.add_peer c (peer_message peer) conn).1 = record {
        no_sets = λ j. more_laws.sets-add_peer (peer_message peer) conn j ∙ f.no_sets j;
        no_policies = λ j. more_laws.knows-add_peer (peer_message peer) conn j ∙ f.no_policies j;
        no_statements =
            λ j. more_laws.states-add_peer (peer_message peer) conn j ∙ f.no_statements j;
      } in
      elim (Option-cases (BgpControl.add_peer c (peer_message peer) conn).0) [
        | inl e ↦ rw (e, add_peers) (add_peers-IsFresh peers _ f1)
        | inr (x, e) ↦ rw (e, add_peers) f1
      ]

  module _ (sprint : ℕ → String) (md5_hex : String → String) where
    -- The library accepts the names and the addresses of the peers.
    abbrev pub HasNames : List BgpPeer → Type 0
    HasNames peers =
        IsAcceptable laws.is_host sprint md5_hex (hosts_of tf peers) (hosts_of phynet peers)

    abbrev pub Exports : List BgpPeer → Option Error × Conn → Type 0
    Exports peers r =
        (r.0 ≡ none)
        × ((ip : String) (len : ℕ) → len ≤ 32 → laws.exports r.1 ip len ≡ intended_for peers ip len)

    configure_peers-Exports :
        (peers : List BgpPeer) (conn : Conn)
        → IsFresh conn
        → HasNames peers
        → (add_peers c peers conn).0 ≡ none
        → Exports peers (configure_peers c sprint md5_hex peers conn)
    unfolding configure_peers
    configure_peers-Exports peers conn f d e =
        let f1 = add_peers-IsFresh peers conn f in
        let p =
          create_gobgp_policy-Filters c laws sprint md5_hex (hosts_of tf peers)
            (hosts_of phynet peers) (add_peers c peers conn).1 d f1.no_sets f1.no_policies
            f1.no_statements in
        rw (e, configure_peers)
          (
            refl,
            λ ip len h.
                p.1 ip len h
                ∙ rw (is_host_in-hosts_of phynet ip peers, is_host_in-hosts_of tf ip peers) refl,
          )

    module _ {ms : MemDb String} {mn : MemDb ℕ} where
      -- Start with a server that has no sets, statements and policies and that takes the tables and
      -- the peers of the storages, and let the library accept the names and the addresses of the
      -- policy's sets. The configuration returns with no error, and from then on the server sends
      -- to an address the routes that are meant for it: to a stored peer of the physical network no
      -- route to a host and no default route, to a stored controller that is none of these no route
      -- but the default one, and all routes to any other.
      pub configure_gobgp-Exports :
          (peers : BgpPeerStorage ms) (vrfs : BgpVrfStorage mn) (k : Counts) (conn : Conn)
          → ((j : String) → laws.sets conn j ≡ none)
          → ((j : String) → laws.knows conn j ≡ false)
          → ((j : String) → laws.states conn j ≡ false)
          → HasNames (get_bgp_peers ms peers)
          → (add_vrfs c (get_bgp_vrfs mn vrfs) k conn).0 ≡ none
          → (add_peers c (get_bgp_peers ms peers) (add_vrfs c (get_bgp_vrfs mn vrfs) k conn).2).0
            ≡ none
          → ((configure_gobgp c sprint md5_hex peers vrfs k conn).0 ≡ none)
            × ((ip : String) (len : ℕ)
                → len ≤ 32
                → laws.exports (configure_gobgp c sprint md5_hex peers vrfs k conn).2 ip len
                  ≡ intended_for (get_bgp_peers ms peers) ip len)
      unfolding configure_gobgp
      configure_gobgp-Exports peers vrfs k conn s n st d v p =
          let f =
            add_vrfs-IsFresh (get_bgp_vrfs mn vrfs) k conn
              (record { no_sets = s; no_policies = n; no_statements = st }) in
          let r =
            configure_peers-Exports (get_bgp_peers ms peers)
              (add_vrfs c (get_bgp_vrfs mn vrfs) k conn).2 f d p in
          rw (v, configure_gobgp) r
