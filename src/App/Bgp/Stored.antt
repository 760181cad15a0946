-- ===== src/App/Bgp/Stored.antt =====
-- The peers that ConfigureGoBGP (internal/app/init_gobgp.go) is given are those that the storage
-- finds by their addresses.
use cloudgw.App.Bgp.Exports.{has_peer}
use cloudgw.Imdb.BgpPeers.{BgpPeerStorage, get_bgp_peers, get_bgp_peer, bgp_peer_schema}
use cloudgw.Imdb.Memdb.{MemDb, MemDbLaws}
use cloudgw.Imdb.Table.{Schema, Objects, collect, rows, string_index}
use cloudgw.Imdb.Table.Invariant.{IsValid}
use cloudgw.Imdb.Table.View.{get-none, get-filed}
use cloudgw.Model.Peer.{BgpPeer}
use mathlib.Core.Bool.{false≢true}
use mathlib.Core.Option.{some-injective}
use cloudgw.Prelude.{
  Bool, Bool-cases, List, Option, Option-cases, String, [], absent, arith, eq_iff, false, inl, inr,
  nat_eq_iff, none, some, sym, true, ℕ, ◌&&◌, ◌==◌, ◌∙◌, ◌∷◌, ◌≡◌, nat_Eq, string_Eq,
}

abbrev pub typed : ℕ → Option BgpPeer → Bool
typed type none = false
typed type (some peer) = peer.peer_type == type

module _ {K : Type 0} (m : MemDb K) (schema : Schema K BgpPeer) (o : Objects BgpPeer) (type : ℕ)
    (ip : String) where
  has_peer-collect :
      (p : ℕ) (peer : BgpPeer) (l : List ℕ)
      → absent p l ≡ false
      → o.cell p ≡ some peer
      → (peer.peer_type == type) ≡ true
      → (peer.peer_address == ip) ≡ true
      → has_peer type ip (collect m schema l o) ≡ true
  unfolding collect
  has_peer-collect p peer [] h c t a = absurd (cc)
  has_peer-collect p peer (x ∷ l) h c t a =
      ground (arith, has_peer-collect p peer l, nat_eq_iff x p)

  -- The object behind a peer of the list.
  record IsListed (l : List ℕ) : Type 0 where
    pub pointer : ℕ
    pub peer : BgpPeer
    pub within : absent pointer l ≡ false
    pub here : o.cell pointer ≡ some peer
    pub of_type : (peer.peer_type == type) ≡ true
    pub at_ip : (peer.peer_address == ip) ≡ true

  within-cons : (x p : ℕ) (l : List ℕ) → absent p l ≡ false → absent p (x ∷ l) ≡ false
  within-cons x p l h = ground arith

  within-head : (x : ℕ) (l : List ℕ) → absent x (x ∷ l) ≡ false
  within-head x l = ground arith

  later : (x : ℕ) (l : List ℕ) → IsListed l → IsListed (x ∷ l)
  later x l r = record {
    pointer = r.pointer;
    peer = r.peer;
    within = within-cons x r.pointer l r.within;
    here = r.here;
    of_type = r.of_type;
    at_ip = r.at_ip;
  }

  listed : (l : List ℕ) → has_peer type ip (collect m schema l o) ≡ true → IsListed l
  unfolding collect
  listed [] h = absurd (false≢true h)
  listed (x ∷ l) h = elim (Option-cases (o.cell x)) [
    | inl e ↦ later x l (listed l (rw (e, collect) at h))
    | inr (peer, e) ↦ elim (Bool-cases (peer.peer_type == type && peer.peer_address == ip)) [
      | inl t ↦ record {
        pointer = x;
        peer = peer;
        within = within-head x l;
        here = e;
        of_type = ground arith;
        at_ip = ground arith;
      }
      | inr f ↦ later x l (listed l (rw (e, collect, f) at h))
    ]
  ]

module _ {m : MemDb String} (laws : MemDbLaws m) (type : ℕ) (ip : String) (s : BgpPeerStorage m)
    (v : IsValid laws bgp_peer_schema s) where
  index_address : (a k : String) → string_index a ≡ some k → a ≡ k
  index_address a k h = ground arith

  same_row : (p : ℕ) (a b : BgpPeer) → s.objects.cell p ≡ some a → s.objects.cell p ≡ some b → a ≡ b
  same_row p a b h g = some-injective a b (sym h ∙ g)

  -- A peer of the list is the one under its address.
  listed-found :
      has_peer type ip (get_bgp_peers m s) ≡ true → typed type (get_bgp_peer m ip s) ≡ true
  unfolding get_bgp_peers rows get_bgp_peer
  listed-found h =
      let r =
        listed m bgp_peer_schema s.objects type ip (laws.ids s.db)
          (rw (laws.walk_id-ids s.db, rows) at h) in
      let (k, f) = laws.ids_sound r.pointer s.db r.within in
      let filed = v.filed k r.pointer f in
      let same : filed.row ≡ r.peer = same_row r.pointer filed.row r.peer filed.here r.here in
      let at_k : r.peer.peer_address ≡ k =
        index_address r.peer.peer_address k (rw same at filed.indexed) in
      let k_ip : k ≡ ip = sym at_k ∙ (eq_iff r.peer.peer_address ip).0 r.at_ip in
      rw (← k_ip, get-filed laws bgp_peer_schema k r.pointer s v f, same) r.of_type

  found-listed :
      typed type (get_bgp_peer m ip s) ≡ true → has_peer type ip (get_bgp_peers m s) ≡ true
  unfolding get_bgp_peers rows get_bgp_peer
  found-listed h = elim (Option-cases (laws.find ip s.db)) [
    | inl e ↦ absurd (false≢true (rw (get-none laws bgp_peer_schema ip s e) at h))
    | inr (p, e) ↦
        let filed = v.filed ip p e in
        let address : filed.row.peer_address ≡ ip =
          index_address filed.row.peer_address ip filed.indexed in
        rw (laws.walk_id-ids s.db, rows)
          (has_peer-collect m bgp_peer_schema s.objects type ip p filed.row (laws.ids s.db)
            (laws.ids_complete ip p s.db e) filed.here
            (rw (get-filed laws bgp_peer_schema ip p s v e) at h)
            ((eq_iff filed.row.peer_address ip).1 address))
  ]

  -- The list has a peer of the type at an address exactly where the storage has one there.
  pub has_peer-typed : has_peer type ip (get_bgp_peers m s) ≡ typed type (get_bgp_peer m ip s)
  has_peer-typed = elim (Bool-cases (has_peer type ip (get_bgp_peers m s))) [
    | inl e ↦ e ∙ sym (listed-found e)
    | inr e ↦ elim (Bool-cases (typed type (get_bgp_peer m ip s))) [
      | inl f ↦ found-listed f ∙ sym f
      | inr f ↦ e ∙ sym f
    ]
  ]
