-- ===== src/App/Storages/Counted.antt =====
-- Two addresses with a peer give a list of two peers at least, which is what initBGPPeerStorage of
-- internal/app/init_imdb.go asks for.
use mathlib.Core.Bool.{false≢true}
use cloudgw.Imdb.Memdb.{MemDb, MemDbLaws}
use cloudgw.Imdb.BgpPeers.{BgpPeerStorage, get_bgp_peers, get_bgp_peer, bgp_peer_schema}
use cloudgw.Imdb.Table.{Schema, Objects, collect, rows}
use cloudgw.Imdb.Table.Invariant.{IsValid, find_injective}
use cloudgw.Imdb.Table.View.{is_some, get-none}
use cloudgw.Prelude.{
  List, String, [], absent, arith, false, length, nat_eq, nat_eq_iff, true, ℕ, ◌==◌, ◌∷◌, ◌≡◌, ◌≤◌,
  string_Eq, nat_Eq, eq_iff, refl, ◌∙◌, inr, some, Option-cases, inl, Bool-cases, sym,
}

module _ {K Row : Type 0} (m : MemDb K) (schema : Schema K Row) (o : Objects Row) where
  length-collect_one :
      (p : ℕ) (l : List ℕ)
      → absent p l ≡ false
      → is_some (o.cell p) ≡ true
      → 1 ≤ length (collect m schema l o)
  unfolding collect
  length-collect_one p [] h f = cc
  length-collect_one p (x ∷ l) h f = ground (arith, length-collect_one p l, nat_eq_iff x p)

  -- Two objects of a table give a list of two at least.
  length-collect_two :
      (p q : ℕ) (l : List ℕ)
      → nat_eq p q ≡ false
      → absent p l ≡ false
      → absent q l ≡ false
      → is_some (o.cell p) ≡ true
      → is_some (o.cell q) ≡ true
      → 2 ≤ length (collect m schema l o)
  unfolding collect
  length-collect_two p q [] d h g f k = cc
  length-collect_two p q (x ∷ l) d h g f k = ground (
    arith,
    length-collect_two p q l,
    length-collect_one p l,
    length-collect_one q l,
    nat_eq_iff x p,
    nat_eq_iff x q,
    nat_eq_iff p q,
  )

module _ {m : MemDb String} (laws : MemDbLaws m) where
  found :
      (k : String) (s : BgpPeerStorage m)
      → IsValid laws bgp_peer_schema s
      → is_some (get_bgp_peer m k s) ≡ true
      → (p : ℕ) × (laws.find k s.db ≡ some p) × (is_some (s.objects.cell p) ≡ true)
  unfolding get_bgp_peer
  found k s v f = elim (Option-cases (laws.find k s.db)) [
    | inl h ↦ absurd (false≢true (rw (get-none laws bgp_peer_schema k s h) at f))
    | inr (p, h) ↦ (p, h, rw (v.filed k p h).here refl)
  ]

  apart :
      (a b : String) (p q : ℕ) (s : BgpPeerStorage m)
      → IsValid laws bgp_peer_schema s
      → (a == b) ≡ false
      → laws.find a s.db ≡ some p
      → laws.find b s.db ≡ some q
      → nat_eq p q ≡ false
  apart a b p q s v d hp hq = elim (Bool-cases (nat_eq p q)) [
    | inl same ↦ absurd (
        false≢true (
          sym d
          ∙ (eq_iff a b).1
              (find_injective laws bgp_peer_schema s a b p v hp (rw ((nat_eq_iff p q).0 same) hq))))
    | inr other ↦ other
  ]

  pub length-get_bgp_peers :
      (a b : String) (s : BgpPeerStorage m)
      → IsValid laws bgp_peer_schema s
      → (a == b) ≡ false
      → is_some (get_bgp_peer m a s) ≡ true
      → is_some (get_bgp_peer m b s) ≡ true
      → 2 ≤ length (get_bgp_peers m s)
  unfolding get_bgp_peers rows
  length-get_bgp_peers a b s v d f g =
      let (p, hp, cp) = found a s v f in
      let (q, hq, cq) = found b s v g in
      rw (laws.walk_id-ids s.db, rows)
        (length-collect_two m bgp_peer_schema s.objects p q (laws.ids s.db)
          (apart a b p q s v d hp hq) (laws.ids_complete a p s.db hp)
          (laws.ids_complete b q s.db hq) cp cq)
