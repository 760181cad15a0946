-- ===== src/Gobgpapi/Listed.antt =====
-- The loop over the peers of the BGP server (GetGoBGPPeersByAPI of pkg/gobgpapi/gobgp_api.go).
use cloudgw.Gobgp.Server.{BgpControl, PeerMessage, Received, end_of_list, received, unreceived}
use cloudgw.Gobgpapi.{Listing, get_gobgp_peers_by_api, listed, recv_peers, refused}
use cloudgw.Imdb.Memdb.{Error, value}
use cloudgw.Prelude.{
  append_assoc, append_nil, List, Option, none, some, [], arith, length, refl, suc, zero, ℕ, ◌++◌,
  ◌<◌, ◌∷◌, ◌≡◌, ap, sym, ◌∙◌,
}

-- What the stream delivers last: io.EOF, or another error.
abbrev last_message : Option Error → Received
last_message none = end_of_list
last_message (some e) = unreceived e

-- What the call returns for a stream of these peers and this last message.
abbrev pub listing : Option Error → List PeerMessage → Listing
listing none peers = listed peers
listing (some e) peers = refused e

listing-append :
    (e : Option Error) (ps qs rs : List PeerMessage)
    → listing e ((ps ++ qs) ++ rs) ≡ listing e (ps ++ (qs ++ rs))
listing-append e ps qs rs = ap (listing e) (append_assoc ps qs rs)

module _ (c : BgpControl) where
  open c use {Conn, Peers, list_peer, recv}

  -- The stream delivers the peers and then its last message.
  abbrev Delivers : Option Error → List PeerMessage → Peers → Type 0
  Delivers e [] st = (recv st).0 ≡ last_message e
  Delivers e (p ∷ ps) st = ((recv st).0 ≡ received p) × Delivers e ps (recv st).1

  recv_peers-ends :
      (e : Option Error) (ps acc : List PeerMessage) (fuel : ℕ) (st : Peers)
      → Delivers e ps st
      → length ps < fuel
      → recv_peers c fuel acc st ≡ listing e (acc ++ ps)
  unfolding recv_peers
  recv_peers-ends e ps acc zero st d h = absurd (omega (arith, h))
  recv_peers-ends none [] acc (suc fuel) st d h =
      rw (d, recv_peers) (ap listed (sym (append_nil acc)))
  recv_peers-ends (some e) [] acc (suc fuel) st d h = rw (d, recv_peers) refl
  recv_peers-ends e (p ∷ ps) acc (suc fuel) st d h =
      rw (d.0, recv_peers)
        (recv_peers-ends e ps (acc ++ p ∷ []) fuel (recv st).1 d.1 (omega (arith, h))
          ∙ listing-append e acc (p ∷ []) ps)

  -- Where the server's stream delivers peers and then ends or fails, the call with fuel above their
  -- number returns: all these peers in their order where it ended, and the error, without the peers
  -- read before it, where it failed.
  pub get_gobgp_peers_by_api-ends :
      (conn : Conn) (st : Peers) (e : Option Error) (ps : List PeerMessage) (fuel : ℕ)
      → list_peer conn ≡ value st
      → Delivers e ps st
      → length ps < fuel
      → get_gobgp_peers_by_api c fuel conn ≡ listing e ps
  unfolding get_gobgp_peers_by_api
  get_gobgp_peers_by_api-ends conn st e ps fuel l d h =
      rw (get_gobgp_peers_by_api, l) (recv_peers-ends e ps [] fuel st d h)
