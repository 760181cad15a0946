-- ===== src/App/Storages/Complete.antt =====
-- The peers that internal/app/init_imdb.go makes have the index of the storage and their types.
use cloudgw.App.Storages.{done, failed_bgp_peer, tf_peer, phynet_peer}
use cloudgw.App.Storages.Filled.{placed, AreComplete}
use cloudgw.Config.{TfController, VrfConfig}
use cloudgw.Imdb.Memdb.{MemDb, MemDbLaws}
use cloudgw.Imdb.BgpPeers.{bgp_peer_schema}
use cloudgw.Imdb.Table.{string_index}
use cloudgw.Imdb.Table.View.{is_some}
use cloudgw.Model.Peer.{new_bgp_peer, phynet, tf}
use cloudgw.Prelude.{
  List, Option, String, [], absent, arith, false, map, none, not, true, ℕ, ◌&&◌, ◌==◌, ◌∷◌, ◌≡◌,
  string_Eq, nat_Eq, refl, some,
}

string_index-some : (ip : String) → not (ip == "") ≡ true → string_index ip ≡ some ip
string_index-some ip h = ground arith

tf_indexed :
    (cfg : TfController) (now : ℕ) (ip : String)
    → not (ip == "") ≡ true
    → string_index (tf_peer cfg now ip).peer_address ≡ some ip
unfolding tf_peer new_bgp_peer
tf_indexed cfg now ip h = string_index-some ip h

phynet_indexed :
    (now : ℕ) (vrf : VrfConfig)
    → not (vrf.bgp_peer_ip == "") ≡ true
    → string_index (phynet_peer now vrf).peer_address ≡ some vrf.bgp_peer_ip
unfolding phynet_peer new_bgp_peer
phynet_indexed now vrf h = string_index-some vrf.bgp_peer_ip h

pub tf_complete :
    {m : MemDb String} (laws : MemDbLaws m) (cfg : TfController) (now : ℕ) (ips : List String)
    → absent "" ips ≡ true
    → AreComplete laws bgp_peer_schema
        (λ ip. done (tf_peer cfg now ip))
        (tf_peer cfg now)
        (λ (a : String). a)
        (λ ip e. failed_bgp_peer ip e)
        ips
tf_complete laws cfg now [] h = tt
tf_complete laws cfg now (ip ∷ ips) h = (
  record { made = refl; indexed = tf_indexed cfg now ip (ground arith); complete = refl },
  tf_complete laws cfg now ips (ground arith),
)

pub phynet_complete :
    {m : MemDb String} (laws : MemDbLaws m) (now : ℕ) (vrfs : List VrfConfig)
    → absent "" (map (λ (vrf : VrfConfig). vrf.bgp_peer_ip) vrfs) ≡ true
    → AreComplete laws bgp_peer_schema
        (λ vrf. done (phynet_peer now vrf))
        (phynet_peer now)
        (λ (vrf : VrfConfig). vrf.bgp_peer_ip)
        (λ vrf e. failed_bgp_peer vrf.bgp_peer_ip e)
        vrfs
phynet_complete laws now [] h = tt
phynet_complete laws now (vrf ∷ vrfs) h = (
  record { made = refl; indexed = phynet_indexed now vrf (ground arith); complete = refl },
  phynet_complete laws now vrfs (ground arith),
)

pub phynet_of_placed :
    (now : ℕ) (cfg : TfController) (v : Option VrfConfig) (c : Option String)
    → (elim (placed (phynet_peer now) v (placed (tf_peer cfg now) c none)) [
      | none ↦ false
      | some peer ↦ peer.peer_type == phynet
    ])
      ≡ is_some v
unfolding phynet_peer tf_peer new_bgp_peer
phynet_of_placed now cfg none none = refl
phynet_of_placed now cfg none (some a) = refl
phynet_of_placed now cfg (some vrf) c = refl

pub tf_of_placed :
    (now : ℕ) (cfg : TfController) (v : Option VrfConfig) (c : Option String)
    → (elim (placed (phynet_peer now) v (placed (tf_peer cfg now) c none)) [
      | none ↦ false
      | some peer ↦ peer.peer_type == tf
    ])
      ≡ (not (is_some v) && is_some c)
unfolding phynet_peer tf_peer new_bgp_peer
tf_of_placed now cfg none none = refl
tf_of_placed now cfg none (some a) = refl
tf_of_placed now cfg (some vrf) c = refl
