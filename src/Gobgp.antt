-- ===== src/Gobgp.antt =====
-- Prefixes in the tables of the BGP server (AdvWdrawVpnv4Prefix of
-- internal/repository/gobgp/gobgp.go). The server of the library is a parameter.
pub mod Server
pub mod Policy
use cloudgw.Model.Nlri.{BgpNlriAttrs}
use cloudgw.Model.Vrf.{RouteTarget, RouteDistinguisher}
use cloudgw.Netutils.{NetApi, addr, mask_len}
use cloudgw.Imdb.Memdb.{Error}
use cloudgw.Prelude.{
  List, Option, Outcome, String, [], if◌then◌else◌, index, ℕ, ◌>>=◌, ◌∷◌, ok, Bool,
}

-- The path, without the attributes that are constants: the origin, the metric, the local
-- preference, the type of tunnel and the families.
pub record VpnPath : Type 0 where
  pub labels : List ℕ
  pub path_rd : Option RouteDistinguisher
  pub prefix : String
  pub prefix_len : ℕ
  pub target : RouteTarget
  pub next_hop : String
  pub as_path : List ℕ

pub record BgpApi : Type 1 where
  pub Server : Type 0
  pub add_path : VpnPath → Server → Option Error × Server
  pub delete_path : VpnPath → Server → Option Error × Server

module _ (n : NetApi) (b : BgpApi) where
  open b use {Server, add_path, delete_path}

  -- The path that is built; `rt[0]` is indexed.
  unfoldable pub vpn_path : BgpNlriAttrs → ℕ → Outcome VpnPath
  vpn_path attrs source_asn = do
    target ← index attrs.rt 0
    ok (record {
      labels = attrs.mpls_label;
      path_rd = attrs.rd;
      prefix = addr n attrs.prefix;
      prefix_len = mask_len n attrs.prefix;
      target = target;
      next_hop = attrs.next_hop;
      as_path = source_asn ∷ [];
    })

  unfoldable pub adv_wdraw_vpnv4_prefix :
      Bool → BgpNlriAttrs → ℕ → Server → Outcome (Option Error × Server)
  unfolding vpn_path
  adv_wdraw_vpnv4_prefix is_advertise attrs source_asn srv = do
    path ← vpn_path attrs source_asn
    ok (if is_advertise then add_path path srv else delete_path path srv)
