-- ===== src/Model/Nlri.antt =====
-- The attributes of a BGP prefix (pkg/gobgpapi/gobgp_struct.go). The families are constants.
use cloudgw.Prelude.{List, Option, [], none, ℕ, String}
use cloudgw.Model.Vrf.{RouteDistinguisher, RouteTarget}

pub record BgpNlriAttrs : Type 0 where
  pub prefix : String
  pub next_hop : String
  pub vrf_id : ℕ
  pub rd : Option RouteDistinguisher
  pub rt : List RouteTarget
  pub mpls_label : List ℕ

unfoldable pub new_bgp_nlri_attrs :
    String → String → ℕ → Option RouteDistinguisher → List RouteTarget → List ℕ → BgpNlriAttrs
new_bgp_nlri_attrs prefix next_hop vrf_id dist targets labels = record {
  prefix = prefix;
  next_hop = next_hop;
  vrf_id = vrf_id;
  rd = dist;
  rt = targets;
  mpls_label = labels;
}

-- The zero value, returned beside an error or for an update that is skipped.
abbrev pub zero_nlri_attrs : BgpNlriAttrs
zero_nlri_attrs = record {
  prefix = "";
  next_hop = "";
  vrf_id = 0;
  rd = none;
  rt = [];
  mpls_label = [];
}
