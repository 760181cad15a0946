-- ===== src/Model/Vrf.antt =====
-- Routing tables of the forwarder and of the BGP server (internal/model/vpp_vrf.go and
-- internal/model/bgp_vrf.go). An `anypb.Any` is the message that it wraps.
use cloudgw.Prelude.{Bool, List, true, ℕ, ◌-◌, ◌^◌, String}

pub record VppVrfTable : Type 0 where
  pub name : String
  pub id : ℕ
  pub main_interface_id : ℕ
  pub sub_interface_id : ℕ
  pub vlan : ℕ
  pub local_addr : String
  pub local_addr_len : ℕ
  pub next_hop : String
  pub mpls_local_label : ℕ
  pub fip_prefixes : List String
  pub fip_served : ℕ

abbrev pub undefined_sub_if : ℕ
undefined_sub_if = 2 ^ 32 - 1

abbrev pub undefined_label : ℕ
undefined_label = 0

unfoldable pub new_vpp_vrf_table :
    String → ℕ → ℕ → ℕ → ℕ → String → ℕ → String → ℕ → List String → VppVrfTable
new_vpp_vrf_table name id main_if sub_if vlan addr addr_len next_hop label prefixes = record {
  name = name;
  id = id;
  main_interface_id = main_if;
  sub_interface_id = sub_if;
  vlan = vlan;
  local_addr = addr;
  local_addr_len = addr_len;
  next_hop = next_hop;
  mpls_local_label = label;
  fip_prefixes = prefixes;
  fip_served = 0;
}

-- RouteDistinguisherIPAddress and TwoOctetAsSpecificExtended of the BGP library.
pub record RouteDistinguisher : Type 0 where
  pub admin : String
  pub assigned : ℕ

pub record RouteTarget : Type 0 where
  pub is_transitive : Bool
  pub sub_type : ℕ
  pub asn : ℕ
  pub local_admin : ℕ

unfoldable pub rd : String → ℕ → RouteDistinguisher
rd router_id vrf_id = record { admin = router_id; assigned = vrf_id }

unfoldable pub rt : ℕ → ℕ → RouteTarget
rt asn vrf_id = record { is_transitive = true; sub_type = 2; asn = asn; local_admin = vrf_id }

pub record BgpVrfTable : Type 0 where
  pub name : String
  pub id : ℕ
  pub local_asn : ℕ
  pub peer_asn : ℕ
  pub rd : RouteDistinguisher
  pub export_rt : List RouteTarget
  pub import_rt : List RouteTarget

unfoldable pub new_bgp_vrf_table :
    String → ℕ → ℕ → ℕ → RouteDistinguisher → List RouteTarget → List RouteTarget → BgpVrfTable
new_bgp_vrf_table name id local_asn peer_asn dist export_rt import_rt = record {
  name = name;
  id = id;
  local_asn = local_asn;
  peer_asn = peer_asn;
  rd = dist;
  export_rt = export_rt;
  import_rt = import_rt;
}
