-- ===== src/Govpp.antt =====
-- Messages of the forwarder's API (the binapi packages of govpp) that the set up of the forwarder
-- and the dumps of its tables send and read (internal/repository/vpp/vpp.go). A text in a reply is
-- what `String()` prints, and an error is what its return value stands for.
use cloudgw.Prelude.{Bool, List, Option, String, none, some, ℕ, ◌==◌, nat_Eq}
use cloudgw.Imdb.Memdb.{Error}

pub data PathType : Type 0 where
  udp_encap normal other_type : PathType

abbrev pub is_encap : PathType → Bool
is_encap udp_encap = Bool.true
is_encap _ = Bool.false

abbrev pub is_normal : PathType → Bool
is_normal normal = Bool.true
is_normal _ = Bool.false

-- A path of a dumped route: `LabelStack[0].Label` is its label.
pub record DumpedPath : Type 0 where
  pub path_type : PathType
  pub sw_if_index : ℕ
  pub next_hop : String
  pub obj_id : ℕ
  pub label : ℕ

pub record DumpedRoute : Type 0 where
  pub table_id : ℕ
  pub prefix : String
  pub paths : List DumpedPath

pub record IpTable : Type 0 where
  pub table_id : ℕ
  pub is_ip6 : Bool
  pub name : String

-- The requests whose reply carries a return value only.
pub data Kind : Type 0 where
  mpls_table_add_del sw_interface_add_del_address sw_interface_set_flags : Kind
  sw_interface_set_mpls_enable ip_table_add_del sw_interface_set_table delete_subif : Kind
  udp_decap_add_del mpls_route_add_del : Kind

abbrev pub kind_number : Kind → ℕ
kind_number mpls_table_add_del = 0
kind_number sw_interface_add_del_address = 1
kind_number sw_interface_set_flags = 2
kind_number sw_interface_set_mpls_enable = 3
kind_number ip_table_add_del = 4
kind_number sw_interface_set_table = 5
kind_number delete_subif = 6
kind_number udp_decap_add_del = 7
kind_number mpls_route_add_del = 8

abbrev pub same_kind : Kind → Kind → Bool
same_kind a b = kind_number a == kind_number b

-- The requests, with the fields that are not constants.
pub data SetupRequest (A P : Type 0) : Type 0 where
  show_version sw_interface_dump udp_encap_dump ip_table_dump mpls_route_dump : SetupRequest A P
  control_ping udp_decap : SetupRequest A P
  ip_route_dump : IpTable → SetupRequest A P
  mpls_table : Bool → SetupRequest A P
  -- the interface, and the address that is added; or all addresses are deleted
  add_address : ℕ → P → SetupRequest A P
  del_addresses : ℕ → SetupRequest A P
  set_flags : ℕ → ℕ → SetupRequest A P
  enable_mpls : ℕ → SetupRequest A P
  ip_table : Bool → ℕ → String → SetupRequest A P
  create_vlan_subif : ℕ → ℕ → SetupRequest A P
  set_table : ℕ → ℕ → SetupRequest A P
  del_subif : ℕ → SetupRequest A P
  ip_route_lookup : ℕ → P → SetupRequest A P
  -- the label, the interface and the next hop
  mpls_route : Bool → ℕ → ℕ → A → SetupRequest A P
  -- a route to the null interface
  null_route : ℕ → P → SetupRequest A P

-- The reply that a request has, where it is one with a return value only.
abbrev pub kind_of : {A P : Type 0} → SetupRequest A P → Option Kind
kind_of (mpls_table _) = some mpls_table_add_del
kind_of (add_address _ _) = some sw_interface_add_del_address
kind_of (del_addresses _) = some sw_interface_add_del_address
kind_of (set_flags _ _) = some sw_interface_set_flags
kind_of (enable_mpls _) = some sw_interface_set_mpls_enable
kind_of (ip_table _ _ _) = some ip_table_add_del
kind_of (set_table _ _) = some sw_interface_set_table
kind_of (del_subif _) = some delete_subif
kind_of udp_decap = some udp_decap_add_del
kind_of (mpls_route _ _ _ _) = some mpls_route_add_del
kind_of _ = none

pub data SetupReply : Type 0 where
  acknowledged : Kind → Option Error → SetupReply
  show_version_reply : Option Error → String → SetupReply
  create_vlan_subif_reply : Option Error → ℕ → SetupReply
  ip_route_lookup_reply : Option Error → DumpedRoute → SetupReply
  sw_interface_details : ℕ → SetupReply
  -- the number, the two addresses and the source port
  udp_encap_details : ℕ → String → String → ℕ → SetupReply
  ip_table_details : IpTable → SetupReply
  ip_route_details : DumpedRoute → SetupReply
  mpls_route_details : ℕ → SetupReply
  control_ping_reply : SetupReply
