-- ===== src/Config.antt =====
-- The configuration (internal/config/config.go), as the library reads it from the file. An `int` is
-- taken as not negative.
use cloudgw.Prelude.{Bool, List, String, ℕ}

pub record Logging : Type 0 where
  pub level : String
  pub format : String
  pub output : String
  pub source : Bool

pub record Http : Type 0 where
  pub enable : Bool
  pub address : String

pub record Pyroscope : Type 0 where
  pub enable : Bool
  pub url : String

pub record TfController : Type 0 where
  pub bgp_peer_asn : ℕ
  pub bgp_ttl : ℕ
  pub bgp_keep_alive : ℕ
  pub bgp_hold_timer : ℕ
  pub address : List String

pub record GobgpConfig : Type 0 where
  pub grpc_listen_address : String
  pub bgp_local_asn : ℕ
  pub bgp_local_port : ℕ
  pub rid : String
  pub metric_polling_interval : ℕ

pub record VppConfig : Type 0 where
  pub bin_api_sock : String
  pub main_interface_id : ℕ
  pub tun_local_ip : String
  pub tun_default_gw : String
  pub interface_monitor_enable : Bool
  pub metric_polling_interval : ℕ

pub record VrfConfig : Type 0 where
  pub fip_prefixes : List String
  pub vrf_name : String
  pub vrf_id : ℕ
  pub local_ip : String
  pub vlan_id : ℕ
  pub bgp_peer_ip : String
  pub bgp_peer_asn : ℕ
  pub bgp_ttl : ℕ
  pub bgp_keep_alive : ℕ
  pub bgp_hold_timer : ℕ
  pub bgp_password : String
  pub bfd_enable : Bool
  pub bfd_local_ip : String
  pub bfd_tx_rate : ℕ
  pub bfd_rx_min : ℕ
  pub bfd_multiplier : ℕ

pub record AppConfig : Type 0 where
  pub logging : Logging
  pub http : Http
  pub pyroscope : Pyroscope
  pub tf_controller : TfController
  pub gobgp : GobgpConfig
  pub vpp : VppConfig
  pub vrf : List VrfConfig
