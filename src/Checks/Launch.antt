-- ===== src/Checks/Launch.antt =====
-- A configuration with one controller and one VRF, and what the start makes of it (internal/app).
use cloudgw.App.Storages.{init_bgp_peer_storage, init_bgp_vrf_storage, enough_bgp_vrfs, done}
use cloudgw.App.Storages.Filled.{last_with}
use cloudgw.App.Storages.Peers.{configured_peer, IsConfigured, init_bgp_peer_storage-IsConfigured}
use cloudgw.App.Storages.Vrfs.{HasTables, init_bgp_vrf_storage-HasTables}
use cloudgw.Checks.Store.{assoc_db, assoc_laws}
use cloudgw.Checks.Gateway.{plain_net}
use cloudgw.Config.{AppConfig, VrfConfig}
use cloudgw.Imdb.BgpPeers.{BgpPeerStorage}
use cloudgw.Imdb.BgpVrfs.{BgpVrfStorage}
use cloudgw.Imdb.Table.View.{is_some}
use cloudgw.Monitor.{Probe, dead, alive}
use cloudgw.Netutils.Label.{
  mpls_label, mpls_label_bounds, atoi, read_digits, without_dots, label_of,
}
use cloudgw.Prelude.{
  String, [], false, if◌then◌else◌, refl, some, true, ℕ, ◌<◌, ◌==◌, ◌^◌, ◌∷◌, ◌≡◌, ◌≤◌, string_Eq,
  nat_Eq,
}

abbrev pub blue : VrfConfig
blue = record {
  fip_prefixes = "192.0.2.0/24" ∷ [];
  vrf_name = "blue";
  vrf_id = 10;
  local_ip = "10.1.0.254";
  vlan_id = 100;
  bgp_peer_ip = "10.1.0.2";
  bgp_peer_asn = 64514;
  bgp_ttl = 2;
  bgp_keep_alive = 10;
  bgp_hold_timer = 30;
  bgp_password = "";
  bfd_enable = true;
  bfd_local_ip = "10.1.0.254";
  bfd_tx_rate = 300;
  bfd_rx_min = 300;
  bfd_multiplier = 3;
}

abbrev pub launch : AppConfig
launch = record {
  logging = record { level = "info"; format = "text"; output = "stdout"; source = false };
  http = record { enable = true; address = ":8080" };
  pyroscope = record { enable = false; url = "" };
  tf_controller = record {
    bgp_peer_asn = 64512;
    bgp_ttl = 5;
    bgp_keep_alive = 10;
    bgp_hold_timer = 30;
    address = "10.0.0.2" ∷ [];
  };
  gobgp = record {
    grpc_listen_address = ":50051";
    bgp_local_asn = 64513;
    bgp_local_port = 179;
    rid = "10.0.0.1";
    metric_polling_interval = 3;
  };
  vpp = record {
    bin_api_sock = "/run/vpp/api.sock";
    main_interface_id = 1;
    tun_local_ip = "10.0.0.1/24";
    tun_default_gw = "10.0.0.254";
    interface_monitor_enable = true;
    metric_polling_interval = 3;
  };
  vrf = blue ∷ [];
}

pub controller_configured : is_some (configured_peer 5 launch "10.0.0.2") ≡ true
unfolding configured_peer last_with
controller_configured = refl

pub router_configured : is_some (configured_peer 5 launch "10.1.0.2") ≡ true
unfolding configured_peer last_with
router_configured = refl

init_bgp_peer_storage-IsConfigured_example :
    (s : BgpPeerStorage assoc_db) × (init_bgp_peer_storage assoc_db 5 launch ≡ done s)
    × IsConfigured assoc_laws 5 launch s
init_bgp_peer_storage-IsConfigured_example =
    init_bgp_peer_storage-IsConfigured assoc_laws 5 launch "10.0.0.2" "10.1.0.2" refl refl refl
      controller_configured router_configured

init_bgp_vrf_storage-HasTables_example :
    (s : BgpVrfStorage assoc_db) × (init_bgp_vrf_storage assoc_db launch
      ≡ enough_bgp_vrfs assoc_db launch s)
    × HasTables assoc_laws launch s
init_bgp_vrf_storage-HasTables_example = init_bgp_vrf_storage-HasTables assoc_laws launch refl

labelled : mpls_label plain_net "10.1.0.254" ≡ some 1000254
unfolding mpls_label atoi read_digits without_dots label_of
labelled = refl

mpls_label_bounds_example :
    (16 ≤ 1000254) × (990000 < 1000254) × (1000254 < 1010000) × (1000254 < 2 ^ 20)
mpls_label_bounds_example = mpls_label_bounds plain_net "10.1.0.254" 1000254 labelled

-- Pings that find no one until the third.
abbrev pings : ℕ → String → Probe
pings i a = if i == 2 then alive else dead
