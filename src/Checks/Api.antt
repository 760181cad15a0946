-- ===== src/Checks/Api.antt =====
-- A server whose API delivers two peers (pkg/gobgpapi/gobgp_api.go).
use cloudgw.Checks.Policies.{Server, server}
use cloudgw.Gobgp.Server.{BgpControl, PeerMessage, Received, received, unreceived}
use cloudgw.Gobgpapi.{get_gobgp_peers_by_api}
use cloudgw.Gobgpapi.Listed.{get_gobgp_peers_by_api-ends, listing}
use cloudgw.Imdb.Memdb.{library, value}
use cloudgw.Model.Peer.{unicast}
use cloudgw.Prelude.{List, String, none, some, [], arith, refl, ◌∷◌, ◌≡◌, false}

abbrev neighbor : String → PeerMessage
neighbor address = record {
  neighbor_address = address;
  peer_asn = 64512;
  auth_password = "";
  vrf = "blue";
  multihop_enabled = false;
  multihop_ttl = 0;
  keepalive_interval = 3;
  hold_time = 9;
  remote_port = 179;
  safi = unicast;
}

abbrev two_neighbors : List PeerMessage
two_neighbors = neighbor "10.0.0.1" ∷ neighbor "10.0.0.2" ∷ []

-- The next message of a stream that breaks after its peers.
abbrev next_message : List PeerMessage → Received × List PeerMessage
next_message [] = (unreceived (library "stream lost"), [])
next_message (p ∷ ps) = (received p, ps)

abbrev api : BgpControl
api = record server {
  Peers = List PeerMessage;
  list_peer = λ s. value two_neighbors;
  recv = next_message;
}

abbrev idle : Server
idle = record { kept_sets = []; kept_policies = []; kept_statements = []; assigned = none }

get_gobgp_peers_by_api-ends_example :
    get_gobgp_peers_by_api api 3 idle ≡ listing (some (library "stream lost")) two_neighbors
get_gobgp_peers_by_api-ends_example =
    get_gobgp_peers_by_api-ends api idle two_neighbors (some (library "stream lost")) two_neighbors
      3 refl (refl, (refl, refl)) (omega arith)
