-- ===== src/Service/Watch.antt =====
-- The head of HandleBGPUpdate (internal/service/handle_bgp_update.go): what it reads from the
-- storages before it watches for events.
use cloudgw.Imdb.BgpPeers.{TypeMap, create_bgp_peer_to_type_map}
use cloudgw.Imdb.Memdb.{Result, failed, value, library}
use cloudgw.Imdb.VppVrfs.{get_vpp_vrfs, create_vrf_id_to_next_hop_map}
use cloudgw.Model.Vrf.{VppVrfTable}
use cloudgw.Netutils.{NetApi}
use cloudgw.Service.Parse.{NextHopMap}
use cloudgw.Service.World.{World, Libs}
use cloudgw.Prelude.{List, String, [], none, some, ◌∷◌, ◌++◌}

-- What the callbacks know from the start: the types of the peers, the next hops of the VRFs, and
-- the parsed prefixes of floating ips.
pub record Watch (l : Libs) : Type 0 where
  pub types : TypeMap
  pub next_hops : NextHopMap
  pub nets : List (NetApi.Net (Libs.net_api l))

module _ (l : Libs) where
  open l use {by_string, by_number, net_api}

  -- `net.ParseCIDR` of each prefix; the first error ends the program.
  unfoldable pub parse_nets : List String → Result (List (NetApi.Net net_api))
  parse_nets [] = value []
  parse_nets (p ∷ ps) =
      let rest = parse_nets ps in
      elim (NetApi.parse_cidr net_api p) [
        | none ↦ failed (library "failed to parse aggregated floating ip prefixes")
        | some (ip, net) ↦ elim rest [ failed e ↦ failed e | value nets ↦ value (net ∷ nets) ]
      ]

  unfoldable pub all_prefixes : List VppVrfTable → List String
  all_prefixes [] = []
  all_prefixes (vrf ∷ vrfs) = vrf.fip_prefixes ++ all_prefixes vrfs

  -- The head of HandleBGPUpdate. An error is a call of logger.Fatal, which ends the program.
  unfoldable pub start_watch : World l → Result (Watch l)
  unfolding parse_nets all_prefixes
  start_watch w = elim (create_bgp_peer_to_type_map by_string w.peers) [
    | failed e ↦ failed e
    | value types ↦ elim (create_vrf_id_to_next_hop_map by_number w.vpp_vrfs) [
      | failed e ↦ failed e
      | value next_hops ↦ elim (get_vpp_vrfs by_number w.vpp_vrfs) [
        | [] ↦ failed (library "failed to get vpp vrfs from memory storage")
        | vrf ∷ vrfs ↦ elim (parse_nets (all_prefixes (vrf ∷ vrfs))) [
          | failed e ↦ failed e
          | value nets ↦ value (record { types = types; next_hops = next_hops; nets = nets })
        ]
      ]
    ]
  ]
