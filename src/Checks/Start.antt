-- ===== src/Checks/Start.antt =====
-- The set up of a forwarder for two VRFs
-- (internal/repository/vpp/initialize/add_config.go).
use cloudgw.Checks.Forwarder.{obedient, obedient_laws}
use cloudgw.Checks.Store.{assoc_db}
use cloudgw.Imdb.Memdb.{MemDb, value}
use cloudgw.Imdb.VppVrfs.{VppVrfStorage, add_vpp_vrf, new_vpp_vrf_storage}
use cloudgw.Initialize.{add_vpp_init_config}
use cloudgw.Initialize.Ended.{add_vpp_init_config-Ends, told_vrfs, SetsUp}
use cloudgw.Model.Vrf.{VppVrfTable, new_vpp_vrf_table}
use cloudgw.Vpp.{udp_encap_del_reply}
use cloudgw.Prelude.{[], none, ◌∷◌, ℕ, nat_Eq}

-- The walk by names meets the first two objects.
abbrev named_db : MemDb ℕ
named_db = record assoc_db { walk_name = λ db. value (0 ∷ 1 ∷ []) }

abbrev vrf_named : VppVrfTable
vrf_named = new_vpp_vrf_table "default" 0 1 2 100 "10.0.0.1" 24 "10.0.0.254" 16 []

abbrev vrf_blue : VppVrfTable
vrf_blue = new_vpp_vrf_table "blue" 10 1 2 100 "10.1.0.1" 24 "10.1.0.2" 16 ("192.0.2.0/24" ∷ [])

abbrev two_vrfs : VppVrfStorage named_db
two_vrfs =
    (add_vpp_vrf named_db vrf_blue
      (add_vpp_vrf named_db vrf_named (new_vpp_vrf_storage named_db)).1).1

add_vpp_init_config-Ends_example :
    SetsUp
      (told_vrfs named_db (MemDb.walk_name named_db two_vrfs.db) two_vrfs)
      (udp_encap_del_reply none)
      (add_vpp_init_config obedient named_db 1 "10.0.0.254" two_vrfs (udp_encap_del_reply none))
add_vpp_init_config-Ends_example =
    add_vpp_init_config-Ends obedient_laws named_db 1 "10.0.0.254" two_vrfs
      (udp_encap_del_reply none)
