-- ===== src/App/Forwarder.antt =====
-- The start of the forwarder (initVPP of internal/app/init_vpp.go), after the connection.
use cloudgw.Config.{AppConfig}
use cloudgw.Imdb.Memdb.{MemDb, value, failed}
use cloudgw.Imdb.VppVrfs.{VppVrfStorage, get_vpp_vrfs}
use cloudgw.Initialize.{Run, done, fails, crashes, ◌>>=◌, clear_vpp_config, add_vpp_init_config}
use cloudgw.Netutils.{NetApi}
use cloudgw.Vpp.{VppApi}
use cloudgw.Vpp.Setup.{get_vpp_version}
use cloudgw.Prelude.{String, ok, panic, ℕ}

module _ (v : VppApi) where
  unfoldable pub read_version : Run v String
  unfolding get_vpp_version
  read_version st = elim (get_vpp_version v st) [
    | panic ↦ (crashes, st)
    | ok (r, st1) ↦ elim r [ failed e ↦ (fails e, st1) | value version ↦ (done version, st1) ]
  ]

  unfoldable pub init_vpp :
      (m : MemDb ℕ) → NetApi → ℕ → AppConfig → VppVrfStorage m → Run v (VppVrfStorage m)
  unfolding read_version clear_vpp_config add_vpp_init_config get_vpp_vrfs
  init_vpp m n fuel cfg s = ◌>>=◌ v read_version λ version.
      ◌>>=◌ v (clear_vpp_config v n fuel cfg.vpp.main_interface_id (get_vpp_vrfs m s))
        λ u. add_vpp_init_config v m cfg.vpp.main_interface_id cfg.vpp.tun_default_gw s
