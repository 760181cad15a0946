-- ===== src/App/Storages/Vrfs.antt =====
-- The storage of BGP routing tables at the start (initBGPVRFStorage of internal/app/init_imdb.go).
use cloudgw.App.Storages.{done, failed_bgp_vrf, init_bgp_vrf_storage, enough_bgp_vrfs, bgp_vrf_of}
use cloudgw.App.Storages.Filled.{last_with, placed, fill-IsFilled, AreComplete, IsFilled}
use cloudgw.Config.{AppConfig, VrfConfig}
use cloudgw.Imdb.Memdb.{MemDb, MemDbLaws}
use cloudgw.Imdb.BgpVrfs.{
  BgpVrfStorage, new_bgp_vrf_storage, add_bgp_vrf, get_bgp_vrf, bgp_vrf_schema,
}
use cloudgw.Imdb.Table.{new_store}
use cloudgw.Imdb.Table.Invariant.{IsValid, new_store-IsValid}
use cloudgw.Imdb.Table.View.{get-new_store}
use cloudgw.Model.Vrf.{BgpVrfTable, rt, new_bgp_vrf_table}
use cloudgw.Prelude.{
  List, String, [], arith, map, none, refl, some, sym, true, ℕ, ◌∙◌, ◌∷◌, ◌≡◌, nat_Eq, absent,
  string_Eq, nat_eq_iff, Option-cases, inr, inl, ◌==◌, Bool-cases,
}

abbrev pub vrf_names : List VrfConfig → List String
vrf_names vrfs = map (λ (vrf : VrfConfig). vrf.vrf_name) vrfs

complete :
    {m : MemDb ℕ} (laws : MemDbLaws m) (cfg : AppConfig) (vrfs : List VrfConfig)
    → absent "" (vrf_names vrfs) ≡ true
    → AreComplete laws bgp_vrf_schema
        (λ vrf. done (bgp_vrf_of cfg vrf))
        (bgp_vrf_of cfg)
        (λ (vrf : VrfConfig). vrf.vrf_id)
        (λ vrf e. failed_bgp_vrf vrf.vrf_name e)
        vrfs
unfolding bgp_vrf_of new_bgp_vrf_table
complete laws cfg [] h = tt
complete laws cfg (vrf ∷ vrfs) h = (
  record { made = refl; indexed = refl; complete = ground arith },
  complete laws cfg vrfs (ground arith),
)

targets_of :
    (cfg : AppConfig) (vrf : VrfConfig) (id : ℕ) (table : BgpVrfTable)
    → vrf.vrf_id ≡ id
    → some (bgp_vrf_of cfg vrf) ≡ some table
    → table.import_rt ≡ rt cfg.tf_controller.bgp_peer_asn id ∷ []
unfolding bgp_vrf_of new_bgp_vrf_table
targets_of cfg vrf id table e h = ground arith

imports :
    (cfg : AppConfig) (id : ℕ) (table : BgpVrfTable) (vrfs : List VrfConfig)
    → placed (bgp_vrf_of cfg) (last_with (λ (vrf : VrfConfig). vrf.vrf_id) id vrfs) none
      ≡ some table
    → table.import_rt ≡ rt cfg.tf_controller.bgp_peer_asn id ∷ []
unfolding last_with
imports cfg id table [] h = absurd (cc)
imports cfg id table (vrf ∷ vrfs) h =
    elim (Option-cases (last_with (λ (v : VrfConfig). v.vrf_id) id vrfs)) [
      | inl e ↦ elim (Bool-cases (vrf.vrf_id == id)) [
        | inl same ↦
            targets_of cfg vrf id table ((nat_eq_iff vrf.vrf_id id).0 same)
              (rw (e, last_with, same) at h)
        | inr other ↦ absurd (cc (rw (e, last_with, other) at h))
      ]
      | inr (v, e) ↦ imports cfg id table vrfs (rw e (rw (e, last_with) at h))
    ]

module _ {m : MemDb ℕ} (laws : MemDbLaws m) (cfg : AppConfig) where
  -- The tables of a storage are those of the configuration, and each imports one target.
  pub record HasTables (s : BgpVrfStorage m) : Type 0 where
    pub valid : IsValid laws bgp_vrf_schema s
    pub holds :
        (id : ℕ)
        → get_bgp_vrf m id s
          ≡ placed (bgp_vrf_of cfg) (last_with (λ (vrf : VrfConfig). vrf.vrf_id) id cfg.vrf) none
    pub targets :
        (id : ℕ) (table : BgpVrfTable)
        → get_bgp_vrf m id s ≡ some table
        → table.import_rt ≡ rt cfg.tf_controller.bgp_peer_asn id ∷ []

  filled :
      absent "" (vrf_names cfg.vrf) ≡ true
      → IsFilled laws bgp_vrf_schema
          (λ vrf. done (bgp_vrf_of cfg vrf))
          (bgp_vrf_of cfg)
          (λ (vrf : VrfConfig). vrf.vrf_id)
          (λ vrf e. failed_bgp_vrf vrf.vrf_name e)
          cfg.vrf
          (new_store m bgp_vrf_schema)
  filled h =
      fill-IsFilled laws bgp_vrf_schema (λ vrf. done (bgp_vrf_of cfg vrf)) (bgp_vrf_of cfg)
        (λ (vrf : VrfConfig). vrf.vrf_id) (λ vrf e. failed_bgp_vrf vrf.vrf_name e) cfg.vrf
        (new_store m bgp_vrf_schema) (new_store-IsValid laws bgp_vrf_schema)
        (complete laws cfg cfg.vrf h)

  holds_all :
      (h : absent "" (vrf_names cfg.vrf) ≡ true) (id : ℕ)
      → get_bgp_vrf m id (filled h).after
        ≡ placed (bgp_vrf_of cfg) (last_with (λ (vrf : VrfConfig). vrf.vrf_id) id cfg.vrf) none
  unfolding get_bgp_vrf
  holds_all h id = (filled h).holds id ∙ rw (get-new_store laws bgp_vrf_schema id) refl

  -- Where no VRF has an empty name, the start comes to the test of the number of tables with a
  -- storage that holds under each number the table of the last VRF with it, and nothing else. Each
  -- of its tables imports one target, that of the controllers for its number.
  pub init_bgp_vrf_storage-HasTables :
      absent "" (vrf_names cfg.vrf) ≡ true
      → (s : BgpVrfStorage m) × (init_bgp_vrf_storage m cfg ≡ enough_bgp_vrfs m cfg s) × HasTables s
  unfolding init_bgp_vrf_storage new_bgp_vrf_storage add_bgp_vrf
  init_bgp_vrf_storage-HasTables h = (
    (filled h).after,
    rw ((filled h).fills) refl,
    record {
      valid = (filled h).valid;
      holds = holds_all h;
      targets = λ id table g. imports cfg id table cfg.vrf (sym (holds_all h id) ∙ g);
    },
  )
