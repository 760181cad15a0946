-- ===== src/Imdb/VppVrfs/Counters.antt =====
-- The counters of floating ips of the VRFs (internal/repository/imdb/vpp_vrf.go).
use cloudgw.Model.Vrf.{VppVrfTable}
use cloudgw.Imdb.Memdb.{MemDb, MemDbLaws}
use cloudgw.Imdb.Table.Invariant.{IsValid, KeepsIndexes}
use cloudgw.Imdb.Table.Change.{change-IsValid}
use cloudgw.Imdb.Table.View.{updated}
use cloudgw.Imdb.Table.Updates.{get-change}
use cloudgw.Imdb.VppVrfs.{
  VppVrfStorage, vpp_vrf_schema, vrf_inc, vrf_dec, vrf_inc_fip_served, vrf_dec_fip_served,
  get_vpp_vrf,
}
use cloudgw.Prelude.{
  Bool-cases, Option, arith, false, if◌then◌else◌, inl, inr, none, refl, some, ℕ, ◌+◌, ◌<◌, ◌==◌,
  ◌^◌, ◌∙◌, ◌≡◌, nat_Eq, nat_eq_iff,
}

vrf_inc-KeepsIndexes : KeepsIndexes vpp_vrf_schema vrf_inc
vrf_inc-KeepsIndexes row row' h = ground arith

vrf_dec-KeepsIndexes : KeepsIndexes vpp_vrf_schema vrf_dec
vrf_dec-KeepsIndexes row row' h = ground arith

-- The counter is below its bound.
abbrev pub HasRoom : Option VppVrfTable → Type 0
HasRoom none = Unit
HasRoom (some vrf) = vrf.fip_served + 1 < 2 ^ 32

dec-inc : (o : Option VppVrfTable) → HasRoom o → updated vrf_dec (updated vrf_inc o) ≡ o
dec-inc none h = refl
dec-inc (some vrf) h = ground arith

module _ {m : MemDb ℕ} (laws : MemDbLaws m) where
  get-inc :
      (k j : ℕ) (s : VppVrfStorage m)
      → IsValid laws vpp_vrf_schema s
      → get_vpp_vrf m j (vrf_inc_fip_served m k s)
        ≡ (if k == j then updated vrf_inc (get_vpp_vrf m k s) else get_vpp_vrf m j s)
  unfolding get_vpp_vrf vrf_inc_fip_served
  get-inc k j s v = get-change laws vpp_vrf_schema false none vrf_inc k j s vrf_inc-KeepsIndexes v

  get-dec :
      (k j : ℕ) (s : VppVrfStorage m)
      → IsValid laws vpp_vrf_schema s
      → get_vpp_vrf m j (vrf_dec_fip_served m k s)
        ≡ (if k == j then updated vrf_dec (get_vpp_vrf m k s) else get_vpp_vrf m j s)
  unfolding get_vpp_vrf vrf_dec_fip_served
  get-dec k j s v = get-change laws vpp_vrf_schema false none vrf_dec k j s vrf_dec-KeepsIndexes v

  inc-IsValid :
      (k : ℕ) (s : VppVrfStorage m)
      → IsValid laws vpp_vrf_schema s
      → IsValid laws vpp_vrf_schema (vrf_inc_fip_served m k s)
  unfolding vrf_inc_fip_served
  inc-IsValid k s v =
      change-IsValid laws vpp_vrf_schema false none vrf_inc k s vrf_inc-KeepsIndexes v

  -- In a valid storage, DecFIPServed after IncFIPServed of one VRF gives every VRF as it was, where
  -- the counter of that VRF is below its bound or there is no such VRF.
  pub vrf_dec_fip_served-vrf_inc_fip_served :
      (k j : ℕ) (s : VppVrfStorage m)
      → IsValid laws vpp_vrf_schema s
      → HasRoom (get_vpp_vrf m k s)
      → get_vpp_vrf m j (vrf_dec_fip_served m k (vrf_inc_fip_served m k s)) ≡ get_vpp_vrf m j s
  vrf_dec_fip_served-vrf_inc_fip_served k j s v h = elim (Bool-cases (k == j)) [
    | inl same ↦
        get-dec k j (vrf_inc_fip_served m k s) (inc-IsValid k s v)
        ∙ rw
            (
              same,
              get-inc k k s v,
              (nat_eq_iff k k).1 refl,
              dec-inc (get_vpp_vrf m k s) h,
              (nat_eq_iff k j).0 same,
            )
            refl
    | inr other ↦
        get-dec k j (vrf_inc_fip_served m k s) (inc-IsValid k s v)
        ∙ rw (other, get-inc k j s v, other) refl
  ]
