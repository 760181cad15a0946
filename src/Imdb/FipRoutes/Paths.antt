-- ===== src/Imdb/FipRoutes/Paths.antt =====
-- The search for a path of a stored route (IsFIPWithNHAndLabelExist of
-- internal/repository/imdb/fip_route.go).
use cloudgw.Model.Route.{VppIpRoute}
use cloudgw.Model.Route.Paths.{RoutePath, with_paths, hops}
use cloudgw.Imdb.Memdb.{MemDb}
use cloudgw.Imdb.FipRoutes.{
  FipRouteStorage, has_path, get_fip_route, is_fip_with_nh_and_label_exist,
}
use cloudgw.Prelude.{
  Bool, Bool-cases, List, String, [], arith, false, if◌then◌else◌, inl, inr, length, map, ok, refl,
  some, ℕ, ◌&&◌, ◌||◌, ◌==◌, ◌∷◌, ◌≡◌, nat_Eq, string_Eq,
}

-- Some path of the list has the next hop and the label.
abbrev pub carries : String → ℕ → List RoutePath → Bool
carries nh label [] = false
carries nh label (p ∷ ps) = p.next_hop == nh && p.mpls_label == label || carries nh label ps

has_path-paths :
    (nh : String) (label : ℕ) (ps : List RoutePath)
    → has_path nh label (hops ps) (map (λ p. p.mpls_label) ps) ≡ ok (carries nh label ps)
unfolding has_path
has_path-paths nh label [] = refl
has_path-paths nh label (p ∷ ps) = elim (Bool-cases (p.next_hop == nh && p.mpls_label == label)) [
  | inl e ↦ rw (e, has_path) refl
  | inr e ↦ rw (e, has_path) (has_path-paths nh label ps)
]

abbrev labels : List RoutePath → List ℕ
labels = map (λ p. p.mpls_label)

search-paths :
    (nh : String) (label : ℕ) (ps : List RoutePath)
    → (if length (labels ps) == 0 then ok false else has_path nh label (hops ps) (labels ps))
      ≡ ok (carries nh label ps)
search-paths nh label [] = refl
search-paths nh label (p ∷ ps) = elim (Bool-cases (length (labels (p ∷ ps)) == 0)) [
  | inl e ↦ absurd (ground arith)
  | inr e ↦ rw e (has_path-paths nh label (p ∷ ps))
]

-- The search in a stored route of parallel slices returns, and says whether one path of the route
-- has both the next hop and the label.
pub is_fip_with_nh_and_label_exist-carries :
    (m : MemDb String) (prefix nh : String) (label : ℕ) (r : VppIpRoute) (ps : List RoutePath)
    (s : FipRouteStorage m)
    → get_fip_route m prefix s ≡ some (with_paths r ps)
    → is_fip_with_nh_and_label_exist m prefix nh label s ≡ ok (carries nh label ps)
unfolding is_fip_with_nh_and_label_exist get_fip_route
is_fip_with_nh_and_label_exist-carries m prefix nh label r ps s h =
    rw (h, is_fip_with_nh_and_label_exist) (search-paths nh label ps)
