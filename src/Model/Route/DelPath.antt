-- ===== src/Model/Route/DelPath.antt =====
-- What DelPath does to the list of paths (internal/model/vpp_route.go).
use cloudgw.Model.Route.{VppIpRoute, remove_path, del_loop, del_path}
use cloudgw.Prelude.{
  Bool-cases, List, String, [], absent, ap, arith, eq_iff, false, index, inl, inr, length, ok, refl,
  suc, sym, true, ℕ, ◌++◌, ◌+◌, ◌==◌, ◌>>=◌, ◌∙◌, ◌∷◌, ◌≡◌, string_Eq,
}
use cloudgw.Model.Route.AddPath.{add, add_path-new, is_usable}
use mathlib.Core.List.{append-nil}
use cloudgw.Model.Route.Paths.{
  RoutePath, hops, hops-split, index-at, index-hops, length-hops, length-snoc, remove_path-mid,
  snoc-split, with_paths,
}

module _ (nh : String) where
  del_loop-differs :
      (rounds i : ℕ) (r : VppIpRoute) (b : String)
      → index r.next_hops i ≡ ok b
      → (b == nh) ≡ false
      → del_loop (suc rounds) i nh r ≡ del_loop rounds (suc i) nh r
  unfolding del_loop
  del_loop-differs rounds i r b p q = rw (p, q)

  del_loop-hits :
      (rounds i : ℕ) (r : VppIpRoute) (b : String)
      → index r.next_hops i ≡ ok b
      → (b == nh) ≡ true
      → del_loop (suc rounds) i nh r ≡ remove_path i r
  unfolding del_loop
  del_loop-hits rounds i r b p q = rw (p, q)

  del_loop-skip :
      (xs bs cs : List String) (i : ℕ) (r : VppIpRoute)
      → length xs ≡ i
      → r.next_hops ≡ xs ++ (bs ++ cs)
      → absent nh bs ≡ true
      → del_loop (length (bs ++ cs)) i nh r ≡ del_loop (length cs) (i + length bs) nh r
  del_loop-skip xs [] cs i r l e h = ap (λ (k : ℕ). del_loop (length cs) k nh r) (omega arith)
  del_loop-skip xs (b ∷ bs) cs i r l e h =
      del_loop-differs (length (bs ++ cs)) i r b (index-at xs b (bs ++ cs) _ i l e) (ground arith)
      ∙ del_loop-skip (xs ++ b ∷ []) bs cs (suc i) r (length-snoc xs b i l)
          (snoc-split xs b (bs ++ cs) e) (ground arith)
      ∙ ap (λ (k : ℕ). del_loop (length cs) k nh r) (omega arith)

  -- The shortcut for a single path agrees with the loop.
  del_path-loop :
      (r : VppIpRoute) (ps : List RoutePath)
      → del_path nh (with_paths r ps) ≡ del_loop (length (hops ps)) 0 nh (with_paths r ps)
  unfolding del_path del_loop
  del_path-loop r [] = refl
  del_path-loop r (p ∷ []) = elim (Bool-cases (p.next_hop == nh)) [
    | inl e ↦ rw e refl
    | inr e ↦ rw e refl
  ]
  del_path-loop r (p ∷ q ∷ ps) = refl

  -- A route without the next hop stays as it is.
  pub del_path-absent :
      (r : VppIpRoute) (ps : List RoutePath)
      → absent nh (hops ps) ≡ true
      → del_path nh (with_paths r ps) ≡ ok (with_paths r ps)
  unfolding del_loop
  del_path-absent r ps h =
      del_path-loop r ps
      ∙ ap (λ (k : List String). del_loop (length k) 0 nh (with_paths r ps))
          (sym (append-nil (hops ps)))
      ∙ del_loop-skip [] (hops ps) [] 0 (with_paths r ps) refl (sym (append-nil (hops ps))) h

-- DelPath of a next hop removes the first path that has it from the three slices, and the others
-- keep their order.
pub del_path-first :
    (r : VppIpRoute) (ps : List RoutePath) (p : RoutePath) (qs : List RoutePath)
    → absent p.next_hop (hops ps) ≡ true
    → del_path p.next_hop (with_paths r (ps ++ p ∷ qs)) ≡ ok (with_paths r (ps ++ qs))
del_path-first r ps p qs h =
    del_path-loop p.next_hop r (ps ++ p ∷ qs)
    ∙ ap (λ (k : List String). del_loop (length k) 0 p.next_hop (with_paths r (ps ++ p ∷ qs)))
        (hops-split ps p qs)
    ∙ del_loop-skip p.next_hop [] (hops ps) (p.next_hop ∷ hops qs) 0 _ refl (hops-split ps p qs) h
    ∙ ap (λ (k : ℕ). del_loop (suc (length (hops qs))) k p.next_hop (with_paths r (ps ++ p ∷ qs)))
        (omega (arith, length-hops ps))
    ∙ del_loop-hits p.next_hop (length (hops qs)) (length ps) _ p.next_hop (index-hops r ps p qs)
        ((eq_iff p.next_hop p.next_hop).1 refl)
    ∙ remove_path-mid r ps p qs

-- Where the route does not have the next hop of a path that is not ignored, DelPath after AddPath
-- gives the route as it was.
pub del_path-add_path :
    (r : VppIpRoute) (ps : List RoutePath) (p : RoutePath)
    → is_usable p ≡ true
    → absent p.next_hop (hops ps) ≡ true
    → (add p (with_paths r ps) >>= del_path p.next_hop) ≡ ok (with_paths r ps)
del_path-add_path r ps p u h =
    rw (add_path-new r ps p u h) (
      del_path-first r ps p [] h ∙ ap (λ (k : List RoutePath). ok (with_paths r k)) (append-nil ps))
