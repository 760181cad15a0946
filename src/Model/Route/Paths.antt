-- ===== src/Model/Route/Paths.antt =====
-- AddPath and DelPath seen as operations on one list of paths (internal/model/vpp_route.go).
use mathlib.Core.List.{append_assoc, map-append, append-nil}
use cloudgw.Prelude.{
  ℕ, suc, ◌+◌, String, ◌≡◌, refl, sym, ap, ◌∙◌, true, false, List, [], ◌∷◌, ◌++◌, map, length,
  length-append, absent, ◌==◌, string_Eq, nat_Eq, eq_iff, ok, panic, index, remove_at, arith,
}
use cloudgw.Model.Route.{VppIpRoute, remove_path, replace_loop}

pub record RoutePath : Type 0 where
  pub next_hop : String
  pub tunnel_id : ℕ
  pub mpls_label : ℕ

abbrev pub hops : List RoutePath → List String
hops = map (λ p. p.next_hop)

-- The route with these paths: the three slices side by side.
abbrev pub with_paths : VppIpRoute → List RoutePath → VppIpRoute
with_paths r ps = record r {
  next_hops = hops ps;
  tunnel_ids = map (λ p. p.tunnel_id) ps;
  fip_mpls_labels = map (λ p. p.mpls_label) ps;
}

module _ {A B : Type 0} (f : A → B) where
  remove_at-mid :
      (ps : List A) (p : A) (qs : List A)
      → remove_at (map f (ps ++ p ∷ qs)) (length ps) ≡ ok (map f (ps ++ qs))
  remove_at-mid [] p qs = refl
  remove_at-mid (q ∷ ps) p qs = rw (remove_at-mid ps p qs)

pub remove_path-mid :
    (r : VppIpRoute) (ps : List RoutePath) (p : RoutePath) (qs : List RoutePath)
    → remove_path (length ps) (with_paths r (ps ++ p ∷ qs)) ≡ ok (with_paths r (ps ++ qs))
unfolding remove_path
remove_path-mid r ps p qs = rw (
  remove_at-mid (λ (x : RoutePath). x.next_hop) ps p qs,
  remove_at-mid (λ (x : RoutePath). x.tunnel_id) ps p qs,
  remove_at-mid (λ (x : RoutePath). x.mpls_label) ps p qs,
)

module _ {A : Type 0} where
  index-mid : (xs : List A) (x : A) (ys : List A) → index (xs ++ x ∷ ys) (length xs) ≡ ok x
  index-mid [] x ys = refl
  index-mid (y ∷ xs) x ys = index-mid xs x ys

  index-end : (xs : List A) → index xs (length xs) ≡ panic
  index-end [] = refl
  index-end (y ∷ xs) = index-end xs

  pub index-at :
      (xs : List A) (x : A) (ys zs : List A) (i : ℕ)
      → length xs ≡ i
      → zs ≡ xs ++ x ∷ ys
      → index zs i ≡ ok x
  index-at xs x ys zs i l e = rw (e, ← l) (index-mid xs x ys)

  index-past : (xs zs : List A) (i : ℕ) → length xs ≡ i → zs ≡ xs → index zs i ≡ panic
  index-past xs zs i l e = rw (e, ← l) (index-end xs)

  pub length-snoc : (xs : List A) (x : A) (i : ℕ) → length xs ≡ i → length (xs ++ x ∷ []) ≡ suc i
  length-snoc xs x i l = omega (arith, length-append xs (x ∷ []))

  pub snoc-split :
      {zs : List A} (xs : List A) (x : A) (ys : List A)
      → zs ≡ xs ++ x ∷ ys
      → zs ≡ (xs ++ x ∷ []) ++ ys
  snoc-split xs x ys e = e ∙ sym (append_assoc xs (x ∷ []) ys)

module _ (nh : String) where
  replace_loop-differs :
      (rounds i : ℕ) (r : VppIpRoute) (b : String)
      → index r.next_hops i ≡ ok b
      → (b == nh) ≡ false
      → replace_loop (suc rounds) i nh r ≡ replace_loop rounds (suc i) nh r
  unfolding replace_loop
  replace_loop-differs rounds i r b p q = rw (p, q)

  -- Rounds over entries that differ from the next hop leave the route alone.
  pub replace_loop-clean :
      (xs bs : List String) (i : ℕ) (r : VppIpRoute)
      → length xs ≡ i
      → r.next_hops ≡ xs ++ bs
      → absent nh bs ≡ true
      → replace_loop (length bs) i nh r ≡ ok r
  unfolding replace_loop
  replace_loop-clean xs [] i r l e h = refl
  replace_loop-clean xs (b ∷ bs) i r l e h =
      replace_loop-differs (length bs) i r b (index-at xs b bs _ i l e) (ground arith)
      ∙ replace_loop-clean (xs ++ b ∷ []) bs (suc i) r (length-snoc xs b i l) (snoc-split xs b bs e)
          (ground arith)

  -- One round more than there are entries left indexes past the end.
  pub replace_loop-past :
      (xs bs : List String) (i : ℕ) (r : VppIpRoute)
      → length xs ≡ i
      → r.next_hops ≡ xs ++ bs
      → absent nh bs ≡ true
      → replace_loop (suc (length bs)) i nh r ≡ panic
  unfolding replace_loop
  replace_loop-past xs [] i r l e h = rw (index-past xs _ i l (e ∙ append-nil xs))
  replace_loop-past xs (b ∷ bs) i r l e h =
      replace_loop-differs (suc (length bs)) i r b (index-at xs b bs _ i l e) (ground arith)
      ∙ replace_loop-past (xs ++ b ∷ []) bs (suc i) r (length-snoc xs b i l) (snoc-split xs b bs e)
          (ground arith)

  -- The rounds before a match are skipped.
  pub replace_loop-skip :
      (xs bs cs : List String) (i : ℕ) (r : VppIpRoute)
      → length xs ≡ i
      → r.next_hops ≡ xs ++ (bs ++ cs)
      → absent nh bs ≡ true
      → replace_loop (length (bs ++ cs)) i nh r ≡ replace_loop (length cs) (i + length bs) nh r
  replace_loop-skip xs [] cs i r l e h =
      ap (λ (k : ℕ). replace_loop (length cs) k nh r) (omega arith)
  replace_loop-skip xs (b ∷ bs) cs i r l e h =
      replace_loop-differs (length (bs ++ cs)) i r b (index-at xs b (bs ++ cs) _ i l e)
        (ground arith)
      ∙ replace_loop-skip (xs ++ b ∷ []) bs cs (suc i) r (length-snoc xs b i l)
          (snoc-split xs b (bs ++ cs) e) (ground arith)
      ∙ ap (λ (k : ℕ). replace_loop (length cs) k nh r) (omega arith)

pub hops-split :
    (ps : List RoutePath) (p : RoutePath) (qs : List RoutePath)
    → hops (ps ++ p ∷ qs) ≡ hops ps ++ p.next_hop ∷ hops qs
hops-split ps p qs = map-append (λ (x : RoutePath). x.next_hop) ps (p ∷ qs)

pub length-hops : (ps : List RoutePath) → length (hops ps) ≡ length ps
length-hops [] = refl
length-hops (p ∷ ps) = ap suc (length-hops ps)

replace_loop-hits :
    (nh : String) (rounds i : ℕ) (r r' : VppIpRoute) (b : String)
    → index r.next_hops i ≡ ok b
    → (b == nh) ≡ true
    → remove_path i r ≡ ok r'
    → replace_loop (suc rounds) i nh r ≡ replace_loop rounds (suc i) nh r'
unfolding replace_loop
replace_loop-hits nh rounds i r r' b p q c = rw (p, q, c)

module _ (r : VppIpRoute) (ps : List RoutePath) (p : RoutePath) (qs : List RoutePath) where
  pub index-hops : index (hops (ps ++ p ∷ qs)) (length ps) ≡ ok p.next_hop
  index-hops =
      index-at (hops ps) p.next_hop (hops qs) _ (length ps) (length-hops ps) (hops-split ps p qs)

  -- The round that matches removes the path, and the loop goes on behind it.
  pub replace_loop-match :
      absent p.next_hop (hops ps) ≡ true
      → replace_loop (length (hops (ps ++ p ∷ qs))) 0 p.next_hop (with_paths r (ps ++ p ∷ qs))
        ≡ replace_loop (length (hops qs)) (suc (length ps)) p.next_hop (with_paths r (ps ++ qs))
  replace_loop-match h =
      ap (λ (k : List String). replace_loop (length k) 0 p.next_hop (with_paths r (ps ++ p ∷ qs)))
        (hops-split ps p qs)
      ∙ replace_loop-skip p.next_hop [] (hops ps) (p.next_hop ∷ hops qs) 0 _ refl
          (hops-split ps p qs) h
      ∙ ap
          (λ (k : ℕ).
            replace_loop (suc (length (hops qs))) k p.next_hop (with_paths r (ps ++ p ∷ qs)))
          (omega (arith, length-hops ps))
      ∙ replace_loop-hits p.next_hop (length (hops qs)) (length ps) _ _ p.next_hop index-hops
          ((eq_iff p.next_hop p.next_hop).1 refl) (remove_path-mid r ps p qs)
