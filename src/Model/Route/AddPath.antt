-- ===== src/Model/Route/AddPath.antt =====
-- What AddPath does to the list of paths (internal/model/vpp_route.go).
use cloudgw.Prelude.{
  Outcome, List, Bool, not, ◌++◌, suc, ◌≡◌, ◌==◌, ◌||◌, ok, ◌∙◌, ap, absent, true, refl, arith,
  length, [], ◌∷◌, panic, string_Eq, nat_Eq,
}
use cloudgw.Model.Route.{VppIpRoute, add_path, replace_loop, append_path}
use cloudgw.Model.Route.Paths.{
  RoutePath, with_paths, length-hops, hops-split, hops, snoc-split, length-snoc, replace_loop-past,
  replace_loop-clean, replace_loop-match,
}
use mathlib.Core.List.{append-nil, map-append}

-- The call is not ignored: the next hop is not empty, and the numbers are not zero.
abbrev pub is_usable : RoutePath → Bool
is_usable p = not (p.next_hop == "" || p.tunnel_id == 0 || p.mpls_label == 0)

abbrev pub add : RoutePath → VppIpRoute → Outcome VppIpRoute
add p = add_path p.next_hop p.tunnel_id p.mpls_label

append-paths :
    (r : VppIpRoute) (ps : List RoutePath) (p : RoutePath)
    → append_path p.next_hop p.tunnel_id p.mpls_label (with_paths r ps)
      ≡ with_paths r (ps ++ p ∷ [])
append-paths r ps p = rw (
  map-append (λ (x : RoutePath). x.next_hop) ps (p ∷ []),
  map-append (λ (x : RoutePath). x.tunnel_id) ps (p ∷ []),
  map-append (λ (x : RoutePath). x.mpls_label) ps (p ∷ []),
)

add_path-loop :
    (r r' : VppIpRoute) (p : RoutePath)
    → is_usable p ≡ true
    → replace_loop (length r.next_hops) 0 p.next_hop r ≡ ok r'
    → add p r ≡ ok (append_path p.next_hop p.tunnel_id p.mpls_label r')
unfolding add_path
add_path-loop r r' p u e = rw e (ground arith)

add_path-panic :
    (r : VppIpRoute) (p : RoutePath)
    → is_usable p ≡ true
    → replace_loop (length r.next_hops) 0 p.next_hop r ≡ panic
    → add p r ≡ panic
unfolding add_path
add_path-panic r p u e = rw e (ground arith)

-- A path that is not ignored and whose next hop the route does not have is appended to the three
-- slices, and the paths before it stay as they are.
pub add_path-new :
    (r : VppIpRoute) (ps : List RoutePath) (p : RoutePath)
    → is_usable p ≡ true
    → absent p.next_hop (hops ps) ≡ true
    → add p (with_paths r ps) ≡ ok (with_paths r (ps ++ p ∷ []))
add_path-new r ps p u h =
    add_path-loop (with_paths r ps) (with_paths r ps) p u
      (replace_loop-clean p.next_hop [] (hops ps) 0 (with_paths r ps) refl refl h)
    ∙ ap ok (append-paths r ps p)

module _ (r : VppIpRoute) (ps : List RoutePath) (old p : RoutePath) where
  -- Where the route's last path, and no other, has the next hop, a path that is not ignored takes
  -- its place.
  add_path-last :
      is_usable p ≡ true
      → old.next_hop ≡ p.next_hop
      → absent p.next_hop (hops ps) ≡ true
      → add p (with_paths r (ps ++ old ∷ [])) ≡ ok (with_paths r (ps ++ p ∷ []))
  unfolding replace_loop
  add_path-last u e h =
      add_path-loop (with_paths r (ps ++ old ∷ [])) (with_paths r (ps ++ [])) p u
        (rw (← e) (replace_loop-match r ps old [] (rw e h)))
      ∙ ap ok (
          append-paths r (ps ++ []) p
          ∙ ap (λ (k : List RoutePath). with_paths r (k ++ p ∷ [])) (append-nil ps))

  -- Where one path of the route, and not its last, has the next hop, the call with a path that is
  -- not ignored panics: the loop makes as many rounds as there were next hops, and one is removed.
  pub add_path-inner :
      (q : RoutePath) (qs : List RoutePath)
      → is_usable p ≡ true
      → old.next_hop ≡ p.next_hop
      → absent p.next_hop (hops ps) ≡ true
      → absent p.next_hop (hops (q ∷ qs)) ≡ true
      → add p (with_paths r (ps ++ old ∷ q ∷ qs)) ≡ panic
  add_path-inner q qs u e h k = add_path-panic (with_paths r (ps ++ old ∷ q ∷ qs)) p u (
      rw (← e) (
        replace_loop-match r ps old (q ∷ qs) (rw e h)
        ∙ replace_loop-past old.next_hop (hops ps ++ q.next_hop ∷ []) (hops qs) (suc (length ps)) _
            (length-snoc (hops ps) q.next_hop (length ps) (length-hops ps))
            (snoc-split (hops ps) q.next_hop (hops qs) (hops-split ps q qs)) (rw e (ground arith))))
