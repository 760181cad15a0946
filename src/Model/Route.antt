-- ===== src/Model/Route.antt =====
-- A floating ip or IPv4 route with its paths (internal/model/vpp_route.go). The three slices of a
-- route are parallel: entry i of each belongs to path i. A slice that is removed from is rewritten
-- in place; no other live slice shares its array where the program does so, so values suffice.
pub mod Paths
pub mod AddPath
pub mod DelPath
use cloudgw.Prelude.{
  ℕ, zero, suc, String, Bool, false, ◌||◌, List, [], ◌∷◌, ◌++◌, length, ◌==◌, nat_Eq, string_Eq,
  if◌then◌else◌, Outcome, ok, ◌>>=◌, index, remove_at,
}

pub record VppIpRoute : Type 0 where
  pub vrf_id : ℕ
  pub main_interface_id : ℕ
  pub sub_interface_id : ℕ
  pub prefix : String
  pub next_hops : List String
  pub tunnel_ids : List ℕ
  pub fip_mpls_labels : List ℕ

unfoldable pub new_vpp_ip_route : ℕ → ℕ → ℕ → String → List String → List ℕ → List ℕ → VppIpRoute
new_vpp_ip_route vrf_id main_interface_id sub_interface_id prefix next_hops tunnel_ids labels =
    record {
      vrf_id = vrf_id;
      main_interface_id = main_interface_id;
      sub_interface_id = sub_interface_id;
      prefix = prefix;
      next_hops = next_hops;
      tunnel_ids = tunnel_ids;
      fip_mpls_labels = labels;
    }

-- The three removals that both methods make at index i, in the order of the source.
unfoldable pub remove_path : ℕ → VppIpRoute → Outcome VppIpRoute
remove_path i r = do
  next_hops ← remove_at r.next_hops i
  tunnel_ids ← remove_at r.tunnel_ids i
  labels ← remove_at r.fip_mpls_labels i
  ok (record r { next_hops = next_hops; tunnel_ids = tunnel_ids; fip_mpls_labels = labels })

-- `for i := range r.NextHops` of AddPath from round i on: the number of rounds is that of the
-- length before the loop, and the slice that is indexed is the current one.
unfoldable pub replace_loop : ℕ → ℕ → String → VppIpRoute → Outcome VppIpRoute
unfolding remove_path
replace_loop zero i next_hop r = ok r
replace_loop (suc rounds) i next_hop r = do
  hop ← index r.next_hops i
  r' ← (if hop == next_hop then remove_path i r else ok r)
  replace_loop rounds (suc i) next_hop r'

abbrev pub append_path : String → ℕ → ℕ → VppIpRoute → VppIpRoute
append_path next_hop tunnel_id mpls_label r = record r {
  next_hops = r.next_hops ++ next_hop ∷ [];
  tunnel_ids = r.tunnel_ids ++ tunnel_id ∷ [];
  fip_mpls_labels = r.fip_mpls_labels ++ mpls_label ∷ [];
}

unfoldable pub add_path : String → ℕ → ℕ → VppIpRoute → Outcome VppIpRoute
add_path next_hop tunnel_id mpls_label r =
    if next_hop == "" || tunnel_id == 0 || mpls_label == 0 then ok r else do
      r' ← replace_loop (length r.next_hops) 0 next_hop r
      ok (append_path next_hop tunnel_id mpls_label r')

-- The loop of DelPath, which returns at the first match.
unfoldable pub del_loop : ℕ → ℕ → String → VppIpRoute → Outcome VppIpRoute
unfolding remove_path
del_loop zero i next_hop r = ok r
del_loop (suc rounds) i next_hop r =
    let rest = del_loop rounds (suc i) next_hop r in
    do hop ← index r.next_hops i; if hop == next_hop then remove_path i r else rest

abbrev is_only : String → List String → Bool
is_only next_hop (h ∷ []) = h == next_hop
is_only next_hop _ = false

unfoldable pub del_path : String → VppIpRoute → Outcome VppIpRoute
del_path next_hop r =
    if is_only next_hop r.next_hops
    then ok (record r { next_hops = []; tunnel_ids = []; fip_mpls_labels = [] })
    else del_loop (length r.next_hops) 0 next_hop r
