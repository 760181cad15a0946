-- ===== src/Imdb/UdpTunnels/Refinement.antt =====
-- The storage of UDP tunnels implements a map from addresses to tunnels
-- (internal/repository/imdb/udp_tunnel.go).
use cloudgw.Model.Tunnel.{VppUdpTunnel}
use cloudgw.Imdb.Memdb.{MemDb, MemDbLaws, no_vpp_udp_tunnel_found}
use cloudgw.Imdb.Table.{get}
use cloudgw.Imdb.Table.Invariant.{IsValid, KeepsIndexes, add-IsValid}
use cloudgw.Imdb.Table.Change.{change-IsValid, clear-IsValid, delete-IsValid}
use cloudgw.Imdb.Table.View.{get-add, updated, get-add_missing}
use cloudgw.Imdb.Table.Updates.{get-change, get-clear, get-delete}
use cloudgw.Imdb.UdpTunnels.{
  UdpTunnelStorage, tunnel_inc, inc_fip_served, udp_tunnel_schema, del_udp_tunnels, del_udp_tunnel,
  dec_fip_served, get_udp_tunnel, add_udp_tunnel, tunnel_dec,
}
use cloudgw.Prelude.{
  Bool-cases, List, Option, String, [], ap, arith, if◌then◌else◌, inl, inr, none, refl, some, true,
  ℕ, ◌%◌, ◌+◌, ◌-◌, ◌==◌, ◌^◌, ◌∙◌, ◌∷◌, ◌≡◌, string_Eq,
}
use mathlib.Core.Path.{fun_ext}

-- The calls that change the storage.
pub data TunnelCall : Type 0 where
  adds : VppUdpTunnel → TunnelCall
  deletes : String → TunnelCall
  incs decs : String → TunnelCall
  clears : TunnelCall

-- The specification: a map, and counters modulo 2^32 that stop at 0 below.
abbrev pub TunnelMap : Type 0
TunnelMap = String → Option VppUdpTunnel

abbrev pub served : (ℕ → ℕ) → Option VppUdpTunnel → Option VppUdpTunnel
served f none = none
served f (some t) = some (record t { fip_served = f t.fip_served })

abbrev pub spec_step : TunnelCall → TunnelMap → TunnelMap
spec_step (adds t) f j = if t.dst_ip == "" then f j else if t.dst_ip == j then some t else f j
spec_step (deletes ip) f j = if ip == j then none else f j
spec_step (incs ip) f j = if ip == j then served (λ n. (n + 1) % 2 ^ 32) (f ip) else f j
spec_step (decs ip) f j = if ip == j then served (λ n. n - 1) (f ip) else f j
spec_step clears f j = none

unfoldable pub spec_run : List TunnelCall → TunnelMap → TunnelMap
spec_run [] f = f
spec_run (c ∷ cs) f = spec_run cs (spec_step c f)

module _ {m : MemDb String} (laws : MemDbLaws m) where
  unfoldable pub step : TunnelCall → UdpTunnelStorage m → UdpTunnelStorage m
  step (adds t) s = (add_udp_tunnel m t s).1
  step (deletes ip) s = (del_udp_tunnel m ip s).1
  step (incs ip) s = inc_fip_served m ip s
  step (decs ip) s = dec_fip_served m ip s
  step clears s = (del_udp_tunnels m s).1

  unfoldable pub run : List TunnelCall → UdpTunnelStorage m → UdpTunnelStorage m
  run [] s = s
  run (c ∷ cs) s = run cs (step c s)

  abbrev view : UdpTunnelStorage m → TunnelMap
  view s j = get_udp_tunnel m j s

  inc-KeepsIndexes : KeepsIndexes udp_tunnel_schema tunnel_inc
  inc-KeepsIndexes row row' h = ground arith

  dec-KeepsIndexes : KeepsIndexes udp_tunnel_schema tunnel_dec
  dec-KeepsIndexes row row' h = ground arith

  pub step-IsValid :
      (c : TunnelCall) (s : UdpTunnelStorage m)
      → IsValid laws udp_tunnel_schema s
      → IsValid laws udp_tunnel_schema (step c s)
  unfolding step add_udp_tunnel del_udp_tunnel del_udp_tunnels inc_fip_served dec_fip_served
  step-IsValid (adds t) s v = add-IsValid laws udp_tunnel_schema t s v refl
  step-IsValid (deletes ip) s v =
      delete-IsValid laws udp_tunnel_schema no_vpp_udp_tunnel_found ip s v
  step-IsValid (incs ip) s v =
      change-IsValid laws udp_tunnel_schema true none tunnel_inc ip s inc-KeepsIndexes v
  step-IsValid (decs ip) s v =
      change-IsValid laws udp_tunnel_schema true none tunnel_dec ip s dec-KeepsIndexes v
  step-IsValid clears s v = clear-IsValid laws udp_tunnel_schema s v

  updated-inc : (o : Option VppUdpTunnel) → updated tunnel_inc o ≡ served (λ n. (n + 1) % 2 ^ 32) o
  updated-inc o = ground arith

  updated-dec : (o : Option VppUdpTunnel) → updated tunnel_dec o ≡ served (λ n. n - 1) o
  updated-dec o = ground arith

  step-refines :
      (c : TunnelCall) (s : UdpTunnelStorage m) (j : String)
      → IsValid laws udp_tunnel_schema s
      → view (step c s) j ≡ spec_step c (view s) j
  unfolding step get_udp_tunnel add_udp_tunnel del_udp_tunnel del_udp_tunnels inc_fip_served
      dec_fip_served
  step-refines (adds t) s j v = elim (Bool-cases (t.dst_ip == "")) [
    | inl h ↦ (get-add_missing laws udp_tunnel_schema t s v (rw h refl) refl).1 j ∙ rw h refl
    | inr h ↦ (get-add laws udp_tunnel_schema t t.dst_ip s v (rw h refl) refl).1 j ∙ rw h refl
  ]
  step-refines (deletes ip) s j v = get-delete laws udp_tunnel_schema no_vpp_udp_tunnel_found ip j s
  step-refines (incs ip) s j v =
      get-change laws udp_tunnel_schema true none tunnel_inc ip j s inc-KeepsIndexes v
      ∙ rw (updated-inc (get m udp_tunnel_schema ip s)) refl
  step-refines (decs ip) s j v =
      get-change laws udp_tunnel_schema true none tunnel_dec ip j s dec-KeepsIndexes v
      ∙ rw (updated-dec (get m udp_tunnel_schema ip s)) refl
  step-refines clears s j v = get-clear laws udp_tunnel_schema j s

  -- After any sequence of calls on a valid storage, each address has the tunnel that the map from
  -- addresses to tunnels has after the same calls.
  pub run-refines :
      (cs : List TunnelCall) (s : UdpTunnelStorage m) (j : String)
      → IsValid laws udp_tunnel_schema s
      → get_udp_tunnel m j (run cs s) ≡ spec_run cs (λ i. get_udp_tunnel m i s) j
  unfolding run spec_run
  run-refines [] s j v = refl
  run-refines (c ∷ cs) s j v =
      run-refines cs (step c s) j (step-IsValid c s v)
      ∙ ap (λ (f : TunnelMap). spec_run cs f j) (fun_ext λ i. step-refines c s i v)
