-- ===== src/Service/Tunnels/Assigned.antt =====
-- The tunnels of a route and those of the storage (internal/service/tunnel_route_add.go).
use cloudgw.Imdb.Memdb.{MemDbLaws}
use cloudgw.Imdb.Table.Invariant.{IsValid}
use cloudgw.Imdb.UdpTunnels.{UdpTunnelStorage, get_udp_tunnel, udp_tunnel_schema, add_udp_tunnel}
use cloudgw.Imdb.UdpTunnels.Refinement.{
  TunnelMap, adds, incs, run, run-refines, spec_run, spec_step, step,
}
use cloudgw.Model.Tunnel.{VppUdpTunnel}
use cloudgw.Service.Tunnels.{inc_all, set_at}
use cloudgw.Service.World.{Libs}
use cloudgw.Prelude.{
  Bool-cases, List, Option, String, [], ap, arith, eq_iff, inl, inr, length, map, none, ok, refl,
  some, sym, true, ℕ, ◌%◌, ◌++◌, ◌+◌, ◌==◌, ◌>>=◌, ◌^◌, ◌∙◌, ◌∷◌, ◌≡◌, ◌⊎◌, string_Eq, ok-injective,
  panic, Outcome,
}

-- The number is that of the tunnel to the next hop. No tunnel is stored for an empty next hop.
abbrev pub IsTunnel : (String → Option VppUdpTunnel) → String → ℕ → Type 0
IsTunnel f nh id = ((nh == "") ≡ true) ⊎ ((t : VppUdpTunnel) × (f nh ≡ some t) × (t.tunnel_id ≡ id))

-- Each number is that of the tunnel to the next hop at its place.
abbrev pub AreTunnels : (String → Option VppUdpTunnel) → List String → List ℕ → Type 0
AreTunnels f [] ids = Unit
AreTunnels f (nh ∷ nhs) [] = ⊥
AreTunnels f (nh ∷ nhs) (id ∷ ids) = IsTunnel f nh id × AreTunnels f nhs ids

-- The map still has the tunnels, each with its number.
abbrev pub Keeps : (String → Option VppUdpTunnel) → (String → Option VppUdpTunnel) → Type 0
Keeps f g =
    (j : String) (t : VppUdpTunnel)
    → f j ≡ some t
    → (u : VppUdpTunnel) × (g j ≡ some u) × (u.tunnel_id ≡ t.tunnel_id)

pub Keeps-AreTunnels :
    (f g : String → Option VppUdpTunnel) (nhs : List String) (ids : List ℕ)
    → Keeps f g
    → AreTunnels f nhs ids
    → AreTunnels g nhs ids
Keeps-AreTunnels f g [] ids k a = tt
Keeps-AreTunnels f g (nh ∷ nhs) [] k a = a
Keeps-AreTunnels f g (nh ∷ nhs) (id ∷ ids) k (inl e, a) = (inl e, Keeps-AreTunnels f g nhs ids k a)
Keeps-AreTunnels f g (nh ∷ nhs) (id ∷ ids) k (inr (t, e, n), a) =
    let (u, d, m) = k nh t e in (inr (u, d, m ∙ n), Keeps-AreTunnels f g nhs ids k a)

rest-ok :
    (m : Outcome (List ℕ)) (x : ℕ) (ys : List ℕ)
    → (m >>= λ rest. ok (x ∷ rest)) ≡ ok ys
    → (zs : List ℕ) × (m ≡ ok zs) × (ys ≡ x ∷ zs)
rest-ok (ok zs) x ys e = (zs, refl, sym (ok-injective e))
rest-ok panic x ys e = absurd (ground arith)

-- The number at the place after the next hops that are done.
pub set_at-AreTunnels :
    (f : String → Option VppUdpTunnel) (nhs : List String) (nh : String) (ids ys : List ℕ) (id : ℕ)
    → AreTunnels f nhs ids
    → IsTunnel f nh id
    → set_at ids (length nhs) id ≡ ok ys
    → AreTunnels f (nhs ++ nh ∷ []) ys
set_at-AreTunnels f [] nh [] ys id a t e = absurd (ground arith)
set_at-AreTunnels f [] nh (x ∷ ids) [] id a t e = absurd (ground arith)
set_at-AreTunnels f [] nh (x ∷ ids) (y ∷ ys) id a t e =
    let same : id ≡ y = ground arith in (rw (← same) t, tt)
set_at-AreTunnels f (n ∷ nhs) nh [] ys id a t e = absurd a
set_at-AreTunnels f (n ∷ nhs) nh (x ∷ ids) ys id a t e =
    let (zs, g, h) = rest-ok (set_at ids (length nhs) id) x ys e in
    rw h (a.0, set_at-AreTunnels f nhs nh ids zs id a.1 t g)

-- A counter changes no number.
Keeps-incs : (nhs : List String) (f : TunnelMap) → Keeps f (spec_run (map incs nhs) f)
unfolding spec_run
Keeps-incs [] f j t e = (t, e, refl)
Keeps-incs (nh ∷ nhs) f j t e = elim (Bool-cases (nh == j)) [
  | inl h ↦
      let same : nh ≡ j = (eq_iff nh j).0 h in
      let (u, d, n) =
        Keeps-incs nhs (spec_step (incs nh) f) j
          (record t { fip_served = (t.fip_served + 1) % 2 ^ 32 }) (rw (h, same, e) refl) in
      (u, d, n)
  | inr h ↦ Keeps-incs nhs (spec_step (incs nh) f) j t (rw h e)
]

module _ (l : Libs) (laws : MemDbLaws (Libs.by_string l)) where
  abbrev pub tunnels_in : UdpTunnelStorage (Libs.by_string l) → String → Option VppUdpTunnel
  tunnels_in s j = get_udp_tunnel (Libs.by_string l) j s

  inc_all-run :
      (nhs : List String) (s : UdpTunnelStorage (Libs.by_string l))
      → inc_all l nhs s ≡ run laws (map incs nhs) s
  unfolding inc_all run step
  inc_all-run [] s = refl
  inc_all-run (nh ∷ nhs) s = inc_all-run nhs _

  pub inc_all-Keeps :
      (nhs : List String) (s : UdpTunnelStorage (Libs.by_string l))
      → IsValid laws udp_tunnel_schema s
      → Keeps (tunnels_in s) (tunnels_in (inc_all l nhs s))
  inc_all-Keeps nhs s v j t e =
      let (u, d, n) = Keeps-incs nhs (tunnels_in s) j t e in
      (
        u,
        ap (λ z. tunnels_in z j) (inc_all-run nhs s) ∙ run-refines laws (map incs nhs) s j v ∙ d,
        n,
      )

  add_view :
      (t : VppUdpTunnel) (s : UdpTunnelStorage (Libs.by_string l)) (j : String)
      → IsValid laws udp_tunnel_schema s
      → tunnels_in (add_udp_tunnel (Libs.by_string l) t s).1 j ≡ spec_step (adds t) (tunnels_in s) j
  unfolding run step spec_run
  add_view t s j v = run-refines laws (adds t ∷ []) s j v

  -- A tunnel to a next hop that has none.
  pub add_udp_tunnel-Keeps :
      (t : VppUdpTunnel) (s : UdpTunnelStorage (Libs.by_string l))
      → IsValid laws udp_tunnel_schema s
      → tunnels_in s t.dst_ip ≡ none
      → Keeps (tunnels_in s) (tunnels_in (add_udp_tunnel (Libs.by_string l) t s).1)
  add_udp_tunnel-Keeps t s v n j u e = elim (Bool-cases (t.dst_ip == "")) [
    | inl h ↦ (u, add_view t s j v ∙ rw h e, refl)
    | inr h ↦ elim (Bool-cases (t.dst_ip == j)) [
      | inl g ↦ absurd (cc ((eq_iff t.dst_ip j).0 g, n, e))
      | inr g ↦ (u, add_view t s j v ∙ rw (h, g) e, refl)
    ]
  ]

  pub add_udp_tunnel-IsTunnel :
      (t : VppUdpTunnel) (s : UdpTunnelStorage (Libs.by_string l))
      → IsValid laws udp_tunnel_schema s
      → IsTunnel (tunnels_in (add_udp_tunnel (Libs.by_string l) t s).1) t.dst_ip t.tunnel_id
  add_udp_tunnel-IsTunnel t s v = elim (Bool-cases (t.dst_ip == "")) [
    | inl h ↦ inl h
    | inr h ↦
        inr (t, add_view t s t.dst_ip v ∙ rw (h, (eq_iff t.dst_ip t.dst_ip).1 refl) refl, refl)
  ]
