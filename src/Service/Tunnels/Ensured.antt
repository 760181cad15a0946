-- ===== src/Service/Tunnels/Ensured.antt =====
-- The loop over the next hops that asks for tunnels (internal/service/tunnel_route_add.go): what it
-- keeps, and that it returns.
use cloudgw.Imdb.Memdb.{MemDbLaws, Result, failed, value, Error}
use cloudgw.Imdb.Table.Invariant.{IsValid, add-IsValid}
use cloudgw.Imdb.Table.View.{is_present-get, is_some}
use cloudgw.Imdb.UdpTunnels.{
  UdpTunnelStorage, get_udp_tunnel, is_udp_tunnel_exist, udp_tunnel_schema, add_udp_tunnel,
}
use cloudgw.Model.Tunnel.{VppUdpTunnel, new_vpp_udp_tunnel}
use cloudgw.Service.Tunnels.{
  Loop, goes_on, returns, set_at, tunnel_created, ensure_tunnel, ensure_tunnels,
}
use cloudgw.Service.Tunnels.Assigned.{
  AreTunnels, IsTunnel, tunnels_in, set_at-AreTunnels, Keeps-AreTunnels, add_udp_tunnel-Keeps,
  add_udp_tunnel-IsTunnel,
}
use cloudgw.Vpp.Total.{LeadsTo}
use cloudgw.Service.World.{World, Config, Libs}
use cloudgw.Vpp.{VppApi, vpp_add_udp_tunnel}
use cloudgw.Vpp.Total.{VppLaws, vpp_add_udp_tunnel-Returns}
use cloudgw.Prelude.{
  Outcome, Bool-cases, List, Option, Returns, Returns-bind, String, [], ap, arith, inl, inr, length,
  none, ok, refl, some, suc, sym, true, zero, ℕ, ◌+◌, ◌<◌, ◌∙◌, ◌∷◌, ◌≡◌, ◌≤◌, string_Eq, eq_iff,
  false, absent, Returns-next, append_nil, ◌++◌, subst,
}
use mathlib.Core.List.{append_assoc}

set_at-Returns :
    (xs : List ℕ) (i v : ℕ) → i < length xs → Returns (λ ys. length ys ≡ length xs) (set_at xs i v)
set_at-Returns [] i v h = absurd (omega arith)
set_at-Returns (x ∷ xs) zero v h = refl
set_at-Returns (x ∷ xs) (suc i) v h =
    Returns-bind (λ ys. length ys ≡ length xs) _ _ _ (set_at-Returns xs i v (omega (arith, h)))
      (λ ys e. ap suc e)

present-head : (j : String) (xs : List String) → absent j (j ∷ xs) ≡ false
present-head j xs = rw ((eq_iff j j).1 refl) refl

present-tail : (j x : String) (xs : List String) → absent j xs ≡ false → absent j (x ∷ xs) ≡ false
present-tail j x xs h = ground arith

next_place : (xs : List String) (x : String) → length (xs ++ x ∷ []) ≡ suc (length xs)
next_place [] x = refl
next_place (y ∷ xs) x = ap suc (next_place xs x)

module _ (l : Libs) where
  -- The last request was for a tunnel to one of the next hops, and it failed.
  abbrev pub TunnelRefused : List String → World l → Type 0
  TunnelRefused hops u =
      (t : VppUdpTunnel) × (st : VppApi.Stream (Libs.vpp_api l)) × (e : Error) × (absent t.dst_ip
          hops
        ≡ false)
      × (vpp_add_udp_tunnel (Libs.vpp_api l) t st ≡ ok (failed e, u.stream))

module _ (l : Libs) (laws : MemDbLaws (Libs.by_string l)) (w : World l) (hops : List String) where
  -- What the loop over the next hops keeps: the number of tunnels, the routes and the VRFs, the
  -- validity of the storage of tunnels, and the tunnels to the next hops that are done.
  pub record Goes (nhs : List String) (ids : List ℕ) (u : World l) : Type 0 where
    pub same_length : length ids ≡ length hops
    pub same_fips : u.fips ≡ w.fips
    pub same_vrfs : u.vpp_vrfs ≡ w.vpp_vrfs
    pub valid : IsValid laws udp_tunnel_schema u.tunnels
    pub assigned : AreTunnels (tunnels_in l laws u.tunnels) nhs ids

  abbrev pub LoopGoes : List String → Loop (List ℕ × World l) → Type 0
  LoopGoes nhs (goes_on (ids, u)) = Goes nhs ids u
  LoopGoes nhs (returns (ids, u)) = Goes [] ids u × TunnelRefused l hops u

  add_udp_tunnel-IsValid :
      (t : VppUdpTunnel) (s : UdpTunnelStorage (Libs.by_string l))
      → IsValid laws udp_tunnel_schema s
      → IsValid laws udp_tunnel_schema (add_udp_tunnel (Libs.by_string l) t s).1
  unfolding add_udp_tunnel
  add_udp_tunnel-IsValid t s v = add-IsValid laws udp_tunnel_schema t s v refl

  Goes-step :
      (done nhs : List String) (ids ys : List ℕ) (u v : World l)
      → length ys ≡ length ids
      → v.fips ≡ u.fips
      → v.vpp_vrfs ≡ u.vpp_vrfs
      → IsValid laws udp_tunnel_schema v.tunnels
      → AreTunnels (tunnels_in l laws v.tunnels) nhs ys
      → Goes done ids u
      → Goes nhs ys v
  Goes-step done nhs ids ys u v a b c d t g = record {
    same_length = a ∙ g.same_length;
    same_fips = b ∙ g.same_fips;
    same_vrfs = c ∙ g.same_vrfs;
    valid = d;
    assigned = t;
  }

  next_round :
      (done nhs : List String) (f : List ℕ → World l → Outcome (Loop (List ℕ × World l)))
      → ((ys : List ℕ) (v : World l) → Goes done ys v → Returns (LoopGoes nhs) (f ys v))
      → (a : Loop (List ℕ × World l)) → LoopGoes done a
      → Returns (LoopGoes nhs) (elim a [ goes_on x ↦ f x.0 x.1 | returns x ↦ ok (returns x) ])
  next_round done nhs f h (goes_on (ys, v)) k = h ys v k
  next_round done nhs f h (returns (ys, v)) k = k

  abbrev stored : VppUdpTunnel → VppApi.Stream (Libs.vpp_api l) → World l → World l
  stored t st u = record u {
    stream = st;
    tunnels = (add_udp_tunnel (Libs.by_string l) t u.tunnels).1;
  }

  tunnel_created-Goes :
      (done : List String) (nh : String) (ids : List ℕ) (u : World l) (x : Result VppUdpTunnel)
      (st : VppApi.Stream (Libs.vpp_api l))
      → length done < length hops
      → Goes done ids u
      → get_udp_tunnel (Libs.by_string l) nh u.tunnels ≡ none
      → LeadsTo nh x
      → ((e : Error) → x ≡ failed e → TunnelRefused l hops (record u { stream = st }))
      → Returns (LoopGoes (done ++ nh ∷ [])) (tunnel_created l (length done) ids u (x, st))
  unfolding tunnel_created
  tunnel_created-Goes done nh ids u (failed e) st h g n d k = (
    record {
      same_length = g.same_length;
      same_fips = g.same_fips;
      same_vrfs = g.same_vrfs;
      valid = g.valid;
      assigned = tt;
    },
    k e refl,
  )
  tunnel_created-Goes done nh ids u (value t) st h g n d k =
      Returns-next (λ ys. length ys ≡ length ids) (LoopGoes (done ++ nh ∷ [])) _ _
        (set_at-Returns ids (length done) t.tunnel_id (omega (arith, h, g.same_length)))
        (λ ys f e.
          Goes-step done (done ++ nh ∷ []) ids ys u (stored t st u) e refl refl
            (add_udp_tunnel-IsValid t u.tunnels g.valid)
            (set_at-AreTunnels (tunnels_in l laws (stored t st u).tunnels) done nh ids ys
              t.tunnel_id
              (Keeps-AreTunnels (tunnels_in l laws u.tunnels)
                (tunnels_in l laws (stored t st u).tunnels) done ids
                (add_udp_tunnel-Keeps l laws t u.tunnels g.valid (rw d n)) g.assigned)
              (subst
                (λ (j : String). IsTunnel (tunnels_in l laws (stored t st u).tunnels) j t.tunnel_id)
                d (add_udp_tunnel-IsTunnel l laws t u.tunnels g.valid))
              f)
            g)

  is_some-inv : (o : Option VppUdpTunnel) → is_some o ≡ true → (t : VppUdpTunnel) × (o ≡ some t)
  is_some-inv none h = cc
  is_some-inv (some t) h = (t, refl)

  is_none-inv : (o : Option VppUdpTunnel) → is_some o ≡ false → o ≡ none
  is_none-inv none h = refl
  is_none-inv (some t) h = cc

  found_tunnel :
      (nh : String) (s : UdpTunnelStorage (Libs.by_string l))
      → IsValid laws udp_tunnel_schema s
      → is_udp_tunnel_exist (Libs.by_string l) nh s ≡ true
      → (t : VppUdpTunnel) × (get_udp_tunnel (Libs.by_string l) nh s ≡ some t)
  unfolding is_udp_tunnel_exist get_udp_tunnel
  found_tunnel nh s v h = is_some-inv _ (sym (is_present-get laws udp_tunnel_schema nh s v) ∙ h)

  missing_tunnel :
      (nh : String) (s : UdpTunnelStorage (Libs.by_string l))
      → IsValid laws udp_tunnel_schema s
      → is_udp_tunnel_exist (Libs.by_string l) nh s ≡ false
      → get_udp_tunnel (Libs.by_string l) nh s ≡ none
  unfolding is_udp_tunnel_exist get_udp_tunnel
  missing_tunnel nh s v h = is_none-inv _ (sym (is_present-get laws udp_tunnel_schema nh s v) ∙ h)

  module _ (vlaws : VppLaws (Libs.vpp_api l)) (cfg : Config) (port : String → ℕ) where
    ensure_tunnel-Goes :
        (done : List String) (nh : String) (ids : List ℕ) (u : World l)
        → length done < length hops
        → absent nh hops ≡ false
        → Goes done ids u
        → Returns (LoopGoes (done ++ nh ∷ [])) (ensure_tunnel l cfg port (length done) nh ids u)
    unfolding ensure_tunnel new_vpp_udp_tunnel
    ensure_tunnel-Goes done nh ids u h a g =
        elim (Bool-cases (is_udp_tunnel_exist (Libs.by_string l) nh u.tunnels)) [
          | inl e ↦
              let (t, f) = found_tunnel nh u.tunnels g.valid e in
              rw (e, f, ensure_tunnel)
                (Returns-next (λ ys. length ys ≡ length ids) (LoopGoes (done ++ nh ∷ [])) _ _
                  (set_at-Returns ids (length done) t.tunnel_id (omega (arith, h, g.same_length)))
                  (λ ys z k.
                    Goes-step done (done ++ nh ∷ []) ids ys u u k refl refl g.valid
                      (set_at-AreTunnels (tunnels_in l laws u.tunnels) done nh ids ys t.tunnel_id
                        g.assigned (inr (t, f, refl)) z)
                      g))
          | inr e ↦
              rw (e, ensure_tunnel)
                (Returns-next (λ r. LeadsTo nh r.0) (LoopGoes (done ++ nh ∷ [])) _ _
                  (vpp_add_udp_tunnel-Returns vlaws _ u.stream)
                  (λ r k d.
                    tunnel_created-Goes done nh ids u r.0 r.1 h g
                      (missing_tunnel nh u.tunnels g.valid e) d
                      (λ x f. (_, u.stream, x, a, k ∙ ap (λ z. ok (z, r.1)) f))))
        ]

    -- The loop returns where the route has a tunnel slot for each next hop.
    pub ensure_tunnels-Goes :
        (done nhs : List String) (ids : List ℕ) (u : World l)
        → length done + length nhs ≤ length hops
        → ((j : String) → absent j nhs ≡ false → absent j hops ≡ false)
        → Goes done ids u
        → Returns (LoopGoes (done ++ nhs)) (ensure_tunnels l cfg port (length done) nhs ids u)
    unfolding ensure_tunnels
    ensure_tunnels-Goes done [] ids u h m g = rw (append_nil done) g
    ensure_tunnels-Goes done (nh ∷ nhs) ids u h m g =
        Returns-bind (LoopGoes (done ++ nh ∷ [])) (LoopGoes (done ++ nh ∷ nhs)) _ _
          (ensure_tunnel-Goes done nh ids u (omega (arith, h)) (m nh (present-head nh nhs)) g)
          (next_round (done ++ nh ∷ []) (done ++ nh ∷ nhs)
            (ensure_tunnels l cfg port (suc (length done)) nhs)
            (λ ys v k.
              rw (← next_place done nh, ← append_assoc done (nh ∷ []) nhs)
                (ensure_tunnels-Goes (done ++ nh ∷ []) nhs ys v
                  (omega (arith, h, next_place done nh)) (λ j x. m j (present-tail j nh nhs x)) k)))
