-- ===== src/Initialize/Ended.antt =====
-- How the set up of the forwarder ends (AddVPPInitConfig of
-- internal/repository/vpp/initialize/add_config.go).
use cloudgw.Imdb.Memdb.{Error, MemDb, Result, Result-cases, failed, value, Error, library}
use cloudgw.Imdb.Table.{poke, Objects, collect}
use cloudgw.Imdb.VppVrfs.{VppVrfStorage, vpp_vrf_schema}
use cloudgw.Initialize.{
  Ran, Run, act, configure, add_vpp_init_config, attach_sub_interface, attach_sub_interfaces,
  black_hole_routes, crashes, default_route, done, fails, finish, for_each, setup_first, unended,
  unless_default, ◌>>=◌,
}
use cloudgw.Model.Route.{VppIpRoute}
use cloudgw.Model.Vrf.{VppVrfTable, undefined_sub_if}
use cloudgw.Vpp.{ip_path, VppApi, add_del_ip_route, ip_route_add_del, parse_next_hops, ip_path}
use cloudgw.Vpp.Setup.{add_del_vrf, Action, add_del_mpls_local_label_route, add_sub_interface}
use cloudgw.Vpp.Setup.Returned.{
  Always, add_black_hole_ip_route-Returns, add_del_mpls_local_label_route-Returns,
  add_del_mpls_table-Returns, add_del_vrf-Returns, add_sub_interface-Returns, add_udp_decap-Returns,
  setup_main_interface-Returns,
}
use cloudgw.Vpp.Total.{VppLaws, exchange-Answers, route_reply-Returns}
use cloudgw.Prelude.{
  Bool, Bool-cases, List, Option, Option-cases, Outcome, Returns, Returns-bind, String, [], arith,
  false, if◌then◌else◌, inl, inr, length, ltb, map, none, not, ok, panic, some, true, ℕ, ◌%◌, ◌&&◌,
  ◌==◌, ◌^◌, ◌∷◌, ◌≡◌, nat_Eq, refl,
}

-- The run ends, with a result or an error.
abbrev pub Ends {ℓ} : {A : Type ℓ} → Ran A → Type 0
Ends (done a) = Unit
Ends (fails e) = Unit
Ends crashes = ⊥
Ends unended = ⊥

-- The VRFs that the storage tells, in the order of their names; none where it does not tell them.
abbrev pub told_vrfs : (m : MemDb ℕ) → Result (List ℕ) → VppVrfStorage m → List VppVrfTable
told_vrfs m (failed e) s = []
told_vrfs m (value ps) s = collect m vpp_vrf_schema ps s.objects

-- What a set up does with some VRFs: with none or one it fails before its first request; with more
-- it ends.
abbrev pub SetsUp : {S : Type 0} {A : Type 0} → List VppVrfTable → S → Ran A × S → Type 0
SetsUp [] st r = (e : Error) × (r ≡ (fails e, st))
SetsUp (t ∷ []) st r = (e : Error) × (r ≡ (fails e, st))
SetsUp (t ∷ u ∷ ts) st r = Ends r.0

few-SetsUp :
    {S : Type 0} (A : Type 0) (vrfs : List VppVrfTable) (st : S) (e : Error)
    → ltb (length vrfs) 2 ≡ true
    → SetsUp {A = A} vrfs st (fails e, st)
few-SetsUp A [] st e h = (e, refl)
few-SetsUp A (t ∷ []) st e h = (e, refl)
few-SetsUp A (t ∷ u ∷ ts) st e h = tt

many-SetsUp :
    {S : Type 0} {A : Type 0} (vrfs : List VppVrfTable) (st : S) (r : Ran A × S)
    → ltb (length vrfs) 2 ≡ false
    → Ends r.0
    → SetsUp vrfs st r
many-SetsUp [] st r h k = absurd (ground arith)
many-SetsUp (t ∷ []) st r h k = absurd (ground arith)
many-SetsUp (t ∷ u ∷ ts) st r h k = k

module _ {v : VppApi} (laws : VppLaws v) where
  open v use {Address, Prefix, Stream}

  abbrev pub EndedIn : {A : Type 0} → Ran A × Stream → Type 0
  EndedIn r = Ends r.0

  -- Whatever the stream is, the run ends.
  record IsEnding {A : Type 0} (f : Run v A) : Type 0 where
    ends : (st : Stream) → Ends (f st).0

  bind-Ends :
      {A B : Type 0} (f : Run v A) (g : A → Run v B)
      → IsEnding f
      → ((a : A) → IsEnding (g a))
      → IsEnding (◌>>=◌ v f g)
  unfolding ◌>>=◌
  bind-Ends {A = A} {B = B} f g a b = record { ends = λ st. next (f st) (a.ends st) }
    where
      next :
          (r : Ran A × Stream)
          → Ends r.0
          → EndedIn {A = B} (elim r.0 [
            | done x ↦ g x r.1
            | fails e ↦ (fails e, r.1)
            | crashes ↦ (crashes, r.1)
            | unended ↦ (unended, r.1)
          ])
      next (done x, st1) h = (b x).ends st1
      next (fails e, st1) h = tt
      next (crashes, st1) h = absurd h
      next (unended, st1) h = absurd h

  act-Ends : (f : Action v) → Always laws f → IsEnding (act v f)
  act-Ends f a = record { ends = λ st. next st (f st) (a st) }
    where
      next :
          (st : Stream) (r : Outcome (Option Error × Stream))
          → Returns (λ _. Unit {0}) r
          → EndedIn {A = Unit {0}} (elim r [
            | ok (err, st1) ↦ elim err [ some e ↦ (fails e, st1) | none ↦ (done tt, st1) ]
            | panic ↦ (crashes, st)
          ])
      next st (ok (some e, st1)) h = tt
      next st (ok (none, st1)) h = tt
      next st panic h = absurd h

  for_each-Ends :
      {A : Type 0} (f : A → Run v (Unit {0})) (xs : List A)
      → ((a : A) → IsEnding (f a))
      → IsEnding (for_each v f xs)
  unfolding for_each
  for_each-Ends f [] h = record { ends = λ st. tt }
  for_each-Ends f (x ∷ xs) h =
      bind-Ends (f x) (λ u. for_each v f xs) (h x) (λ u. for_each-Ends f xs h)

  if-Ends :
      {A : Type 0} (b : Bool) (f g : Run v A)
      → IsEnding f
      → IsEnding g
      → IsEnding (if b then f else g)
  if-Ends true f g x y = x
  if-Ends false f g x y = y

  unless_default-Ends :
      (f : VppVrfTable → Run v (Unit {0})) (vrfs : List VppVrfTable)
      → ((t : VppVrfTable) → IsEnding (f t))
      → IsEnding (for_each v (unless_default v f) vrfs)
  unless_default-Ends f vrfs h =
      for_each-Ends (unless_default v f) vrfs
        (λ t. if-Ends (t.id == 0) (finish v tt) (f t) (record { ends = λ st. tt }) (h t))

  routes-Returns : (b : Bool) (r : VppIpRoute) → Always laws (add_del_ip_route v b r)
  unfolding add_del_ip_route
  routes-Returns b r st = elim (Result-cases (VppApi.parse_prefix v r.prefix)) [
    | inl (e, h) ↦ rw (add_del_ip_route, h) tt
    | inr (p, h) ↦ elim (Result-cases (parse_next_hops v r.next_hops)) [
      | inl (e, g) ↦ rw (add_del_ip_route, h, g) tt
      | inr (hops, g) ↦
          elim (Bool-cases (not (r.vrf_id == 0) && r.sub_interface_id == undefined_sub_if)) [
            | inl c ↦ simp (add_del_ip_route, h, g, c) tt
            | inr c ↦
                let paths =
                  map
                    (ip_path v r.vrf_id
                      (if r.vrf_id == 0 then r.main_interface_id else r.sub_interface_id))
                    hops in
                simp (add_del_ip_route, h, g, c)
                  (Returns-bind (λ _. Unit {0}) (λ _. Unit {0}) _ _
                    (route_reply-Returns laws b true r.vrf_id p (length r.next_hops % 2 ^ 8) paths _
                      (exchange-Answers laws
                        (ip_route_add_del b true r.vrf_id p (length r.next_hops % 2 ^ 8) paths) st))
                    (λ e u. tt))
          ]
    ]
  ]

  attach-Ends :
      (p : ℕ) (t : VppVrfTable) (o : Objects VppVrfTable) → IsEnding (attach_sub_interface v p t o)
  unfolding attach_sub_interface
  attach-Ends p t o = record {
    ends = λ st. next st (add_sub_interface v t st) (add_sub_interface-Returns laws t st);
  }
    where
      next :
          (st : Stream) (r : Outcome (Result ℕ × Stream))
          → Returns (λ _. Unit {0}) r
          → EndedIn {A = Objects VppVrfTable} (elim r [
            | panic ↦ (crashes, st)
            | ok (c, st1) ↦ elim c [
              | failed e ↦ (fails e, st1)
              | value id ↦ (done (poke p (record t { sub_interface_id = id }) o), st1)
            ]
          ])
      next st (ok (failed e, st1)) h = tt
      next st (ok (value id, st1)) h = tt
      next st panic h = absurd h

  attach_all-Ends :
      (ps : List ℕ) (o : Objects VppVrfTable) → IsEnding (attach_sub_interfaces v ps o)
  unfolding attach_sub_interfaces
  attach_all-Ends [] o = record { ends = λ st. tt }
  attach_all-Ends (p ∷ ps) o = elim (Option-cases (o.cell p)) [
    | inl h ↦ rw (attach_sub_interfaces, h) (attach_all-Ends ps o)
    | inr (t, h) ↦
        simp (attach_sub_interfaces, h)
          (bind-Ends (if t.id == 0 then finish v o else attach_sub_interface v p t o)
            (λ o1. attach_sub_interfaces v ps o1)
            (if-Ends (t.id == 0) (finish v o) (attach_sub_interface v p t o)
              (record { ends = λ st. tt }) (attach-Ends p t o))
            (λ o1. attach_all-Ends ps o1))
  ]

  setup_first-Ends :
      (vrfs : List VppVrfTable) → ltb (length vrfs) 2 ≡ false → IsEnding (setup_first v vrfs)
  setup_first-Ends [] h = absurd (ground arith)
  setup_first-Ends (t ∷ ts) h = act-Ends _ (setup_main_interface-Returns laws t)

  configure-Ends :
      (m : MemDb ℕ) (main_id : ℕ) (gateway : String) (ps : List ℕ) (vrfs : List VppVrfTable)
      (s : VppVrfStorage m)
      → ltb (length vrfs) 2 ≡ false
      → IsEnding (configure v m main_id gateway ps vrfs s)
  unfolding configure
  configure-Ends m main_id gateway ps vrfs s many =
      bind-Ends _ _
        (unless_default-Ends (λ t. act v (add_del_vrf v true t)) vrfs
          (λ t. act-Ends _ (add_del_vrf-Returns laws true t)))
        (λ u1. bind-Ends _ _ (act-Ends _ (add_del_mpls_table-Returns laws true)) (λ u2.
          bind-Ends _ _ (setup_first-Ends vrfs many) (λ u3.
            bind-Ends _ _ (attach_all-Ends ps s.objects) (λ o.
              bind-Ends _ _ (act-Ends _ (add_udp_decap-Returns laws)) (λ u4.
                bind-Ends _ _
                  (unless_default-Ends (λ t. act v (add_del_mpls_local_label_route v true t))
                    (collect m vpp_vrf_schema ps o)
                    (λ t. act-Ends _ (add_del_mpls_local_label_route-Returns laws true t)))
                  (λ u5.
                    bind-Ends _ _
                      (act-Ends _ (routes-Returns true (default_route v main_id gateway)))
                      (λ u6.
                        bind-Ends _ (λ u7. finish v (record s { objects = o }))
                          (for_each-Ends _ (black_hole_routes v main_id vrfs)
                            (λ r. act-Ends _ (add_black_hole_ip_route-Returns laws r)))
                          (λ u7. record { ends = λ st. tt }))))))))

  -- Where the stream answers each request with its own kind of reply, the set up of the forwarder
  -- ends, with the storage of the VRFs or with an error: no cast of a reply panics. With fewer than
  -- two VRFs, or where the storage does not tell them, it fails before its first request.
  pub add_vpp_init_config-Ends :
      (m : MemDb ℕ) (main_id : ℕ) (gateway : String) (s : VppVrfStorage m) (st : Stream)
      → SetsUp
          (told_vrfs m (MemDb.walk_name m s.db) s)
          st
          (add_vpp_init_config v m main_id gateway s st)
  unfolding add_vpp_init_config
  add_vpp_init_config-Ends m main_id gateway s st = elim (Result-cases (MemDb.walk_name m s.db)) [
    | inl (e, h) ↦
        rw (add_vpp_init_config, h) (library "found 0 vrf(s) in storage (need at least 2)", refl)
    | inr (ps, h) ↦
        let vrfs = collect m vpp_vrf_schema ps s.objects in
        elim (Bool-cases (ltb (length vrfs) 2)) [
          | inl few ↦ rw (add_vpp_init_config, h, few) (few-SetsUp _ vrfs st _ few)
          | inr many ↦
              rw (add_vpp_init_config, h, many)
                (many-SetsUp vrfs st _ many
                  ((configure-Ends m main_id gateway ps vrfs s many).ends st))
        ]
  ]
