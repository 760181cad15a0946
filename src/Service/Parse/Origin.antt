-- ===== src/Service/Parse/Origin.antt =====
-- Where an update comes from, as the parsers say it (internal/service/parse_bgp_update.go and
-- parse_bgp_update_tf.go).
use cloudgw.Imdb.BgpPeers.{TypeMap, lookup_type}
use cloudgw.Imdb.Memdb.{Result-cases, value}
use cloudgw.Model.Nlri.{new_bgp_nlri_attrs}
use cloudgw.Model.Peer.{tf, phynet}
use cloudgw.Service.Parse.{
  BgpPath, JsonApi, NextHopMap, Parsed, has_vrf, parse_bgp_update, parse_from_tf,
  parse_vpnv4_update_from_tf, scan_communities, nothing_parsed, wrong_length, tf_attrs,
  new_bgp_nlri_attrs, parse_vpnv4_update_from_phynet,
}
use cloudgw.Prelude.{
  Bool-cases, List, Option-cases, Returns, [], arith, false, index, inl, inr, length, ltb, none, ok,
  panic, some, true, ℕ, ◌&&◌, ◌==◌, ◌∷◌, ◌≡◌, ◌≤◌, ◌<◌, is_int, to_u32, ℤ, if◌then◌else◌, refl,
  nat_eq_iff, ap, ◌⊎◌, nat_Eq, ◌∙◌, Returns-mono, pos, negsuc, ◌^◌,
}

-- Every number is one of 32 bits.
abbrev pub AllBelow : List ℕ → Type 0
AllBelow [] = Unit
AllBelow (x ∷ xs) = (x < 2 ^ 32) × AllBelow xs

to_u32-bound : (z : ℤ) → to_u32 z < 2 ^ 32
to_u32-bound (pos n) = omega arith
to_u32-bound (negsuc n) = omega arith

-- A result that names a controller as the source has no error, an id of a known VRF, and comes from
-- a path with five attributes; its numbers have 32 bits.
abbrev pub IsMatched : NextHopMap → ℕ → Parsed → Type 0
IsMatched vrfs n p =
    (p.from_pn ≡ false)
    × (p.from_tf ≡ true
        → (has_vrf p.attrs.vrf_id vrfs ≡ true)
          × (p.err ≡ none)
          × (5 ≤ n)
          × (p.attrs.vrf_id < 2 ^ 32)
          × AllBelow p.attrs.mpls_label)

module _ (j : JsonApi) where
  open j use {Any, Bytes, Value, marshal, get_path, get_field, show_value, items, is_there, atoi}

  community-IsMatched :
      (nlri : Bytes) (vrfs : NextHopMap) (tf_asn n : ℕ) (asn admin : ℤ) (rest : Parsed)
      → IsMatched vrfs n rest
      → IsMatched vrfs n (
          if is_int asn tf_asn && has_vrf (to_u32 admin) vrfs
          then if ltb n 5 then nothing_parsed (some wrong_length) else record {
            from_tf = true;
            from_pn = false;
            attrs = tf_attrs j nlri admin;
            err = none;
          }
          else rest)
  unfolding new_bgp_nlri_attrs
  community-IsMatched nlri vrfs tf_asn n asn admin rest ih = elim (Bool-cases (is_int asn tf_asn)) [
    | inr is_not ↦ rw is_not ih
    | inl is_so ↦ elim (Bool-cases (has_vrf (to_u32 admin) vrfs)) [
      | inr is_not ↦ rw (is_so, is_not) ih
      | inl known ↦ elim (Bool-cases (ltb n 5)) [
        | inl short ↦ rw (is_so, known, short) (refl, λ h. cc)
        | inr long ↦
            rw (is_so, known, long)
              (refl, λ h. (known, refl, ground arith, to_u32-bound admin, (to_u32-bound _, tt)))
      ]
    ]
  ]

  scan_communities-IsMatched :
      (nlri : Bytes) (vrfs : NextHopMap) (tf_asn n : ℕ) (cs : List Value)
      → IsMatched vrfs n (scan_communities j nlri vrfs tf_asn n cs)
  unfolding scan_communities
  scan_communities-IsMatched nlri vrfs tf_asn n [] = (refl, λ h. cc)
  scan_communities-IsMatched nlri vrfs tf_asn n (c ∷ cs) =
      let ih = scan_communities-IsMatched nlri vrfs tf_asn n cs in
      elim (Bool-cases (is_there (get_field c "asn"))) [
        | inr is_not ↦ rw (is_not, scan_communities) ih
        | inl is_so ↦ elim (Result-cases (atoi (show_value (get_field c "asn")))) [
          | inl (e, bad) ↦ rw (is_so, bad, scan_communities) (refl, λ h. cc)
          | inr (asn, good) ↦ elim (Result-cases (atoi (show_value (get_field c "local_admin")))) [
            | inl (e, bad) ↦ rw (is_so, good, bad, scan_communities) (refl, λ h. cc)
            | inr (admin, fine) ↦
                rw (is_so, good, fine, scan_communities)
                  (community-IsMatched nlri vrfs tf_asn n asn admin
                    (scan_communities j nlri vrfs tf_asn n cs) ih)
          ]
        ]
      ]

  attrs-IsMatched :
      (nlri communities : Bytes) (vrfs : NextHopMap) (tf_asn n : ℕ)
      → IsMatched vrfs n (parse_vpnv4_update_from_tf j nlri vrfs tf_asn n communities)
  unfolding parse_vpnv4_update_from_tf
  attrs-IsMatched nlri communities vrfs tf_asn n = elim (Bool-cases (ltb n 4)) [
    | inl short ↦ rw (short, parse_vpnv4_update_from_tf) (refl, λ h. cc)
    | inr long ↦
        rw (long, parse_vpnv4_update_from_tf)
          (scan_communities-IsMatched nlri vrfs tf_asn n
            (items (get_path communities "communities")))
  ]

  from_tf-Origin :
      (path : BgpPath j) (vrfs : NextHopMap) (tf_asn : ℕ) (nlri : Bytes) (a : Any)
      → index path.pattrs 3 ≡ ok a
      → Returns (IsMatched vrfs (length path.pattrs)) (parse_from_tf j path vrfs tf_asn nlri)
  unfolding parse_from_tf
  from_tf-Origin path vrfs tf_asn nlri a e = elim (Result-cases (marshal a)) [
    | inl (x, bad) ↦ rw (e, bad, parse_from_tf) (refl, λ h. cc)
    | inr (communities, good) ↦
        rw (e, good, parse_from_tf)
          (attrs-IsMatched nlri communities vrfs tf_asn (length path.pattrs))
  ]

  -- The fourth attribute is there exactly when there are four.
  fourth :
      {A : Type 0} (xs : List A)
      → ((length xs < 4) × (index xs 3 ≡ panic))
        ⊎ ((4 ≤ length xs) × ((a : A) × (index xs 3 ≡ ok a)))
  fourth [] = inl (omega arith, refl)
  fourth (a ∷ []) = inl (omega arith, refl)
  fourth (a ∷ b ∷ []) = inl (omega arith, refl)
  fourth (a ∷ b ∷ c ∷ []) = inl (omega arith, refl)
  fourth (a ∷ b ∷ c ∷ d ∷ rest) = inr (omega arith, (d, refl))

  -- An update of a controller whose prefix the library can print panics the gateway where the path
  -- has fewer than four attributes: the fourth is indexed before its number is looked at.
  pub parse_bgp_update-short :
      (path : BgpPath j) (vrfs : NextHopMap) (types : TypeMap) (tf_asn cloudgw_asn : ℕ)
      (nlri : Bytes)
      → lookup_type path.neighbor_ip types ≡ some tf
      → marshal path.nlri ≡ value nlri
      → length path.pattrs < 4
      → parse_bgp_update j path vrfs types tf_asn cloudgw_asn ≡ panic
  unfolding parse_bgp_update parse_from_tf
  parse_bgp_update-short path vrfs types tf_asn cloudgw_asn nlri t m short =
      elim (fourth path.pattrs) [
        | inl (l, e) ↦ rw (t, m, parse_bgp_update, parse_from_tf, e) refl
        | inr (l, r) ↦ absurd (omega (arith, short, l))
      ]

  -- A right answer to where an update comes from: a controller only where the peer is one,
  -- with the id of a known VRF, no error and at least five attributes; the physical network
  -- only where the peer is of that network; never both.
  abbrev pub IsOrigin : BgpPath j → NextHopMap → TypeMap → Parsed → Type 0
  IsOrigin path vrfs types p =
      (p.from_tf ≡ true
        → (lookup_type path.neighbor_ip types ≡ some tf)
          × (p.from_pn ≡ false)
          × (has_vrf p.attrs.vrf_id vrfs ≡ true)
          × (p.err ≡ none)
          × (5 ≤ length path.pattrs)
          × (p.attrs.vrf_id < 2 ^ 32)
          × AllBelow p.attrs.mpls_label)
      × (p.from_pn ≡ true
          → (lookup_type path.neighbor_ip types ≡ some phynet)
            × (p.from_tf ≡ false)
            × (p.err ≡ none))

  controller-IsOrigin :
      (path : BgpPath j) (vrfs : NextHopMap) (types : TypeMap) (tf_asn : ℕ) (nlri : Bytes)
      → lookup_type path.neighbor_ip types ≡ some tf
      → 4 ≤ length path.pattrs
      → Returns (IsOrigin path vrfs types) (parse_from_tf j path vrfs tf_asn nlri)
  controller-IsOrigin path vrfs types tf_asn nlri t long = elim (fourth path.pattrs) [
    | inl (short, e) ↦ absurd (omega (arith, short, long))
    | inr (l, (a, e)) ↦
        Returns-mono (IsMatched vrfs (length path.pattrs)) (IsOrigin path vrfs types) _
          (λ p h. (λ k. (t, h.0, (h.1 k).0, (h.1 k).1, (h.1 k).2, (h.1 k).3, (h.1 k).4), λ k. cc))
          (from_tf-Origin path vrfs tf_asn nlri a e)
  ]

  -- The parser returns for every path with at least four attributes, and what it then says of the
  -- source is right: a controller only where the peer is one, with the id of a known VRF, no error,
  -- at least five attributes, and an id and labels of 32 bits, whatever integers the text holds;
  -- the physical network only where the peer is of that network; never both.
  pub parse_bgp_update-IsOrigin :
      (path : BgpPath j) (vrfs : NextHopMap) (types : TypeMap) (tf_asn cloudgw_asn : ℕ)
      → 4 ≤ length path.pattrs
      → Returns (IsOrigin path vrfs types) (parse_bgp_update j path vrfs types tf_asn cloudgw_asn)
  unfolding parse_bgp_update parse_vpnv4_update_from_phynet
  parse_bgp_update-IsOrigin path vrfs types tf_asn cloudgw_asn long =
      elim (Option-cases (lookup_type path.neighbor_ip types)) [
        | inl none' ↦ rw (none', parse_bgp_update) (λ h. cc, λ h. cc)
        | inr (t, e) ↦ elim (Result-cases (marshal path.nlri)) [
          | inl (x, bad) ↦ rw (e, bad, parse_bgp_update) (λ h. cc, λ h. cc)
          | inr (nlri, good) ↦ elim (Bool-cases (t == tf)) [
            | inl controller ↦
                rw (e, good, parse_bgp_update, controller)
                  (controller-IsOrigin path vrfs types tf_asn nlri
                    (e ∙ ap some ((nat_eq_iff t tf).0 controller)) long)
            | inr other ↦ elim (Bool-cases (t == phynet)) [
              | inl router ↦
                  rw (e, good, parse_bgp_update, other, router)
                    (λ h. cc, λ h. (e ∙ ap some ((nat_eq_iff t phynet).0 router), refl, refl))
              | inr neither ↦ rw (e, good, parse_bgp_update, other, neither) (λ h. cc, λ h. cc)
            ]
          ]
        ]
      ]
