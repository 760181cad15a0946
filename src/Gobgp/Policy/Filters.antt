-- ===== src/Gobgp/Policy/Filters.antt =====
-- The export policy that is made does what it is for (CreateGoBGPPolicy of
-- internal/repository/gobgp/gobgp.go).
use cloudgw.Gobgp.Policy.Meaning.{
  PolicyLaws, Filters, find, intended, first_action, are_defined, all_distinct, are_hosts,
  is_readable,
}
use cloudgw.Gobgp.Policy.{
  join, set_name, create_set, policy_statements, policy_of, with_set, create_gobgp_policy,
  create_gobgp_prefix_set, create_gobgp_neighbor_set, add_bgp_global_export_policy, names_of,
}
use cloudgw.Gobgp.Policy.Names.{
  fourth_named, fifth_named, IsAcceptable, all_distinct-tail, is_nil, apart, without_second,
  matches-is_host_in, named-is_nil, neq_sym, policy_name_of, rule_names_of,
}
use cloudgw.Gobgp.Server.{
  BgpControl, DefinedSet, prefix_set, neighbor_set, Statement, Policy, accept,
}
use cloudgw.Imdb.Memdb.{value}
use cloudgw.Prelude.{
  List, String, [], arith, eq_iff, false, none, refl, some, true, ℕ, ◌==◌, ◌∙◌, ◌∷◌, ◌≡◌, nat_Eq,
  string_Eq, ◌≤◌,
}
use mathlib.Core.Path.{fun_ext}

module _ (c : BgpControl) (laws : PolicyLaws c) (sprint : ℕ → String)
    (md5_hex : String → String) where
  open c use {Conn}

  -- The sets of the server are those of the list.
  abbrev Has : Conn → List DefinedSet → Type 0
  Has conn ds = (j : String) → laws.sets conn j ≡ find ds j

  record Adds (ds : List DefinedSet) (d : DefinedSet) (conn : Conn) : Type 0 where
    pub after : Conn
    pub makes : create_set c sprint md5_hex d conn ≡ (value d, after)
    pub has : Has after (d ∷ ds)
    pub keeps : (j : String) → laws.knows after j ≡ laws.knows conn j
    pub keeps_statements : (j : String) → laws.states after j ≡ laws.states conn j

  create_set-Adds :
      (ds : List DefinedSet) (d : DefinedSet) (conn : Conn)
      → is_readable laws.is_host d ≡ true
      → Has conn ds
      → find ds (set_name d) ≡ none
      → Adds ds d conn
  unfolding create_set
  create_set-Adds ds d conn i h f =
      let new = laws.add_defined_set-new d conn i (h (set_name d) ∙ f) in
      record {
        after = (c.add_defined_set d conn).1;
        makes = rw (new.0) refl;
        has = λ j. new.1 j ∙ rw (h j) refl;
        keeps = new.2;
        keeps_statements = new.3;
      }

  abbrev whole_range : String → ℕ → ℕ → DefinedSet
  whole_range name min max =
      prefix_set name
        (record { ip_prefix = "0.0.0.0/0"; mask_length_min = min; mask_length_max = max } ∷ [])

  module _ (n1 n2 n3 n4 n5 : String) (tfs phynets : List String)
      (distinct : all_distinct ("" ∷ n1 ∷ n2 ∷ n3 ∷ n4 ∷ n5 ∷ []) ≡ true)
      (rules_distinct : all_distinct ("" ∷ rule_names_of md5_hex n1 n2 n3 n4 n5) ≡ true)
      (named : (policy_name_of md5_hex (rule_names_of md5_hex n1 n2 n3 n4 n5) == "") ≡ false)
      (tf_hosts : are_hosts laws.is_host tfs ≡ true)
      (phynet_hosts : are_hosts laws.is_host phynets ≡ true) (some_tf : is_nil tfs ≡ false)
      (some_phynet : is_nil phynets ≡ false) where
    abbrev hosts : DefinedSet
    hosts = whole_range n1 32 32

    abbrev default_set : DefinedSet
    default_set = whole_range n2 0 0

    abbrev others : DefinedSet
    others = whole_range n3 1 32

    abbrev all_sets : List DefinedSet
    all_sets = neighbor_set n5 phynets ∷ neighbor_set n4 tfs ∷ others ∷ default_set ∷ hosts ∷ []

    d1 : all_distinct (n1 ∷ n2 ∷ n3 ∷ n4 ∷ n5 ∷ []) ≡ true
    d1 = (all_distinct-tail "" (n1 ∷ n2 ∷ n3 ∷ n4 ∷ n5 ∷ []) distinct)

    d2 : all_distinct (n2 ∷ n3 ∷ n4 ∷ n5 ∷ []) ≡ true
    d2 = all_distinct-tail n1 (n2 ∷ n3 ∷ n4 ∷ n5 ∷ []) d1

    d3 : all_distinct (n3 ∷ n4 ∷ n5 ∷ []) ≡ true
    d3 = all_distinct-tail n2 (n3 ∷ n4 ∷ n5 ∷ []) d2

    d4 : all_distinct (n4 ∷ n5 ∷ []) ≡ true
    d4 = all_distinct-tail n3 (n4 ∷ n5 ∷ []) d3

    e10 : (n1 == "") ≡ false
    e10 = apart "" n1 (n2 ∷ n3 ∷ n4 ∷ n5 ∷ []) distinct

    e20 : (n2 == "") ≡ false
    e20 = apart "" n2 (n3 ∷ n4 ∷ n5 ∷ []) (without_second "" n1 (n2 ∷ n3 ∷ n4 ∷ n5 ∷ []) distinct)

    e30 : (n3 == "") ≡ false
    e30 = apart "" n3 (n4 ∷ n5 ∷ []) (
        without_second "" n2 (n3 ∷ n4 ∷ n5 ∷ [])
          (without_second "" n1 (n2 ∷ n3 ∷ n4 ∷ n5 ∷ []) distinct))

    e40 : (n4 == "") ≡ false
    e40 = fourth_named n1 n2 n3 n4 n5 distinct

    e50 : (n5 == "") ≡ false
    e50 = fifth_named n1 n2 n3 n4 n5 distinct

    e21 : (n2 == n1) ≡ false
    e21 = apart n1 n2 (n3 ∷ n4 ∷ n5 ∷ []) d1

    e31 : (n3 == n1) ≡ false
    e31 = apart n1 n3 (n4 ∷ n5 ∷ []) (without_second n1 n2 (n3 ∷ n4 ∷ n5 ∷ []) d1)

    e41 : (n4 == n1) ≡ false
    e41 =
        apart n1 n4 (n5 ∷ [])
          (without_second n1 n3 (n4 ∷ n5 ∷ []) (without_second n1 n2 (n3 ∷ n4 ∷ n5 ∷ []) d1))

    e51 : (n5 == n1) ≡ false
    e51 = apart n1 n5 ([]) (
        without_second n1 n4 (n5 ∷ [])
          (without_second n1 n3 (n4 ∷ n5 ∷ []) (without_second n1 n2 (n3 ∷ n4 ∷ n5 ∷ []) d1)))

    e32 : (n3 == n2) ≡ false
    e32 = apart n2 n3 (n4 ∷ n5 ∷ []) d2

    e42 : (n4 == n2) ≡ false
    e42 = apart n2 n4 (n5 ∷ []) (without_second n2 n3 (n4 ∷ n5 ∷ []) d2)

    e52 : (n5 == n2) ≡ false
    e52 = apart n2 n5 ([]) (without_second n2 n4 (n5 ∷ []) (without_second n2 n3 (n4 ∷ n5 ∷ []) d2))

    e43 : (n4 == n3) ≡ false
    e43 = apart n3 n4 (n5 ∷ []) d3

    e53 : (n5 == n3) ≡ false
    e53 = apart n3 n5 ([]) (without_second n3 n4 (n5 ∷ []) d3)

    e54 : (n5 == n4) ≡ false
    e54 = apart n4 n5 ([]) d4

    same : (s : String) → (s == s) ≡ true
    same s = (eq_iff s s).1 refl

    found1 : find all_sets n1 ≡ some hosts
    found1 = rw (e51, e41, e31, e21, same n1) refl

    found2 : find all_sets n2 ≡ some default_set
    found2 = rw (e52, e42, e32, same n2) refl

    found3 : find all_sets n3 ≡ some others
    found3 = rw (e53, e43, same n3) refl

    found4 : find all_sets n4 ≡ some (neighbor_set n4 tfs)
    found4 = rw (e54, same n4) refl

    found5 : find all_sets n5 ≡ some (neighbor_set n5 phynets)
    found5 = rw (same n5) refl

    readable1 : is_readable laws.is_host hosts ≡ true
    readable1 = rw e10 refl

    readable2 : is_readable laws.is_host default_set ≡ true
    readable2 = rw e20 refl

    readable3 : is_readable laws.is_host others ≡ true
    readable3 = rw e30 refl

    readable4 : is_readable laws.is_host (neighbor_set n4 tfs) ≡ true
    readable4 = rw (e40, tf_hosts) refl

    readable5 : is_readable laws.is_host (neighbor_set n5 phynets) ≡ true
    readable5 = rw (e50, phynet_hosts) refl

    fresh2 : find (hosts ∷ []) n2 ≡ none
    fresh2 = rw (neq_sym n2 n1 e21) refl

    fresh3 : find (default_set ∷ hosts ∷ []) n3 ≡ none
    fresh3 = rw (neq_sym n3 n2 e32, neq_sym n3 n1 e31) refl

    fresh4 : find (others ∷ default_set ∷ hosts ∷ []) n4 ≡ none
    fresh4 = rw (neq_sym n4 n3 e43, neq_sym n4 n2 e42, neq_sym n4 n1 e41) refl

    fresh5 : find (neighbor_set n4 tfs ∷ others ∷ default_set ∷ hosts ∷ []) n5 ≡ none
    fresh5 = rw (neq_sym n5 n4 e54, neq_sym n5 n3 e53, neq_sym n5 n2 e52, neq_sym n5 n1 e51) refl

    abbrev rules : List Statement
    rules =
        policy_statements c sprint md5_hex hosts default_set others (neighbor_set n4 tfs)
          (neighbor_set n5 phynets)

    rules-are_defined : are_defined (find all_sets) rules ≡ true
    unfolding policy_statements
    rules-are_defined = rw (found1, found2, found3, found4, found5) refl

    first_action-rules :
        (ip : String) (len : ℕ)
        → len ≤ 32
        → first_action (find all_sets) accept ip len rules ≡ intended tfs phynets ip len
    unfolding policy_statements
    first_action-rules ip len h =
        rw
          (
            found1,
            found2,
            found3,
            found4,
            found5,
            matches-is_host_in ip tfs some_tf,
            matches-is_host_in ip phynets some_phynet,
          )
          (ground arith)

    assigns :
        (conn : Conn)
        → (c.add_policy (policy_of c sprint md5_hex rules) conn).0 ≡ none
        → add_bgp_global_export_policy c sprint md5_hex rules accept conn
          ≡ c.add_policy_assignment
              (record { policies = policy_of c sprint md5_hex rules ∷ []; default_action = accept })
              (c.add_policy (policy_of c sprint md5_hex rules) conn).1
    unfolding add_bgp_global_export_policy
    assigns conn h = ground arith

    globally :
        (conn : Conn)
        → Has conn all_sets
        → ((j : String) → laws.knows conn j ≡ false)
        → ((j : String) → laws.states conn j ≡ false)
        → Filters laws tfs phynets (add_bgp_global_export_policy c sprint md5_hex rules accept conn)
    unfolding policy_of policy_statements names_of
    globally conn h k st =
        let p : Policy = policy_of c sprint md5_hex rules in
        let same_sets : laws.sets conn ≡ find all_sets = fun_ext h in
        let new =
          laws.add_policy-new p conn named rules_distinct (k p.name) st
            (rw same_sets rules-are_defined) in
        let known = laws.add_policy_assignment-known p accept (c.add_policy p conn).1 new.2 in
        rw (assigns conn new.0) (
          known.0,
          λ ip len h32.
              known.1 ip len ∙ rw (fun_ext new.1, same_sets) (first_action-rules ip len h32),
        )

    with_sets :
        (conn : Conn)
        → ((j : String) → laws.sets conn j ≡ none)
        → ((j : String) → laws.knows conn j ≡ false)
        → ((j : String) → laws.states conn j ≡ false)
        → Filters laws tfs phynets (
            with_set c sprint md5_hex (create_set c sprint md5_hex hosts conn) λ h conn1.
              with_set c sprint md5_hex (create_set c sprint md5_hex default_set conn1) λ d conn2.
                with_set c sprint md5_hex (create_set c sprint md5_hex others conn2) λ o conn3.
                  with_set c sprint md5_hex
                    (create_set c sprint md5_hex (neighbor_set n4 tfs) conn3)
                    λ t conn4.
                      with_set c sprint md5_hex
                        (create_set c sprint md5_hex (neighbor_set n5 phynets) conn4)
                        λ p conn5.
                          add_bgp_global_export_policy c sprint md5_hex
                            (policy_statements c sprint md5_hex h d o t p)
                            accept
                            conn5)
    with_sets conn s k st =
        let a1 = create_set-Adds [] hosts conn readable1 s refl in
        let a2 = create_set-Adds (hosts ∷ []) default_set a1.after readable2 a1.has fresh2 in
        let a3 =
          create_set-Adds (default_set ∷ hosts ∷ []) others a2.after readable3 a2.has fresh3 in
        let a4 =
          create_set-Adds (others ∷ default_set ∷ hosts ∷ []) (neighbor_set n4 tfs) a3.after
            readable4 a3.has fresh4 in
        let a5 =
          create_set-Adds (neighbor_set n4 tfs ∷ others ∷ default_set ∷ hosts ∷ [])
            (neighbor_set n5 phynets) a4.after readable5 a4.has fresh5 in
        rw (a1.makes, a2.makes, a3.makes, a4.makes, a5.makes)
          (globally a5.after a5.has
            (λ j. a5.keeps j ∙ a4.keeps j ∙ a3.keeps j ∙ a2.keeps j ∙ a1.keeps j ∙ k j)
            (λ j.
              a5.keeps_statements j
              ∙ a4.keeps_statements j
              ∙ a3.keeps_statements j
              ∙ a2.keeps_statements j
              ∙ a1.keeps_statements j
              ∙ st j))

  -- On a server without sets, statements and policies of its own, and where the library accepts
  -- names and neighbors, which implies a neighbor on either side, the request is accepted. From then
  -- on a neighbor of the physical network gets no route to a host and no default route, a controller
  -- that is none of these neighbors gets no route but the default, and every other neighbor gets
  -- every route.
  pub create_gobgp_policy-Filters :
      (tf_ips phynet_ips : List String) (conn : Conn)
      → IsAcceptable laws.is_host sprint md5_hex tf_ips phynet_ips
      → ((j : String) → laws.sets conn j ≡ none)
      → ((j : String) → laws.knows conn j ≡ false)
      → ((j : String) → laws.states conn j ≡ false)
      → Filters laws tf_ips phynet_ips (create_gobgp_policy c sprint md5_hex tf_ips phynet_ips conn)
  unfolding create_gobgp_policy create_gobgp_prefix_set create_gobgp_neighbor_set
  create_gobgp_policy-Filters tf_ips phynet_ips conn a s k st =
      let d = a.sets_differ in
      let n1 = join ("0.0.0.0/0" ∷ sprint 32 ∷ sprint 32 ∷ []) in
      let n2 = join ("0.0.0.0/0" ∷ sprint 0 ∷ sprint 0 ∷ []) in
      let n3 = join ("0.0.0.0/0" ∷ sprint 1 ∷ sprint 32 ∷ []) in
      with_sets n1 n2 n3 (join tf_ips) (join phynet_ips) tf_ips phynet_ips d a.rules_differ
        a.is_named a.tf_hosts a.phynet_hosts
        (named-is_nil tf_ips (fourth_named n1 n2 n3 (join tf_ips) (join phynet_ips) d))
        (named-is_nil phynet_ips (fifth_named n1 n2 n3 (join tf_ips) (join phynet_ips) d)) conn s k
        st
