-- ===== src/Gobgp/Policy.antt =====
-- The export policy of the gateway (CreateGoBGPPrefixSet to CreateGoBGPPolicy of
-- internal/repository/gobgp/gobgp.go). fmt.Sprint of a number and the hash of a text are parameters.

pub mod Meaning
pub mod Names
pub mod Filters
use cloudgw.Gobgp.Server.{
  BgpControl, DefinedSet, prefix_set, neighbor_set, Statement, Policy, RouteAction, accept, reject,
}
use cloudgw.Imdb.Memdb.{Error, Result, value, failed}
use cloudgw.Prelude.{Option, String, [], none, some, string_append, ℕ, ◌∷◌, List}

-- `strings.Join(texts, "-")`
unfoldable pub join : List String → String
join [] = ""
join (s ∷ []) = s
join (s ∷ t ∷ ts) = string_append s (string_append "-" (join (t ∷ ts)))

abbrev pub set_name : DefinedSet → String
set_name (prefix_set name ps) = name
set_name (neighbor_set name ns) = name

-- The names of the statements in a row.
unfoldable pub names_of : List Statement → String
names_of [] = ""
names_of (s ∷ ss) = string_append s.name (names_of ss)

module _ (c : BgpControl) (sprint : ℕ → String) (md5_hex : String → String) where
  open c use {Conn, add_defined_set, add_policy, add_policy_assignment}

  unfoldable pub prefix_set_of : String → ℕ → ℕ → DefinedSet
  unfolding join
  prefix_set_of prefix min max =
      prefix_set (join (prefix ∷ sprint min ∷ sprint max ∷ []))
        (record { ip_prefix = prefix; mask_length_min = min; mask_length_max = max } ∷ [])

  -- A set that is made, or the error; nil beside it.
  unfoldable pub create_set : DefinedSet → Conn → Result DefinedSet × Conn
  create_set ds conn =
      let (err, conn1) = add_defined_set ds conn in
      (elim err [ some e ↦ failed e | none ↦ value ds ], conn1)

  unfoldable pub create_gobgp_prefix_set : String → ℕ → ℕ → Conn → Result DefinedSet × Conn
  unfolding prefix_set_of create_set
  create_gobgp_prefix_set prefix min max conn = create_set (prefix_set_of prefix min max) conn

  unfoldable pub create_gobgp_neighbor_set : List String → Conn → Result DefinedSet × Conn
  unfolding join create_set
  create_gobgp_neighbor_set neighbors conn =
      create_set (neighbor_set (join neighbors) neighbors) conn

  -- The error is always nil.
  unfoldable pub create_gobgp_policy_statements : DefinedSet → DefinedSet → RouteAction → Statement
  unfolding join
  create_gobgp_policy_statements ps ns action = record {
    name = md5_hex (join (set_name ps ∷ set_name ns ∷ []));
    prefixes = set_name ps;
    neighbors = set_name ns;
    action = action;
  }

  unfoldable pub policy_of : List Statement → Policy
  unfolding names_of
  policy_of statements = record { name = md5_hex (names_of statements); statements = statements }

  unfoldable pub add_bgp_global_export_policy :
      List Statement → RouteAction → Conn → Option Error × Conn
  unfolding policy_of
  add_bgp_global_export_policy statements default_action conn =
      let (err, conn1) = add_policy (policy_of statements) conn in
      elim err [
        | some e ↦ (some e, conn1)
        | none ↦
            add_policy_assignment
              (record { policies = policy_of statements ∷ []; default_action = default_action })
              conn1
      ]

  -- The next step where the set was made, and the error otherwise.
  abbrev pub with_set :
      Result DefinedSet × Conn → (DefinedSet → Conn → Option Error × Conn) → Option Error × Conn
  with_set (failed e, conn) next = (some e, conn)
  with_set (value ds, conn) next = next ds conn

  unfoldable pub policy_statements :
      DefinedSet → DefinedSet → DefinedSet → DefinedSet → DefinedSet → List Statement
  unfolding create_gobgp_policy_statements
  policy_statements hosts default_route others tfs phynets =
      create_gobgp_policy_statements hosts phynets reject
      ∷ create_gobgp_policy_statements default_route phynets reject
      ∷ create_gobgp_policy_statements others tfs reject
      ∷ []

  unfoldable pub create_gobgp_policy : List String → List String → Conn → Option Error × Conn
  create_gobgp_policy tf_ips phynet_ips conn =
      with_set (create_gobgp_prefix_set "0.0.0.0/0" 32 32 conn) λ hosts conn1.
        with_set (create_gobgp_prefix_set "0.0.0.0/0" 0 0 conn1) λ default_route conn2.
          with_set (create_gobgp_prefix_set "0.0.0.0/0" 1 32 conn2) λ others conn3.
            with_set (create_gobgp_neighbor_set tf_ips conn3) λ tfs conn4.
              with_set (create_gobgp_neighbor_set phynet_ips conn4) λ phynets conn5.
                add_bgp_global_export_policy
                  (policy_statements hosts default_route others tfs phynets) accept conn5
