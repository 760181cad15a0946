-- ===== src/Gobgp/Policy/Names.antt =====
-- The names of the sets and of the statements of the export policy, and what the library wants of
-- them (CreateGoBGPPolicy of internal/repository/gobgp/gobgp.go).
use cloudgw.Gobgp.Policy.Meaning.{all_distinct, are_hosts, is_host_in, matches}
use cloudgw.Gobgp.Policy.{join}
use cloudgw.Prelude.{
  List, String, [], arith, eq_iff, false, refl, true, ℕ, ◌==◌, ◌∷◌, ◌≡◌, nat_Eq, string_Eq, sym,
  Bool, string_append,
}
use mathlib.Core.Bool.{false≢true}

pub neq_sym : (a b : String) → (a == b) ≡ false → (b == a) ≡ false
neq_sym a b h = ground (arith, eq_iff a b, eq_iff b a)

pub all_distinct-tail :
    (x : String) (xs : List String) → all_distinct (x ∷ xs) ≡ true → all_distinct xs ≡ true
all_distinct-tail x xs h = ground arith

-- The second name is not the first.
pub apart : (x y : String) (xs : List String) → all_distinct (x ∷ y ∷ xs) ≡ true → (y == x) ≡ false
apart x y xs h = ground arith

-- The second name is left out.
pub without_second :
    (x y : String) (xs : List String)
    → all_distinct (x ∷ y ∷ xs) ≡ true
    → all_distinct (x ∷ xs) ≡ true
without_second x y xs h = ground arith

pub fourth_named :
    (n1 n2 n3 n4 n5 : String)
    → all_distinct ("" ∷ n1 ∷ n2 ∷ n3 ∷ n4 ∷ n5 ∷ []) ≡ true
    → (n4 == "") ≡ false
fourth_named n1 n2 n3 n4 n5 distinct = apart "" n4 (n5 ∷ []) (
    without_second "" n3 (n4 ∷ n5 ∷ []) (
      without_second "" n2 (n3 ∷ n4 ∷ n5 ∷ [])
        (without_second "" n1 (n2 ∷ n3 ∷ n4 ∷ n5 ∷ []) distinct)))

pub fifth_named :
    (n1 n2 n3 n4 n5 : String)
    → all_distinct ("" ∷ n1 ∷ n2 ∷ n3 ∷ n4 ∷ n5 ∷ []) ≡ true
    → (n5 == "") ≡ false
fifth_named n1 n2 n3 n4 n5 distinct = apart "" n5 ([]) (
    without_second "" n4 (n5 ∷ []) (
      without_second "" n3 (n4 ∷ n5 ∷ []) (
        without_second "" n2 (n3 ∷ n4 ∷ n5 ∷ [])
          (without_second "" n1 (n2 ∷ n3 ∷ n4 ∷ n5 ∷ []) distinct))))

-- All names in a row.
abbrev pub fold_names : List String → String
fold_names [] = ""
fold_names (n ∷ ns) = string_append n (fold_names ns)

abbrev pub is_nil : List String → Bool
is_nil [] = true
is_nil (n ∷ ns) = false

pub matches-is_host_in :
    (ip : String) (ns : List String) → is_nil ns ≡ false → matches ip ns ≡ is_host_in ip ns
matches-is_host_in ip [] h = absurd (false≢true (sym h))
matches-is_host_in ip (n ∷ ns) h = refl

-- A set that has a name has a neighbor.
pub named-is_nil : (ns : List String) → (join ns == "") ≡ false → is_nil ns ≡ false
unfolding join
named-is_nil [] h = h
named-is_nil (n ∷ ns) h = refl

abbrev pub rule_names_of :
    (String → String) → String → String → String → String → String → List String
rule_names_of md5_hex n1 n2 n3 n4 n5 =
    md5_hex (join (n1 ∷ n5 ∷ []))
    ∷ md5_hex (join (n2 ∷ n5 ∷ []))
    ∷ md5_hex (join (n3 ∷ n4 ∷ []))
    ∷ []

abbrev pub policy_name_of : (String → String) → List String → String
policy_name_of md5_hex names = md5_hex (fold_names names)

module _ (is_host : String → Bool) (sprint : ℕ → String) (md5_hex : String → String) where
  -- The names of the five sets.
  abbrev set_names : List String → List String → List String
  set_names tf_ips phynet_ips =
      join ("0.0.0.0/0" ∷ sprint 32 ∷ sprint 32 ∷ [])
      ∷ join ("0.0.0.0/0" ∷ sprint 0 ∷ sprint 0 ∷ [])
      ∷ join ("0.0.0.0/0" ∷ sprint 1 ∷ sprint 32 ∷ [])
      ∷ join tf_ips
      ∷ join phynet_ips
      ∷ []

  -- The names of the three statements.
  abbrev rule_names : List String → List String → List String
  rule_names tf_ips phynet_ips =
      rule_names_of md5_hex (join ("0.0.0.0/0" ∷ sprint 32 ∷ sprint 32 ∷ []))
        (join ("0.0.0.0/0" ∷ sprint 0 ∷ sprint 0 ∷ []))
        (join ("0.0.0.0/0" ∷ sprint 1 ∷ sprint 32 ∷ [])) (join tf_ips) (join phynet_ips)

  -- What the library wants of names and neighbors: the names of the sets are different and not
  -- empty, and so are those of the statements; the policy has a name; and each neighbor is the
  -- network of one address.
  pub record IsAcceptable (tf_ips phynet_ips : List String) : Type 0 where
    pub sets_differ : all_distinct ("" ∷ set_names tf_ips phynet_ips) ≡ true
    pub rules_differ : all_distinct ("" ∷ rule_names tf_ips phynet_ips) ≡ true
    pub is_named : (policy_name_of md5_hex (rule_names tf_ips phynet_ips) == "") ≡ false
    pub tf_hosts : are_hosts is_host tf_ips ≡ true
    pub phynet_hosts : are_hosts is_host phynet_ips ≡ true
