-- ===== src/Gobgp/Policy/Meaning.antt =====
-- The documented behaviour of policies in the library, and the policy that CreateGoBGPPolicy of
-- internal/repository/gobgp/gobgp.go is for.
use cloudgw.Gobgp.Policy.{set_name}
use cloudgw.Gobgp.Server.{
  BgpControl, DefinedSet, prefix_set, neighbor_set, PrefixRange, Statement, Policy, RouteAction,
  accept, reject,
}
use cloudgw.Imdb.Memdb.{Error}
use cloudgw.Imdb.Table.View.{is_some}
use cloudgw.Prelude.{
  Bool, List, Option, String, [], absent, false, if◌then◌else◌, leb, none, not, some, string_append,
  true, ℕ, ◌&&◌, ◌==◌, ◌||◌, ◌∷◌, ◌≡◌, nat_Eq, string_Eq, ◌≤◌, map,
}

abbrev pub is_host_in : String → List String → Bool
is_host_in ip ns = not (absent (string_append ip "/32") ns)

-- A range under 0.0.0.0/0 stands for the routes whose length is in it.
abbrev pub has_length : ℕ → List PrefixRange → Bool
has_length len [] = false
has_length len (r ∷ rs) =
    (r.ip_prefix == "0.0.0.0/0" && (leb r.mask_length_min len && leb len r.mask_length_max))
    || has_length len rs

abbrev pub has_route : ℕ → Option DefinedSet → Bool
has_route len (some (prefix_set name ranges)) = has_length len ranges
has_route len _ = false

-- A set without neighbors stands for all of them.
abbrev pub matches : String → List String → Bool
matches ip [] = true
matches ip (n ∷ ns) = is_host_in ip (n ∷ ns)

abbrev pub has_neighbor : String → Option DefinedSet → Bool
has_neighbor ip (some (neighbor_set name ns)) = matches ip ns
has_neighbor ip _ = false

abbrev pub applies : (String → Option DefinedSet) → String → ℕ → Statement → Bool
applies sets ip len s = has_route len (sets s.prefixes) && has_neighbor ip (sets s.neighbors)

-- The action of the first statement that applies.
abbrev pub first_action :
    (String → Option DefinedSet) → RouteAction → String → ℕ → List Statement → RouteAction
first_action sets default ip len [] = default
first_action sets default ip len (s ∷ ss) =
    let rest = first_action sets default ip len ss in
    if applies sets ip len s then s.action else rest

abbrev pub are_defined : (String → Option DefinedSet) → List Statement → Bool
are_defined sets [] = true
are_defined sets (s ∷ ss) =
    is_some (sets s.prefixes) && (is_some (sets s.neighbors) && are_defined sets ss)

abbrev pub all_distinct : List String → Bool
all_distinct [] = true
all_distinct (x ∷ xs) = absent x xs && all_distinct xs

abbrev pub are_hosts : (String → Bool) → List String → Bool
are_hosts is_host [] = true
are_hosts is_host (n ∷ ns) = is_host n && are_hosts is_host ns

abbrev pub are_ranges : List PrefixRange → Bool
are_ranges [] = true
are_ranges (r ∷ rs) =
    (r.ip_prefix == "0.0.0.0/0"
      && (leb r.mask_length_min r.mask_length_max && leb r.mask_length_max 32))
    && are_ranges rs

-- A set that the library can read: it has a name, and its prefixes or its neighbors are well formed.
abbrev pub is_readable : (String → Bool) → DefinedSet → Bool
is_readable is_host (prefix_set name rs) = not (name == "") && are_ranges rs
is_readable is_host (neighbor_set name ns) = not (name == "") && are_hosts is_host ns

abbrev pub statement_names : List Statement → List String
statement_names ss = map (λ (s : Statement). s.name) ss

-- The documented behaviour of the library. `is_host` tells the texts that it reads as the network
-- of one address of IPv4 and that are spelled as it spells this network. A readable set under a new
-- name is taken. So is a policy under a new name, which is not empty, on a server without
-- statements, where the names of its own statements are different and not empty and their sets are
-- there. The assignment of a policy that is there decides the exports by its first statement that
-- applies.
pub record PolicyLaws (c : BgpControl) : Type 0 where
  pub sets : BgpControl.Conn c → String → Option DefinedSet
  pub knows : BgpControl.Conn c → String → Bool
  pub states : BgpControl.Conn c → String → Bool
  pub exports : BgpControl.Conn c → String → ℕ → RouteAction
  pub is_host : String → Bool
  pub add_defined_set-new :
      (d : DefinedSet) (conn : BgpControl.Conn c)
      → is_readable is_host d ≡ true
      → sets conn (set_name d) ≡ none
      → ((BgpControl.add_defined_set c d conn).0 ≡ none)
        × ((j : String)
            → sets (BgpControl.add_defined_set c d conn).1 j
              ≡ (if set_name d == j then some d else sets conn j))
        × ((j : String) → knows (BgpControl.add_defined_set c d conn).1 j ≡ knows conn j)
        × ((j : String) → states (BgpControl.add_defined_set c d conn).1 j ≡ states conn j)
  pub add_policy-new :
      (p : Policy) (conn : BgpControl.Conn c)
      → (p.name == "") ≡ false
      → all_distinct ("" ∷ statement_names p.statements) ≡ true
      → knows conn p.name ≡ false
      → ((j : String) → states conn j ≡ false)
      → are_defined (sets conn) p.statements ≡ true
      → ((BgpControl.add_policy c p conn).0 ≡ none)
        × ((j : String) → sets (BgpControl.add_policy c p conn).1 j ≡ sets conn j)
        × (knows (BgpControl.add_policy c p conn).1 p.name ≡ true)
  pub add_policy_assignment-known :
      (p : Policy) (action : RouteAction) (conn : BgpControl.Conn c)
      → knows conn p.name ≡ true
      → ((BgpControl.add_policy_assignment c
            (record { policies = p ∷ []; default_action = action })
            conn).0
          ≡ none)
        × ((ip : String) (len : ℕ)
            → exports
                (BgpControl.add_policy_assignment c
                  (record { policies = p ∷ []; default_action = action })
                  conn).1
                ip
                len
              ≡ first_action (sets conn) action ip len p.statements)

abbrev pub find : List DefinedSet → String → Option DefinedSet
find [] j = none
find (d ∷ ds) j = if set_name d == j then some d else find ds j

-- The policy that is meant: the physical network gets neither hosts nor the default route, the
-- controllers get the default route only.
abbrev pub intended : List String → List String → String → ℕ → RouteAction
intended tf_ips phynet_ips ip len =
    if is_host_in ip phynet_ips && (len == 32 || len == 0)
    then reject
    else if is_host_in ip tf_ips && leb 1 len
    then reject
    else accept

-- The request is accepted, and the exports of every route of IPv4 are those intended.
abbrev pub Filters :
    {c : BgpControl}
    → PolicyLaws c
    → List String
    → List String
    → Option Error × BgpControl.Conn c
    → Type 0
Filters laws tf_ips phynet_ips r =
    (r.0 ≡ none)
    × ((ip : String) (len : ℕ)
        → len ≤ 32
        → PolicyLaws.exports laws r.1 ip len ≡ intended tf_ips phynet_ips ip len)
