-- ===== src/Checks/Policies.antt =====
-- A BGP server that keeps the sets and the policies that it is given
-- (internal/repository/gobgp/gobgp.go).
use cloudgw.Gobgp.Policy.{create_gobgp_policy, join}
use cloudgw.Gobgp.Policy.Filters.{create_gobgp_policy-Filters}
use cloudgw.Gobgp.Policy.Names.{IsAcceptable}
use cloudgw.Gobgp.Policy.Meaning.{PolicyLaws, Filters, find, first_action, statement_names}
use cloudgw.Gobgp.Server.{
  BgpControl, DefinedSet, Policy, Assignment, RouteAction, accept, end_of_list,
}
use cloudgw.Imdb.Memdb.{library, failed, value}
use cloudgw.Prelude.{
  List, Option, String, [], absent, eq_iff, if◌then◌else◌, none, not, refl, some, true, ℕ, ◌==◌,
  ◌∷◌, ◌≡◌, nat_Eq, string_Eq, ◌||◌, ◌++◌, Bool, string_append,
}

pub record Server : Type 0 where
  pub kept_sets : List DefinedSet
  pub kept_policies : List String
  pub kept_statements : List String
  pub assigned : Option Assignment

abbrev act_by : (String → Option DefinedSet) → RouteAction → String → ℕ → List Policy → RouteAction
act_by sets default ip len [] = default
act_by sets default ip len (p ∷ ps) =
    first_action sets (act_by sets default ip len ps) ip len p.statements

abbrev pub server : BgpControl
server = record {
  Conn = Server;
  start_bgp = λ g s. (none, s);
  get_bgp = λ s. failed (library "not started");
  add_vrf = λ v s. (none, s);
  delete_vrf = λ v s. (none, s);
  list_vrf = λ v s. failed (library "no vrf");
  add_peer = λ p s. (none, s);
  delete_peer = λ p s. (none, s);
  Peers = Unit {0};
  list_peer = λ s. value tt;
  recv = λ u. (end_of_list, u);
  add_ip_path = λ p s. (none, s);
  delete_ip_path = λ p s. (none, s);
  add_vpn_path = λ p s. (none, s);
  delete_vpn_path = λ p s. (none, s);
  add_defined_set = λ d s. (none, record s { kept_sets = d ∷ s.kept_sets });
  add_policy = λ p s. (
    none,
    record s {
      kept_policies = p.name ∷ s.kept_policies;
      kept_statements = statement_names p.statements ++ s.kept_statements;
    },
  );
  add_policy_assignment = λ a s. (none, record s { assigned = some a });
  get_table = λ t f n s. value 0;
}

abbrev exports_of : Server → String → ℕ → RouteAction
exports_of s ip len = elim s.assigned [
  | none ↦ accept
  | some a ↦ act_by (find s.kept_sets) a.default_action ip len a.policies
]

pub knows_new : (name : String) (names : List String) → not (absent name (name ∷ names)) ≡ true
knows_new name names = rw ((eq_iff name name).1 refl) refl

-- The networks that the tests use.
abbrev is_known_host : String → Bool
is_known_host n = (n == "10.0.0.2/32" || n == "10.0.0.3/32") || n == "10.1.0.2/32"

abbrev pub tagged : String → String
tagged s = string_append "h" s

abbrev pub server_laws : PolicyLaws server
server_laws = record {
  sets = λ s. find s.kept_sets;
  knows = λ s j. not (absent j s.kept_policies);
  states = λ s j. not (absent j s.kept_statements);
  exports = exports_of;
  is_host = λ n. is_known_host n;
  add_defined_set-new = λ d s i h. (refl, λ j. refl, λ j. refl, λ j. refl);
  add_policy-new = λ p s i e k st h. (refl, λ j. refl, knows_new p.name s.kept_policies);
  add_policy_assignment-known = λ p a s k. (refl, λ ip len. refl);
}

abbrev pub sprint : ℕ → String
sprint n = if n == 32 then "32" else if n == 0 then "0" else "1"

abbrev pub fresh_server : Server
fresh_server = record { kept_sets = []; kept_policies = []; kept_statements = []; assigned = none }

abbrev controllers : List String
controllers = "10.0.0.2/32" ∷ "10.0.0.3/32" ∷ []

abbrev routers : List String
routers = "10.1.0.2/32" ∷ []

all_accepted : IsAcceptable is_known_host sprint tagged controllers routers
unfolding join
all_accepted = record {
  sets_differ = refl;
  rules_differ = refl;
  is_named = refl;
  tf_hosts = refl;
  phynet_hosts = refl;
}

create_gobgp_policy-Filters_example :
    Filters server_laws controllers routers
      (create_gobgp_policy server sprint tagged controllers routers fresh_server)
create_gobgp_policy-Filters_example =
    create_gobgp_policy-Filters server server_laws sprint tagged controllers routers fresh_server
      all_accepted (λ j. refl) (λ j. refl) (λ j. refl)
