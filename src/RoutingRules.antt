-- ===== src/RoutingRules.antt =====
-- pkg/deploy/lbaas/routing_rule_manager.go: the host and path rules of one virtual server. A run that
-- fails drops the rules that it had reconciled so far, since no caller reads them.
pub mod Ownership
pub mod Indexed
pub mod Converged
pub mod Again
use garden_extension_f5_loca.Prelude.{
  Bool, List, Option, String, [], false, if◌then◌else◌, int_eq, map, nat_eq, none, some, string_eq,
  true, ◌==◌, ◌||◌, ◌∷◌,
}
use garden_extension_f5_loca.Cmp.{
  Cmp, RoutingRuleClient, RoutingRuleResource, RoutingRuleSpec, created_routing_rule,
  deleted_routing_rule, listed_routing_rules,
}
use garden_extension_f5_loca.Dict.{contains, insert, lookup}
use garden_extension_f5_loca.Exec.{Done, call, errorf, pure, raise, wrapf, wrapping, ◌>>=◌, ◌>>◌}
use garden_extension_f5_loca.Text.{to_lower, trim_space}
use garden_extension_f5_loca.Text.Join.{join}

-- routingRuleKey
unfoldable pub routing_rule_key : String → String → String → String → String
routing_rule_key host path match_type pool_id =
    let given = to_lower (trim_space match_type) in
    let mt = if given == "" then "prefix" else given in
    join "|" (to_lower (trim_space host) ∷ trim_space path ∷ mt ∷ trim_space pool_id ∷ [])

abbrev pub rule_key : RoutingRuleResource → String
rule_key rule = routing_rule_key rule.host rule.path rule.match_type rule.pool_id

abbrev pub spec_key : RoutingRuleSpec → String
spec_key spec = routing_rule_key spec.host spec.path spec.match_type spec.pool_id

abbrev pub RuleMap : Type 0
RuleMap = List (String × RoutingRuleResource)

abbrev is_owned : Bool → List String → RoutingRuleResource → Bool
is_owned legacy owned rule = legacy || contains (trim_space rule.id) owned

unfoldable pub add_owned : Bool → List String → RoutingRuleResource → RuleMap → RuleMap
add_owned legacy owned rule by_key =
    if is_owned legacy owned rule then insert (rule_key rule) rule by_key else by_key

-- byKey: the rules that this stack owns; a later rule takes the place of an earlier one.
unfoldable pub index_owned : Bool → List String → List RoutingRuleResource → RuleMap → RuleMap
index_owned legacy owned [] by_key = by_key
index_owned legacy owned (rule ∷ rules) by_key =
    index_owned legacy owned rules (add_owned legacy owned rule by_key)

-- foreignKeys: the keys of the others.
unfoldable pub foreign_keys : Bool → List String → List RoutingRuleResource → List String
foreign_keys legacy owned [] = []
foreign_keys legacy owned (rule ∷ rules) =
    let rest = foreign_keys legacy owned rules in
    if is_owned legacy owned rule then rest else rule_key rule ∷ rest

-- byKey[key], where it holds a rule with an id.
unfoldable pub existing_rule : String → RuleMap → Option RoutingRuleResource
existing_rule key by_key = elim (lookup key by_key) [
  | none ↦ none
  | some rule ↦ if trim_space rule.id == "" then none else some rule
]

module _ {W : Type 0} (client : RoutingRuleClient W) (lb_id vs_id : String) where
  add_rule : RoutingRuleSpec → Option RoutingRuleResource → Cmp W (RoutingRuleResource × Bool)
  add_rule spec (some rule) = pure (rule, false)
  add_rule spec none = do
    created ←
        wrapping
          (wrapf "creating routing rule host=%s path=%s pool=%s"
            (spec.host ∷ spec.path ∷ spec.pool_id ∷ []))
          (call (client.create_routing_rule lb_id vs_id spec)
            (created_routing_rule lb_id vs_id spec))
    pure (created, true)

  -- One round of the loop over the desired rules.
  unfoldable pub reconcile_rule :
      RuleMap → List String → RoutingRuleSpec → Cmp W (RoutingRuleResource × Bool)
  unfolding add_rule
  reconcile_rule by_key foreign spec =
      if trim_space spec.pool_id == ""
      then raise (errorf "routing rule pool id must not be empty" [])
      else if contains (spec_key spec) foreign
      then raise (
          errorf "routing rule host=%s path=%s pool=%s is owned by another stack"
            (spec.host ∷ spec.path ∷ spec.pool_id ∷ []))
      else add_rule spec (existing_rule (spec_key spec) by_key)

  unfoldable pub reconcile_rules :
      RuleMap → List String → List RoutingRuleSpec → Cmp W (List RoutingRuleResource × Bool)
  reconcile_rules by_key foreign [] = pure ([], false)
  reconcile_rules by_key foreign (spec ∷ specs) = do
    (rule, created) ← reconcile_rule by_key foreign spec
    (rules, changed) ← reconcile_rules by_key foreign specs
    pure (rule ∷ rules, created || changed)

  abbrev delete_rule : String → Cmp W Done
  delete_rule id =
      wrapping (wrapf "deleting obsolete routing rule %s" (id ∷ []))
        (call (client.delete_routing_rule lb_id vs_id id) (deleted_routing_rule lb_id vs_id id))

  -- The loop over byKey: whether a rule was deleted.
  unfoldable pub delete_unwanted : List String → RuleMap → Cmp W Bool
  delete_unwanted desired [] = pure false
  delete_unwanted desired ((key, rule) ∷ by_key) =
      let rest = delete_unwanted desired by_key in
      if contains key desired || trim_space rule.id == ""
      then rest
      else do delete_rule rule.id; rest; pure true

  -- ensure, once the rules are listed.
  unfoldable pub reconcile :
      List RoutingRuleSpec
      → List String
      → Bool
      → List RoutingRuleResource
      → Cmp W (List RoutingRuleResource × Bool)
  reconcile desired owned legacy existing = do
    let by_key = index_owned legacy owned existing []
    (rules, created) ← reconcile_rules by_key (foreign_keys legacy owned existing) desired
    deleted ← delete_unwanted (map spec_key desired) by_key
    pure (rules, created || deleted)

  unfoldable pub ensure :
      List RoutingRuleSpec → List String → Bool → Cmp W (List RoutingRuleResource × Bool)
  ensure desired owned legacy =
      if trim_space lb_id == "" || trim_space vs_id == ""
      then raise (
          errorf "lb service id and virtual server id are required for routing rule reconciliation"
            [])
      else do
        existing ←
            wrapping (wrapf "listing routing rules for virtual server %s" (vs_id ∷ []))
              (call (client.list_routing_rules lb_id vs_id) (listed_routing_rules lb_id vs_id))
        reconcile desired owned legacy existing

  -- EnsureOwned
  unfoldable pub ensure_owned :
      List RoutingRuleSpec → List String → Cmp W (List RoutingRuleResource × Bool)
  ensure_owned desired owned = ensure desired owned false

  -- Cleanup
  unfoldable pub cleanup : String → Cmp W Done
  cleanup rule_id =
      if trim_space lb_id == "" || (trim_space vs_id == "" || trim_space rule_id == "")
      then pure tt
      else call (client.delete_routing_rule lb_id vs_id rule_id)
          (deleted_routing_rule lb_id vs_id rule_id)
