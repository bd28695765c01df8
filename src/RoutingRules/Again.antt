-- ===== src/RoutingRules/Again.antt =====
-- RoutingRuleManager.EnsureOwned: a second run over the rules that a first one answered.
use mathlib.Core.Path.{subst}
use garden_extension_f5_loca.Prelude.{
  All, All-imp, Bool, Bool-cases, List, Option-cases, String, [], arith, eq_iff, false, inl, inr,
  int_eq, map, nat_eq, none, refl, string_eq, sym, true, ◌==◌, ◌||◌, ◌∷◌, ◌≡◌, ◌≢◌,
}
use garden_extension_f5_loca.Cmp.{
  RoutingRuleClient, RoutingRuleResource, RoutingRuleSpec, listed_routing_rules,
}
use garden_extension_f5_loca.Dict.{contains}
use garden_extension_f5_loca.Dict.Unwanted.{unwanted_ids-nil}
use garden_extension_f5_loca.Exec.{call, ok, wrapf, wrapping, ◌>>=◌}
use garden_extension_f5_loca.Exec.Rules.{bind-Steps}
use garden_extension_f5_loca.RoutingRules.{
  RuleMap, delete_unwanted, ensure, ensure_owned, existing_rule, foreign_keys, index_owned,
  reconcile, reconcile_rule, reconcile_rules, rule_key, spec_key,
}
use garden_extension_f5_loca.RoutingRules.Converged.{Echoes, ensure_owned-answers, obsolete_ids}
use garden_extension_f5_loca.RoutingRules.Indexed.{
  existing_rule-found, foreign_keys-nil, index_owned-HasKeyIn,
}
use garden_extension_f5_loca.Text.{trim_space}

-- A desired rule that is already there: it has a pool, an owned rule with an id has its key, and no
-- foreign one has.
abbrev IsAnswered : RuleMap → List String → RoutingRuleSpec → Type 0
IsAnswered by_key foreign spec =
    (trim_space spec.pool_id ≢ "")
    × (contains (spec_key spec) foreign ≡ false)
    × (existing_rule (spec_key spec) by_key ≢ none)

module _ {W : Type 0} (client : RoutingRuleClient W) (lb_id vs_id : String) where
  reconcile_rules-quiet :
      (by_key : RuleMap) (foreign : List String) (specs : List RoutingRuleSpec) (w : W)
      → All (IsAnswered by_key foreign) specs
      → (rules : List RoutingRuleResource) × (reconcile_rules client lb_id vs_id by_key foreign
            specs w
          ≡ record { reply = ok (rules, false); world = w; trace = [] })
  unfolding reconcile_rules reconcile_rule ◌>>=◌
  reconcile_rules-quiet by_key foreign [] w h = ([], refl)
  reconcile_rules-quiet by_key foreign (spec ∷ specs) w ((pool, free, found), h) =
      let (rules, same) = reconcile_rules-quiet by_key foreign specs w h in
      elim (Option-cases (existing_rule (spec_key spec) by_key)) [
        | inl missing ↦ absurd (found missing)
        | inr (rule, q) ↦ (rule ∷ rules, ground (arith, eq_iff (trim_space spec.pool_id) "", same))
      ]

  delete_unwanted-quiet :
      (desired : List String) (by_key : RuleMap) (w : W)
      → obsolete_ids desired by_key ≡ []
      → delete_unwanted client lb_id vs_id desired by_key w
        ≡ record { reply = ok false; world = w; trace = [] }
  unfolding delete_unwanted ◌>>=◌
  delete_unwanted-quiet desired [] w h = refl
  delete_unwanted-quiet desired ((key, rule) ∷ by_key) w h =
      ground (arith, delete_unwanted-quiet desired by_key w)

-- Where every desired rule is there and no owned rule is obsolete, a run only lists the rules and
-- reports no change.
ensure_owned_settled :
    {W : Type 0} (client : RoutingRuleClient W) (lb_id vs_id : String)
    (desired : List RoutingRuleSpec) (owned : List String) (w : W)
    (existing : List RoutingRuleResource)
    → trim_space lb_id ≢ ""
    → trim_space vs_id ≢ ""
    → (client.list_routing_rules lb_id vs_id w).0 ≡ ok existing
    → All
        (IsAnswered (index_owned false owned existing []) (foreign_keys false owned existing))
        desired
    → obsolete_ids (map spec_key desired) (index_owned false owned existing []) ≡ []
    → (rules : List RoutingRuleResource) × ((ensure_owned client lb_id vs_id desired owned w).reply
        ≡ ok (rules, false))
      × ((ensure_owned client lb_id vs_id desired owned w).trace
          ≡ listed_routing_rules lb_id vs_id (ok existing) ∷ [])
unfolding ensure_owned ensure reconcile ◌>>=◌
ensure_owned_settled client lb_id vs_id desired owned w existing nl nv q answered none_obsolete =
    let w' = (client.list_routing_rules lb_id vs_id w).1 in
    let (rules, quiet) =
      reconcile_rules-quiet client lb_id vs_id (index_owned false owned existing [])
        (foreign_keys false owned existing) desired w' answered in
    let still =
      delete_unwanted-quiet client lb_id vs_id (map spec_key desired)
        (index_owned false owned existing []) w' none_obsolete in
    (
      rules,
      ground (arith, eq_iff (trim_space lb_id) "", eq_iff (trim_space vs_id) "", quiet, still),
      ground (arith, eq_iff (trim_space lb_id) "", eq_iff (trim_space vs_id) "", quiet, still),
    )

-- Each item's key is among the keys.
All-contains :
    {A : Type 0} (key : A → String) (xs : List A)
    → All (λ x. contains (key x) (map key xs) ≡ true) xs
unfolding contains
All-contains key [] = tt
All-contains key (x ∷ xs) = (
  ground (arith, eq_iff (key x) (key x)),
  All-imp (λ y. contains (key y) (map key xs) ≡ true)
      (λ y. contains (key y) (map key (x ∷ xs)) ≡ true) xs (λ y h. ground arith)
      (All-contains key xs),
)

module _ {W : Type 0} (client : RoutingRuleClient W) (lb_id vs_id : String) where
  reconcile_rule-pool :
      (by_key : RuleMap) (foreign : List String) (spec : RoutingRuleSpec) (w : W)
      (a : RoutingRuleResource × Bool)
      → (reconcile_rule client lb_id vs_id by_key foreign spec w).reply ≡ ok a
      → trim_space spec.pool_id ≢ ""
  unfolding reconcile_rule
  reconcile_rule-pool by_key foreign spec w a h blank =
      absurd (ground (arith, eq_iff (trim_space spec.pool_id) ""))

  reconcile_rules-pools :
      (by_key : RuleMap) (foreign : List String) (specs : List RoutingRuleSpec) (w : W)
      (a : List RoutingRuleResource × Bool)
      → (reconcile_rules client lb_id vs_id by_key foreign specs w).reply ≡ ok a
      → All (λ spec. trim_space spec.pool_id ≢ "") specs
  unfolding reconcile_rules
  reconcile_rules-pools by_key foreign [] w a h = tt
  reconcile_rules-pools by_key foreign (spec ∷ specs) w a h =
      let one = bind-Steps (reconcile_rule client lb_id vs_id by_key foreign spec) _ w a h in
      let all =
        bind-Steps (reconcile_rules client lb_id vs_id by_key foreign specs) _ _ a one.rest in
      (
        reconcile_rule-pool by_key foreign spec w one.value one.first,
        reconcile_rules-pools by_key foreign specs _ all.value all.first,
      )

  -- What a success says of the ids and of the desired rules.
  ensure_owned-pools :
      (desired : List RoutingRuleSpec) (owned : List String) (w : W)
      (a : List RoutingRuleResource × Bool)
      → (ensure_owned client lb_id vs_id desired owned w).reply ≡ ok a
      → (trim_space lb_id ≢ "")
        × (trim_space vs_id ≢ "")
        × All (λ spec. trim_space spec.pool_id ≢ "") desired
  unfolding ensure_owned ensure reconcile
  ensure_owned-pools desired owned w a h =
      elim (Bool-cases (trim_space lb_id == "" || trim_space vs_id == "")) [
        | inl e ↦ absurd (ground arith)
        | inr e ↦
            let listing =
              wrapping (wrapf "listing routing rules for virtual server %s" (vs_id ∷ []))
                (call (client.list_routing_rules lb_id vs_id) (listed_routing_rules lb_id vs_id)) in
            let read = bind-Steps listing _ w a (rw e at h) in
            let one = bind-Steps (reconcile_rules client lb_id vs_id _ _ desired) _ _ a read.rest in
            (
              λ blank. ground (arith, eq_iff (trim_space lb_id) ""),
              λ blank. ground (arith, eq_iff (trim_space vs_id) ""),
              reconcile_rules-pools _ _ desired _ one.value one.first,
            )
      ]

All-IsAnswered :
    (owned : List String) (rules : List RoutingRuleResource) (specs : List RoutingRuleSpec)
    → All (λ rule. contains (trim_space rule.id) owned ≡ true) rules
    → All (λ rule. trim_space rule.id ≢ "") rules
    → All (λ spec. trim_space spec.pool_id ≢ "") specs
    → All (λ spec. contains (spec_key spec) (map rule_key rules) ≡ true) specs
    → All (IsAnswered (index_owned false owned rules []) (foreign_keys false owned rules)) specs
unfolding contains
All-IsAnswered owned rules [] own set pools keys = tt
All-IsAnswered owned rules (spec ∷ specs) own set (pool, pools) (key, keys) = (
  (
    pool,
    rw (foreign_keys-nil owned rules own) refl,
    existing_rule-found owned (spec_key spec) rules own set key,
  ),
  All-IsAnswered owned rules specs own set pools keys,
)

-- Once a run has succeeded, a run that finds exactly the rules listed that the first one answered, all
-- owned and with ids that are not blank, makes no call but the listing and reports no change. CMP is taken
-- to answer a creation with a rule of the key that was asked for.
pub ensure_owned_again :
    {W : Type 0} (client : RoutingRuleClient W) (lb_id vs_id : String)
    (desired : List RoutingRuleSpec) (owned owned' : List String) (w w' : W)
    (rules : List RoutingRuleResource) (changed : Bool)
    → Echoes client
    → (ensure_owned client lb_id vs_id desired owned w).reply ≡ ok (rules, changed)
    → All (λ rule. trim_space rule.id ≢ "") rules
    → All (λ rule. contains (trim_space rule.id) owned' ≡ true) rules
    → (client.list_routing_rules lb_id vs_id w').0 ≡ ok rules
    → (rules' : List RoutingRuleResource) × ((ensure_owned client lb_id vs_id desired owned'
          w').reply
        ≡ ok (rules', false))
      × ((ensure_owned client lb_id vs_id desired owned' w').trace
          ≡ listed_routing_rules lb_id vs_id (ok rules) ∷ [])
ensure_owned_again client lb_id vs_id desired owned owned' w w' rules changed echo h set own q =
    let (nl, nv, pools) =
      ensure_owned-pools client lb_id vs_id desired owned w (rules, changed) h in
    let (_, _, keys, _) =
      ensure_owned-answers client lb_id vs_id desired owned w rules changed echo h in
    let answered = All-IsAnswered owned' rules desired own set pools (
      subst (λ ks. All (λ spec. contains (spec_key spec) ks ≡ true) desired) (sym keys)
        (All-contains spec_key desired)) in
    ensure_owned_settled client lb_id vs_id desired owned' w' rules nl nv q answered (
      unwanted_ids-nil (λ (r : RoutingRuleResource). r.id) (map spec_key desired) _
        (index_owned-HasKeyIn owned' (map spec_key desired) rules []
          (subst (λ ks. All (λ rule. contains (rule_key rule) ks ≡ true) rules) keys
            (All-contains rule_key rules))
          tt))
