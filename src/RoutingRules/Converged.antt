-- ===== src/RoutingRules/Converged.antt =====
-- RoutingRuleManager.EnsureOwned: what a run that succeeds has answered and deleted.
use mathlib.Core.List.{append-nil}
use garden_extension_f5_loca.Prelude.{
  All, Bool, List, String, [], ap, arith, false, inl, inr, int_eq, map, nat_eq, refl, some,
  string_eq, sym, true, ◌++◌, ◌==◌, ◌||◌, ◌↔◌, ◌∙◌, ◌∷◌, ◌≡◌, ◌≢◌,
}
use garden_extension_f5_loca.Cmp.{
  Event, RoutingRuleClient, RoutingRuleResource, RoutingRuleSpec, deleted_routing_rule,
}
use garden_extension_f5_loca.Dict.{contains, lookup, lookup-All}
use garden_extension_f5_loca.Dict.Unwanted.{
  contains-unwanted_ids, or_else-none, unwanted_ids, unwanted_ids-contains,
}
use garden_extension_f5_loca.Exec.{Result-cases, ok, pure, ◌>>=◌, ◌>>◌}
use garden_extension_f5_loca.Exec.Rules.{Yields, Yields-if, bind-Steps}
use garden_extension_f5_loca.RoutingRules.{
  RuleMap, delete_rule, delete_unwanted, ensure, ensure_owned, foreign_keys, index_owned, reconcile,
  reconcile_rule, reconcile_rules, rule_key, spec_key,
}
use garden_extension_f5_loca.RoutingRules.Indexed.{
  IsKeyed, existing_rule-key, index_owned-HasDistinctKeys, index_owned-IsKeyed, last_owned,
  lookup-index_owned,
}
use garden_extension_f5_loca.Text.{trim_space}

-- The ids of the rules that a trace deletes.
abbrev pub deleted_ids : List Event → List String
deleted_ids [] = []
deleted_ids (deleted_routing_rule _ _ id _ ∷ t) = id ∷ deleted_ids t
deleted_ids (_ ∷ t) = deleted_ids t

deleted_ids-append : (s t : List Event) → deleted_ids (s ++ t) ≡ deleted_ids s ++ deleted_ids t
deleted_ids-append [] t = refl
deleted_ids-append (deleted_routing_rule _ _ id _ ∷ s) t = ap (λ l. id ∷ l) (deleted_ids-append s t)
deleted_ids-append (_ ∷ s) t = deleted_ids-append s t

-- The ids of the recorded rules whose key is not desired.
abbrev pub obsolete_ids : List String → RuleMap → List String
obsolete_ids = unwanted_ids (λ (rule : RoutingRuleResource). rule.id)

-- CMP answers a creation with the rule that was asked for.
abbrev pub Echoes : {W : Type 0} → RoutingRuleClient W → Type 0
Echoes {W} client =
    (lb_id vs_id : String) (spec : RoutingRuleSpec) (w : W) (rule : RoutingRuleResource)
    → (client.create_routing_rule lb_id vs_id spec w).0 ≡ ok rule
    → rule_key rule ≡ spec_key spec

module _ {W : Type 0} (client : RoutingRuleClient W) (lb_id vs_id : String) where
  reconcile_rule-key :
      (by_key : RuleMap) (foreign : List String) (spec : RoutingRuleSpec) (w : W)
      (a : RoutingRuleResource × Bool)
      → Echoes client
      → All IsKeyed by_key
      → (reconcile_rule client lb_id vs_id by_key foreign spec w).reply ≡ ok a
      → (rule_key a.0 ≡ spec_key spec)
        × (deleted_ids (reconcile_rule client lb_id vs_id by_key foreign spec w).trace ≡ [])
  unfolding reconcile_rule ◌>>=◌
  reconcile_rule-key by_key foreign spec w a echo k h =
      ground (arith, echo lb_id vs_id spec w a.0, existing_rule-key (spec_key spec) by_key a.0 k)

  reconcile_rules-keys :
      (by_key : RuleMap) (foreign : List String) (specs : List RoutingRuleSpec) (w : W)
      (a : List RoutingRuleResource × Bool)
      → Echoes client
      → All IsKeyed by_key
      → (reconcile_rules client lb_id vs_id by_key foreign specs w).reply ≡ ok a
      → (map rule_key a.0 ≡ map spec_key specs)
        × (deleted_ids (reconcile_rules client lb_id vs_id by_key foreign specs w).trace ≡ [])
  unfolding reconcile_rules
  reconcile_rules-keys by_key foreign [] w a echo k h = ground arith
  reconcile_rules-keys by_key foreign (spec ∷ specs) w a echo k h =
      let one = bind-Steps (reconcile_rule client lb_id vs_id by_key foreign spec) _ w a h in
      let all =
        bind-Steps (reconcile_rules client lb_id vs_id by_key foreign specs) _ _ a one.rest in
      let (head_key, head_ids) =
        reconcile_rule-key by_key foreign spec w one.value echo k one.first in
      let (tail_keys, tail_ids) =
        reconcile_rules-keys by_key foreign specs _ all.value echo k all.first in
      (
        ground (arith, all.rest, head_key, tail_keys),
        simp (one.trace, all.trace, deleted_ids-append, head_ids, tail_ids),
      )

  delete_unwanted-ids :
      (desired : List String) (by_key : RuleMap)
      → Yields
          (λ t a. deleted_ids t ≡ obsolete_ids desired by_key)
          (delete_unwanted client lb_id vs_id desired by_key)
  unfolding delete_unwanted
  delete_unwanted-ids desired [] = record { at = λ w a h. refl }
  delete_unwanted-ids desired ((key, rule) ∷ by_key) =
      let rest = delete_unwanted client lb_id vs_id desired by_key in
      let ih = delete_unwanted-ids desired by_key in
      Yields-if (contains key desired || trim_space rule.id == "") rest
        (delete_rule client lb_id vs_id rule.id >> (rest >> pure true)) (λ e. rw e ih)
        (λ e. rw e (record {
          at = λ w a h.
              let one =
                bind-Steps (delete_rule client lb_id vs_id rule.id) (λ _. rest >> pure true) w a
                  h in
              let both = bind-Steps rest (λ _. pure true) _ a one.rest in
              simp (one.trace, both.trace, ih.at _ _ both.first, append-nil);
        }))

  reconcile-answers :
      (desired : List RoutingRuleSpec) (owned : List String) (legacy : Bool)
      (existing : List RoutingRuleResource) (w : W) (a : List RoutingRuleResource × Bool)
      → Echoes client
      → (reconcile client lb_id vs_id desired owned legacy existing w).reply ≡ ok a
      → (map rule_key a.0 ≡ map spec_key desired)
        × (deleted_ids (reconcile client lb_id vs_id desired owned legacy existing w).trace
            ≡ obsolete_ids (map spec_key desired) (index_owned legacy owned existing []))
  unfolding reconcile
  reconcile-answers desired owned legacy existing w a echo h =
      let by_key = index_owned legacy owned existing [] in
      let one =
        bind-Steps
          (reconcile_rules client lb_id vs_id by_key (foreign_keys legacy owned existing) desired) _
          w a h in
      let two =
        bind-Steps (delete_unwanted client lb_id vs_id (map spec_key desired) by_key) _ _ a
          one.rest in
      let (keys, none_deleted) =
        reconcile_rules-keys by_key _ desired w one.value echo
          (index_owned-IsKeyed legacy owned existing [] tt) one.first in
      (
        ground (arith, two.rest, keys),
        simp
            (
              one.trace,
              two.trace,
              deleted_ids-append,
              none_deleted,
              (delete_unwanted-ids (map spec_key desired) by_key).at _ _ two.first,
            )
            (append-nil _),
      )

ensure_owned-index :
    {W : Type 0} (client : RoutingRuleClient W) (lb_id vs_id : String)
    (desired : List RoutingRuleSpec) (owned : List String) (w : W)
    (rules : List RoutingRuleResource) (changed : Bool)
    → Echoes client
    → (ensure_owned client lb_id vs_id desired owned w).reply ≡ ok (rules, changed)
    → (existing : List RoutingRuleResource) × ((client.list_routing_rules lb_id vs_id w).0
        ≡ ok existing)
      × (map rule_key rules ≡ map spec_key desired)
      × (deleted_ids (ensure_owned client lb_id vs_id desired owned w).trace
          ≡ obsolete_ids (map spec_key desired) (index_owned false owned existing []))
unfolding ensure_owned ensure ◌>>=◌
ensure_owned-index client lb_id vs_id desired owned w rules changed echo h =
    elim (Result-cases (client.list_routing_rules lb_id vs_id w).0) [
      | inl (existing, q) ↦
          let done =
            reconcile-answers client lb_id vs_id desired owned false existing
              (client.list_routing_rules lb_id vs_id w).1 (rules, changed) echo in
          (existing, q, ground (arith, done), ground (arith, done))
      | inr (e, q) ↦ absurd (ground arith)
    ]

-- The id is that of a listed rule whose key is not desired, the last owned one of this key.
abbrev pub IsObsolete :
    List String → List RoutingRuleResource → List RoutingRuleSpec → String → Type 0
IsObsolete owned existing desired id =
    (rule : RoutingRuleResource) × (last_owned owned (rule_key rule) existing ≡ some rule)
    × (contains (rule_key rule) (map spec_key desired) ≡ false)
    × (trim_space rule.id ≢ "")
    × (rule.id ≡ id)

obsolete_ids-IsObsolete :
    (owned : List String) (existing : List RoutingRuleResource) (desired : List RoutingRuleSpec)
    (id : String)
    → (contains id (obsolete_ids (map spec_key desired) (index_owned false owned existing []))
        ≡ true)
      ↔ IsObsolete owned existing desired id
unfolding lookup
obsolete_ids-IsObsolete owned existing desired id =
    let table = index_owned false owned existing [] in
    let keys = map spec_key desired in
    let at : (k : String) → lookup k table ≡ last_owned owned k existing =
      λ k. lookup-index_owned owned k existing [] ∙ or_else-none (last_owned owned k existing) in
    (
      λ h.
          let (k, rule, found, free, set, same) =
            contains-unwanted_ids (λ (r : RoutingRuleResource). r.id) keys table id
              (index_owned-HasDistinctKeys owned existing [] tt) h in
          let key : rule_key rule ≡ k =
            lookup-All IsKeyed k rule table (index_owned-IsKeyed false owned existing [] tt)
              found in
          (
            rule,
            ap (λ x. last_owned owned x existing) key ∙ (sym (at k) ∙ found),
            rw key free,
            set,
            same,
          ),
      λ (rule, is, free, set, same).
          unwanted_ids-contains (λ (r : RoutingRuleResource). r.id) keys table id
            (rule_key rule, rule, at (rule_key rule) ∙ is, free, set, same),
    )

-- A run that succeeds has answered each desired rule, in order, with a rule of the same key. The ids that it
-- deletes are exactly those, as far as they are not blank, of the listed owned rules whose key is not
-- desired, where of owned rules with one key only the last counts. CMP is taken to answer a creation with a
-- rule of the key that was asked for.
pub ensure_owned-answers :
    {W : Type 0} (client : RoutingRuleClient W) (lb_id vs_id : String)
    (desired : List RoutingRuleSpec) (owned : List String) (w : W)
    (rules : List RoutingRuleResource) (changed : Bool)
    → Echoes client
    → (ensure_owned client lb_id vs_id desired owned w).reply ≡ ok (rules, changed)
    → (existing : List RoutingRuleResource) × ((client.list_routing_rules lb_id vs_id w).0
        ≡ ok existing)
      × (map rule_key rules ≡ map spec_key desired)
      × ((id : String)
          → (contains id (deleted_ids (ensure_owned client lb_id vs_id desired owned w).trace)
              ≡ true)
            ↔ IsObsolete owned existing desired id)
ensure_owned-answers client lb_id vs_id desired owned w rules changed echo h =
    let (existing, q, keys, ids) =
      ensure_owned-index client lb_id vs_id desired owned w rules changed echo h in
    (existing, q, keys, λ id. rw ids (obsolete_ids-IsObsolete owned existing desired id))
