-- ===== src/RoutingRules/Ownership.antt =====
-- RoutingRuleManager.EnsureOwned: what a run does to the rules of other stacks.
use garden_extension_f5_loca.Prelude.{
  All, Bool-cases, List, String, [], arith, eq_iff, false, inl, inr, int_eq, nat_eq, refl,
  string_eq, true, ◌==◌, ◌||◌, ◌∷◌, ◌≡◌, ◌≢◌,
}
use garden_extension_f5_loca.Cmp.{
  Event, RoutingRuleClient, RoutingRuleResource, RoutingRuleSpec, created_routing_rule,
  deleted_routing_rule, is_read, listed_routing_rules,
}
use garden_extension_f5_loca.Dict.{All-insert, contains}
use garden_extension_f5_loca.Exec.{Result, err, ok, resume, wrap_err, wrapf, ◌>>=◌}
use garden_extension_f5_loca.Exec.Rules.{Emits, Emits-bind, Emits-imp, Emits-pure, emits_rules}
use garden_extension_f5_loca.RoutingRules.{
  RuleMap, add_owned, delete_rule, delete_unwanted, ensure, ensure_owned, foreign_keys, index_owned,
  reconcile, reconcile_rule, reconcile_rules, rule_key, spec_key,
}
use garden_extension_f5_loca.Text.{trim_space}

-- A deletion is of an owned rule and a creation has no foreign key, both on this virtual server; all
-- else is a read.
abbrev Avoids : String → String → List String → List String → Event → Type 0
Avoids lb vs owned foreign (deleted_routing_rule on at id _) =
    (on ≡ lb) × (at ≡ vs) × (contains (trim_space id) owned ≡ true)
Avoids lb vs owned foreign (created_routing_rule on at spec _) =
    (on ≡ lb) × (at ≡ vs) × (contains (spec_key spec) foreign ≡ false)
Avoids lb vs owned foreign e = is_read e ≡ true

-- The key is that of no rule that is not owned.
abbrev pub IsUnclaimed : List String → List RoutingRuleResource → String → Type 0
IsUnclaimed owned rules key =
    All (λ rule. contains (trim_space rule.id) owned ≡ false → rule_key rule ≢ key) rules

-- What a call may be after this answer to the listing: after an error a read; otherwise a read, the
-- deletion of an owned rule, or a creation with the key of no listed rule that is not owned, on this
-- virtual server.
abbrev pub Respects :
    String → String → List String → Result (List RoutingRuleResource) → Event → Type 0
Respects lb vs owned (err x) e = is_read e ≡ true
Respects lb vs owned (ok rules) (deleted_routing_rule on at id _) =
    (on ≡ lb) × (at ≡ vs) × (contains (trim_space id) owned ≡ true)
Respects lb vs owned (ok rules) (created_routing_rule on at spec _) =
    (on ≡ lb) × (at ≡ vs) × IsUnclaimed owned rules (spec_key spec)
Respects lb vs owned (ok rules) e = is_read e ≡ true

foreign_keys-IsUnclaimed :
    (owned : List String) (rules : List RoutingRuleResource) (key : String)
    → contains key (foreign_keys false owned rules) ≡ false
    → IsUnclaimed owned rules key
unfolding foreign_keys contains
foreign_keys-IsUnclaimed owned [] key h = tt
foreign_keys-IsUnclaimed owned (rule ∷ rules) key h = (
  λ n e. ground (arith, eq_iff (rule_key rule) key),
  foreign_keys-IsUnclaimed owned rules key (ground arith),
)

Avoids-Respects :
    (lb vs : String) (owned : List String) (rules : List RoutingRuleResource) (e : Event)
    → Avoids lb vs owned (foreign_keys false owned rules) e
    → Respects lb vs owned (ok rules) e
Avoids-Respects lb vs owned rules (created_routing_rule on at spec r) (l, v, free) =
    (l, v, foreign_keys-IsUnclaimed owned rules (spec_key spec) free)
Avoids-Respects lb vs owned rules (deleted_routing_rule on at id r) h = h
Avoids-Respects lb vs owned rules _ h = h

abbrev IsOwned : List String → String × RoutingRuleResource → Type 0
IsOwned owned (key, rule) = contains (trim_space rule.id) owned ≡ true

add_owned-IsOwned :
    (owned : List String) (rule : RoutingRuleResource) (by_key : RuleMap)
    → All (IsOwned owned) by_key
    → All (IsOwned owned) (add_owned false owned rule by_key)
unfolding add_owned
add_owned-IsOwned owned rule by_key h =
    ground (arith, All-insert (IsOwned owned) (rule_key rule) rule by_key)

index_owned-IsOwned :
    (owned : List String) (rules : List RoutingRuleResource) (by_key : RuleMap)
    → All (IsOwned owned) by_key
    → All (IsOwned owned) (index_owned false owned rules by_key)
unfolding index_owned
index_owned-IsOwned owned [] by_key h = h
index_owned-IsOwned owned (rule ∷ rules) by_key h =
    index_owned-IsOwned owned rules (add_owned false owned rule by_key)
      (add_owned-IsOwned owned rule by_key h)

module _ {W : Type 0} (client : RoutingRuleClient W) (lb_id vs_id : String)
    (owned foreign : List String) where
  reconcile_rule-Avoids :
      (by_key : RuleMap) (spec : RoutingRuleSpec)
      → Emits
          (Avoids lb_id vs_id owned foreign)
          (reconcile_rule client lb_id vs_id by_key foreign spec)
  unfolding reconcile_rule ◌>>=◌
  reconcile_rule-Avoids by_key spec = record { at = λ w. ground arith }

  reconcile_rules-Avoids :
      (by_key : RuleMap) (specs : List RoutingRuleSpec)
      → Emits
          (Avoids lb_id vs_id owned foreign)
          (reconcile_rules client lb_id vs_id by_key foreign specs)
  unfolding reconcile_rules
  reconcile_rules-Avoids by_key [] = search emits_rules
  reconcile_rules-Avoids by_key (spec ∷ specs) =
      Emits-bind _ _ (reconcile_rule-Avoids by_key spec)
        λ a. Emits-bind _ _ (reconcile_rules-Avoids by_key specs) λ b. Emits-pure _

  delete_rule-Avoids :
      (id : String)
      → contains (trim_space id) owned ≡ true
      → Emits (Avoids lb_id vs_id owned foreign) (delete_rule client lb_id vs_id id)
  delete_rule-Avoids id h = record { at = λ w. ((refl, refl, h), tt) }

  delete_unwanted-Avoids :
      (desired : List String) (by_key : RuleMap)
      → All (IsOwned owned) by_key
      → Emits (Avoids lb_id vs_id owned foreign) (delete_unwanted client lb_id vs_id desired by_key)
  unfolding delete_unwanted
  delete_unwanted-Avoids desired [] h = Emits-pure _
  delete_unwanted-Avoids desired ((key, rule) ∷ by_key) h =
      let rest = delete_unwanted-Avoids desired by_key h.1 in
      search (emits_rules, delete_rule-Avoids rule.id h.0, rest) depth 8

  reconcile-Avoids :
      (desired : List RoutingRuleSpec) (existing : List RoutingRuleResource)
      → foreign ≡ foreign_keys false owned existing
      → Emits
          (Avoids lb_id vs_id owned foreign)
          (reconcile client lb_id vs_id desired owned false existing)
  unfolding reconcile
  reconcile-Avoids desired existing same = rw (← same) (
      Emits-bind _ _ (reconcile_rules-Avoids _ desired) λ a.
        Emits-bind _ _ (delete_unwanted-Avoids _ _ (index_owned-IsOwned owned existing [] tt))
          λ b. Emits-pure _)

listed_rule-Respects :
    (lb vs : String) (owned : List String) (r s : Result (List RoutingRuleResource))
    → Respects lb vs owned r (listed_routing_rules lb vs s)
listed_rule-Respects lb vs owned (ok rules) s = refl
listed_rule-Respects lb vs owned (err e) s = refl

-- The rest of a run, after the listing.
resumed-Respects :
    {W : Type 0} (client : RoutingRuleClient W) (lb_id vs_id : String)
    (desired : List RoutingRuleSpec) (owned : List String) (r : Result (List RoutingRuleResource))
    (w : W)
    → All
        (Respects lb_id vs_id owned r)
        (resume
          (wrap_err (wrapf "listing routing rules for virtual server %s" (vs_id ∷ [])) r)
          (reconcile client lb_id vs_id desired owned false)
          w).trace
resumed-Respects client lb_id vs_id desired owned (ok rules) w =
    (Emits-imp _ (Avoids-Respects lb_id vs_id owned rules) (
        reconcile-Avoids client lb_id vs_id owned (foreign_keys false owned rules) desired rules
          refl)).at
      w
resumed-Respects client lb_id vs_id desired owned (err e) w = tt

-- Whatever CMP answers, a run deletes only rules whose id is owned, and creates none with the key of
-- a listed rule that is not owned. Where the listing fails it only reads.
pub ensure_owned-Respects :
    {W : Type 0} (client : RoutingRuleClient W) (lb_id vs_id : String)
    (desired : List RoutingRuleSpec) (owned : List String) (w : W)
    → All
        (Respects lb_id vs_id owned (client.list_routing_rules lb_id vs_id w).0)
        (ensure_owned client lb_id vs_id desired owned w).trace
unfolding ensure_owned ensure ◌>>=◌
ensure_owned-Respects client lb_id vs_id desired owned w =
    let (r, w') = client.list_routing_rules lb_id vs_id w in
    elim (Bool-cases (trim_space lb_id == "" || trim_space vs_id == "")) [
      | inl e ↦ rw e tt
      | inr e ↦ rw e (
        listed_rule-Respects lb_id vs_id owned r r,
        resumed-Respects client lb_id vs_id desired owned r w',
      )
    ]
