-- ===== src/RoutingRules/Indexed.antt =====
-- RoutingRuleManager.ensure: what the index of the owned rules and the keys of the foreign ones hold.
use garden_extension_f5_loca.Prelude.{
  All, Bool, Bool-cases, List, Option, Option-cases, String, [], ap, arith, eq_iff, false,
  if◌then◌else◌, inl, inr, int_eq, map, nat_eq, none, refl, some, string_eq, true, ◌&&◌, ◌==◌, ◌∙◌,
  ◌∷◌, ◌≡◌, ◌≢◌,
}
use garden_extension_f5_loca.Cmp.{RoutingRuleResource}
use garden_extension_f5_loca.Dict.{All-insert, contains, lookup, lookup-All, lookup-insert}
use garden_extension_f5_loca.Dict.Unwanted.{
  All-last_where, HasDistinctKeys, HasDistinctKeys-insert, last_where, last_where-cons, or_else,
}
use garden_extension_f5_loca.RoutingRules.{
  RuleMap, add_owned, existing_rule, foreign_keys, index_owned, rule_key,
}
use garden_extension_f5_loca.Text.{trim_space}

-- byKey holds each rule under its own key.
abbrev pub IsKeyed : String × RoutingRuleResource → Type 0
IsKeyed (key, rule) = rule_key rule ≡ key

add_owned-IsKeyed :
    (legacy : Bool) (owned : List String) (rule : RoutingRuleResource) (by_key : RuleMap)
    → All IsKeyed by_key
    → All IsKeyed (add_owned legacy owned rule by_key)
unfolding add_owned
add_owned-IsKeyed legacy owned rule by_key h =
    ground (arith, All-insert IsKeyed (rule_key rule) rule by_key refl)

pub index_owned-IsKeyed :
    (legacy : Bool) (owned : List String) (rules : List RoutingRuleResource) (by_key : RuleMap)
    → All IsKeyed by_key
    → All IsKeyed (index_owned legacy owned rules by_key)
unfolding index_owned
index_owned-IsKeyed legacy owned [] by_key h = h
index_owned-IsKeyed legacy owned (rule ∷ rules) by_key h =
    index_owned-IsKeyed legacy owned rules (add_owned legacy owned rule by_key)
      (add_owned-IsKeyed legacy owned rule by_key h)

pub existing_rule-key :
    (key : String) (by_key : RuleMap) (rule : RoutingRuleResource)
    → All IsKeyed by_key
    → existing_rule key by_key ≡ some rule
    → rule_key rule ≡ key
unfolding existing_rule
existing_rule-key key by_key rule k h = lookup-All IsKeyed key rule by_key k (ground arith)

-- The last owned rule of a key.
abbrev pub last_owned : List String → String → List RoutingRuleResource → Option RoutingRuleResource
last_owned owned key =
    last_where (λ rule. contains (trim_space rule.id) owned && rule_key rule == key)

-- The index of the listed rules holds the last owned one of each key.
pub lookup-index_owned :
    (owned : List String) (k : String) (rules : List RoutingRuleResource) (by_key : RuleMap)
    → lookup k (index_owned false owned rules by_key)
      ≡ or_else (last_owned owned k rules) (lookup k by_key)
unfolding index_owned add_owned
lookup-index_owned owned k [] by_key = refl
lookup-index_owned owned k (rule ∷ rules) by_key =
    let test = λ (r : RoutingRuleResource). contains (trim_space r.id) owned && rule_key r == k in
    let added : lookup k (add_owned false owned rule by_key)
        ≡ (if test rule then some rule else lookup k by_key) =
      elim (Bool-cases (contains (trim_space rule.id) owned)) [
        | inl e ↦ rw e (lookup-insert (rule_key rule) k rule by_key)
        | inr e ↦ rw e refl
      ] in
    lookup-index_owned owned k rules (add_owned false owned rule by_key)
    ∙ (ap (or_else (last_owned owned k rules)) added
        ∙ last_where-cons test rule rules (lookup k by_key))

pub index_owned-HasDistinctKeys :
    (owned : List String) (rules : List RoutingRuleResource) (by_key : RuleMap)
    → HasDistinctKeys by_key
    → HasDistinctKeys (index_owned false owned rules by_key)
unfolding index_owned add_owned
index_owned-HasDistinctKeys owned [] by_key h = h
index_owned-HasDistinctKeys owned (rule ∷ rules) by_key h =
    index_owned-HasDistinctKeys owned rules (add_owned false owned rule by_key)
      (elim (Bool-cases (contains (trim_space rule.id) owned)) [
        | inl e ↦ rw e (HasDistinctKeys-insert (rule_key rule) rule by_key h)
        | inr e ↦ rw e h
      ])

pub foreign_keys-nil :
    (owned : List String) (rules : List RoutingRuleResource)
    → All (λ rule. contains (trim_space rule.id) owned ≡ true) rules
    → foreign_keys false owned rules ≡ []
unfolding foreign_keys
foreign_keys-nil owned [] h = refl
foreign_keys-nil owned (rule ∷ rules) (e, h) = rw e (foreign_keys-nil owned rules h)

-- Of owned rules with a key there is a last one.
last_owned-found :
    (owned : List String) (k : String) (rules : List RoutingRuleResource)
    → All (λ rule. contains (trim_space rule.id) owned ≡ true) rules
    → contains k (map rule_key rules) ≡ true
    → (rule : RoutingRuleResource) × (last_owned owned k rules ≡ some rule)
unfolding contains
last_owned-found owned k [] h c = absurd (ground arith)
last_owned-found owned k (rule ∷ rules) (e, h) c = elim (Option-cases (last_owned owned k rules)) [
  | inl n ↦ elim (Bool-cases (rule_key rule == k)) [
    | inl here ↦ (rule, rw (n, e, here) refl)
    | inr there ↦
        let (r, q) = last_owned-found owned k rules h (ground arith) in absurd (ground arith)
  ]
  | inr (r, q) ↦ (r, rw q refl)
]

pub existing_rule-found :
    (owned : List String) (k : String) (rules : List RoutingRuleResource)
    → All (λ rule. contains (trim_space rule.id) owned ≡ true) rules
    → All (λ rule. trim_space rule.id ≢ "") rules
    → contains k (map rule_key rules) ≡ true
    → existing_rule k (index_owned false owned rules []) ≢ none
unfolding existing_rule lookup
existing_rule-found owned k rules own set c none_found =
    let (rule, q) = last_owned-found owned k rules own c in
    let at = lookup-index_owned owned k rules [] in
    let given = All-last_where (λ r. trim_space r.id ≢ "") _ rules rule set q in
    absurd (ground (arith, at, q, eq_iff (trim_space rule.id) ""))

pub index_owned-HasKeyIn :
    (owned keys : List String) (rules : List RoutingRuleResource) (by_key : RuleMap)
    → All (λ rule. contains (rule_key rule) keys ≡ true) rules
    → All (λ (entry : String × RoutingRuleResource). contains entry.0 keys ≡ true) by_key
    → All
        (λ (entry : String × RoutingRuleResource). contains entry.0 keys ≡ true)
        (index_owned false owned rules by_key)
unfolding index_owned add_owned
index_owned-HasKeyIn owned keys [] by_key h k = k
index_owned-HasKeyIn owned keys (rule ∷ rules) by_key h k =
    index_owned-HasKeyIn owned keys rules (add_owned false owned rule by_key) h.1
      (elim (Bool-cases (contains (trim_space rule.id) owned)) [
        | inl e ↦ rw e (
            All-insert (λ (entry : String × RoutingRuleResource). contains entry.0 keys ≡ true)
              (rule_key rule) rule by_key h.0 k)
        | inr e ↦ rw e k
      ])
