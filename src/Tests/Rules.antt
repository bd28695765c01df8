-- ===== src/Tests/Rules.antt =====
-- Examples of the managers of monitors and routing rules. The services answer as asked.
use garden_extension_f5_loca.RoutingRules
use garden_extension_f5_loca.Monitors.Single
use garden_extension_f5_loca.Monitors
use mathlib.Core.Path.{subst}
use garden_extension_f5_loca.Prelude.{
  All, List, String, [], false, map, pos, refl, some, true, ℕ, ◌+◌, ◌∷◌, ◌≡◌, ◌≢◌, ◌↔◌,
}
use garden_extension_f5_loca.Cmp.{
  MonitorClient, MonitorResource, MonitorSpec, RoutingRuleClient, RoutingRuleResource,
  RoutingRuleSpec, listed_routing_rules,
}
use garden_extension_f5_loca.Dict.{contains, insert, lookup}
use garden_extension_f5_loca.Exec.{Exec, ok, ◌>>=◌}
use garden_extension_f5_loca.Model.{Monitor}
use garden_extension_f5_loca.Monitors.{create_missing, keep_from, keep_one, monitor_spec_equal}
use garden_extension_f5_loca.Monitors.Single.{KeepsId, ensure-removed_ids}
use garden_extension_f5_loca.RoutingRules.{
  add_owned, existing_rule, foreign_keys, index_owned, reconcile_rule, reconcile_rules,
  routing_rule_key, rule_key,
}
use garden_extension_f5_loca.RoutingRules.Converged.{
  Echoes, IsObsolete, deleted_ids, ensure_owned-answers,
}
use garden_extension_f5_loca.RoutingRules.Again.{ensure_owned_again}
use garden_extension_f5_loca.RoutingRules.Ownership.{Respects, ensure_owned-Respects}
use garden_extension_f5_loca.Tests.{differ}
use garden_extension_f5_loca.Text.{equal_fold, to_lower, trim_space}
use garden_extension_f5_loca.Text.Join.{join}

abbrev rule_of : String → RoutingRuleSpec → RoutingRuleResource
rule_of id spec = record {
  id = id;
  host = spec.host;
  path = spec.path;
  match_type = spec.match_type;
  pool_id = spec.pool_id;
}

abbrev spec_web : RoutingRuleSpec
spec_web = record { host = "Web.example"; path = "/"; match_type = ""; pool_id = "pool-1" }

abbrev spec_api : RoutingRuleSpec
spec_api = record { host = "api.example"; path = "/v1"; match_type = "exact"; pool_id = "pool-2" }

abbrev existing_rules : List RoutingRuleResource
existing_rules = rule_of "r-1" spec_web ∷ rule_of "r-2" spec_api ∷ []

abbrev rule_client : RoutingRuleClient ℕ
rule_client = record {
  list_routing_rules = λ lb vs n. (ok existing_rules, n + 1);
  create_routing_rule = λ lb vs spec n. (ok (rule_of "r-9" spec), n + 1);
  delete_routing_rule = λ lb vs id n. (ok tt, n + 1);
}

ok_rule_injective : (a b : RoutingRuleResource) → ok a ≡ ok b → a ≡ b
ok_rule_injective a b h = cc

rule_client-Echoes : Echoes rule_client
rule_client-Echoes lb vs spec n rule h =
    subst (λ r. RoutingRules.rule_key r ≡ RoutingRules.spec_key spec)
      (ok_rule_injective (rule_of "r-9" spec) rule h) refl

ensure_owned-Respects_example :
    All
      (Respects "lb-1" "vs-1" ("r-1" ∷ []) (ok existing_rules))
      (RoutingRules.ensure_owned rule_client "lb-1" "vs-1" (spec_web ∷ []) ("r-1" ∷ []) 0).trace
ensure_owned-Respects_example =
    ensure_owned-Respects rule_client "lb-1" "vs-1" (spec_web ∷ []) ("r-1" ∷ []) 0

ensure_owned-answers_example :
    (existing : List RoutingRuleResource) × ((rule_client.list_routing_rules "lb-1" "vs-1" 0).0
      ≡ ok existing)
    × (map RoutingRules.rule_key (rule_of "r-1" spec_web ∷ [])
        ≡ map RoutingRules.spec_key (spec_web ∷ []))
    × ((id : String)
        → (contains id (
              deleted_ids
                (RoutingRules.ensure_owned rule_client "lb-1" "vs-1"
                  (spec_web ∷ [])
                  ("r-1" ∷ "r-2" ∷ [])
                  0).trace)
            ≡ true)
          ↔ IsObsolete ("r-1" ∷ "r-2" ∷ []) existing (spec_web ∷ []) id)
unfolding RoutingRules.ensure_owned RoutingRules.ensure trim_space
    garden_extension_f5_loca.Exec.◌>>=◌ RoutingRules.reconcile RoutingRules.reconcile_rules
    RoutingRules.reconcile_rule garden_extension_f5_loca.Dict.contains RoutingRules.foreign_keys
    RoutingRules.existing_rule garden_extension_f5_loca.Dict.lookup index_owned
    RoutingRules.add_owned garden_extension_f5_loca.Dict.insert RoutingRules.routing_rule_key
    garden_extension_f5_loca.Text.Join.join garden_extension_f5_loca.Text.to_lower
    RoutingRules.delete_unwanted
ensure_owned-answers_example =
    ensure_owned-answers rule_client "lb-1" "vs-1" (spec_web ∷ []) ("r-1" ∷ "r-2" ∷ []) 0
      (rule_of "r-1" spec_web ∷ []) true rule_client-Echoes refl

ensure_owned_again_example :
    (rules : List RoutingRuleResource) × ((RoutingRules.ensure_owned rule_client "lb-1" "vs-1"
        (spec_web ∷ spec_api ∷ [])
        ("r-1" ∷ "r-2" ∷ [])
        1).reply
      ≡ ok (rules, false))
    × ((RoutingRules.ensure_owned rule_client "lb-1" "vs-1"
          (spec_web ∷ spec_api ∷ [])
          ("r-1" ∷ "r-2" ∷ [])
          1).trace
        ≡ listed_routing_rules "lb-1" "vs-1" (ok existing_rules) ∷ [])
unfolding RoutingRules.ensure_owned RoutingRules.ensure trim_space
    garden_extension_f5_loca.Exec.◌>>=◌ RoutingRules.reconcile RoutingRules.reconcile_rules
    RoutingRules.reconcile_rule garden_extension_f5_loca.Dict.contains RoutingRules.foreign_keys
    RoutingRules.existing_rule garden_extension_f5_loca.Dict.lookup index_owned
    RoutingRules.add_owned garden_extension_f5_loca.Dict.insert RoutingRules.routing_rule_key
    garden_extension_f5_loca.Text.Join.join garden_extension_f5_loca.Text.to_lower
    RoutingRules.delete_unwanted
ensure_owned_again_example =
    ensure_owned_again rule_client "lb-1" "vs-1" (spec_web ∷ spec_api ∷ []) ("r-1" ∷ "r-2" ∷ [])
      ("r-1" ∷ "r-2" ∷ []) 0 1 existing_rules false rule_client-Echoes refl
      (differ _ _ refl, (differ _ _ refl, tt)) (refl, (refl, tt)) refl

abbrev monitor_of : String → MonitorSpec → MonitorResource
monitor_of id spec = record {
  id = id;
  name = spec.name;
  protocol = spec.protocol;
  path = spec.path;
  interval = spec.interval;
}

abbrev desired_monitor : Monitor
desired_monitor = record {
  name = "health";
  type = "HTTP";
  path = "/ready";
  interval = pos 5;
  port = pos 0;
  timeout = pos 16;
}

abbrev health : MonitorSpec
health = record { name = "health"; protocol = "http"; path = "/"; interval = pos 5 }

abbrev listed_monitors_a : List MonitorResource
listed_monitors_a =
    monitor_of "h-1" (record health { name = "old" })
    ∷ monitor_of "h-2" health
    ∷ monitor_of "h-3" health
    ∷ []

abbrev monitor_client : MonitorClient ℕ
monitor_client = record {
  list_monitors = λ lb vs pool n. (ok listed_monitors_a, n + 1);
  create_monitor = λ lb vs pool spec n. (ok (monitor_of "h-9" spec), n + 1);
  update_monitor = λ lb vs pool id spec n. (ok (monitor_of "h-2" spec), n + 1);
  delete_monitor = λ lb vs pool id n. (ok tt, n + 1);
}

ok_monitor_injective : (a b : MonitorResource) → ok a ≡ ok b → a ≡ b
ok_monitor_injective a b h = cc

monitor_client-KeepsId : KeepsId monitor_client
unfolding trim_space
monitor_client-KeepsId lb vs pool id spec n m h =
    subst (λ m. trim_space m.id ≢ "") (ok_monitor_injective (monitor_of "h-2" spec) m h)
      (differ "h-2" "" refl)

ensure-removed_ids_example :
    Monitors.Single.deleted_ids
      (Monitors.ensure monitor_client "lb-1" "vs-1" "pool-1" (some desired_monitor) 0).trace
    ≡ "h-1" ∷ "h-3" ∷ []
unfolding Monitors.ensure trim_space garden_extension_f5_loca.Exec.◌>>=◌ Monitors.reconcile
    Monitors.keep_from Monitors.keep_one Monitors.monitor_spec_equal
    garden_extension_f5_loca.Text.equal_fold Monitors.create_missing
ensure-removed_ids_example =
    ensure-removed_ids monitor_client "lb-1" "vs-1" "pool-1" (some desired_monitor)
      listed_monitors_a 0
      (monitor_of "h-2" (record health { protocol = "HTTP"; path = "/ready" }), true)
      monitor_client-KeepsId refl refl
