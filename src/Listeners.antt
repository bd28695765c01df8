-- ===== src/Listeners.antt =====
-- pkg/deploy/lbaas/deployer.go, the loop of EnsureStack over the virtual servers: each is ensured with its
-- certificates, pools, monitors and routing rules, and recorded in the graph. A manager that is nil
-- where it is needed is refused before the loop; the model refuses it here as well.

use Prim.Native.String.{◌++◌}
use garden_extension_f5_loca.Prelude.{
  Bool, List, String, [], false, if◌then◌else◌, int_eq, nat_eq, none, some, string_eq, true, ◌!=◌,
  ◌&&◌, ◌==◌, ◌∷◌,
}
use garden_extension_f5_loca.Cleanup.{external_id_of}
use garden_extension_f5_loca.Cmp.{
  MonitorResource, PoolMemberResource, PoolResource, RoutingRuleResource, RoutingRuleSpec,
}
use garden_extension_f5_loca.Dict.{insert, lookup}
use garden_extension_f5_loca.Exec.{Result, err, errorf, ok}
use garden_extension_f5_loca.Members.{pool_member_key}
use garden_extension_f5_loca.Model.{LoadBalancerStack, Ownership, Pool, RoutingRule, VirtualServer}
use garden_extension_f5_loca.Observed.{Bucket, ObservedGraph, ObservedResource, ObservedState}
use garden_extension_f5_loca.RoutingRules.{rule_key}
use garden_extension_f5_loca.Stacks.{graph_pool_key, graph_virtual_server_name, pool_graph_key}
use garden_extension_f5_loca.Text.{trim_space}
use garden_extension_f5_loca.Text.Decimal.{show}

abbrev pub observe : String → String → String → String → String → Ownership → ObservedResource
observe key id name address hash ownership = record {
  logical_id = key;
  external_id = id;
  name = name;
  address = address;
  desired_hash = hash;
  ownership = ownership;
}

-- The entries whose keys fail the test.
unfoldable pub drop_keys : (String → Bool) → Bucket → Bucket
drop_keys gone [] = []
drop_keys gone ((key, r) ∷ bucket) =
    let rest = drop_keys gone bucket in if gone key then rest else (key, r) ∷ rest

-- The state with its graph, and whether something changed.
abbrev pub Progress : Type 0
Progress = ObservedState × Bool

-- What the loop knows of the parents.
pub record Place : Type 0 where
  pub lb_id : String
  pub vip_id : String
  pub network_id : String

abbrev member_entry : String → Ownership → PoolMemberResource → String × ObservedResource
member_entry pool_key ownership m =
    let key =
      pool_key ++ "/" ++ pool_member_key m.resource_id m.resource_ip m.backend_port_id m.port in
    (key, observe key m.id (m.resource_ip ++ ":" ++ show m.port) "" "" ownership)

unfoldable pub record_members : String → Ownership → List PoolMemberResource → Bucket → Bucket
record_members pool_key ownership [] bucket = bucket
record_members pool_key ownership (m ∷ members) bucket =
    let (key, r) = member_entry pool_key ownership m in
    record_members pool_key ownership members (insert key r bucket)

-- What is recorded of a pool and its members.
unfoldable pub record_pool : VirtualServer → Pool → PoolResource → ObservedGraph → ObservedGraph
record_pool vs pool resource g =
    let key = pool_graph_key vs pool in
    record g {
      pools = insert key (observe key resource.id resource.name "" "" pool.ownership) g.pools;
      members =
          record_members key pool.ownership resource.members
            (drop_keys (λ k. graph_pool_key k == key) g.members);
    }

abbrev pub record_monitor : VirtualServer → Pool → MonitorResource → ObservedGraph → ObservedGraph
record_monitor vs pool monitor g =
    let key = pool_graph_key vs pool in
    if monitor.id == "" then g else record g {
      monitors = insert key (observe key monitor.id monitor.name "" "" pool.ownership) g.monitors;
    }

abbrev add_spec : RoutingRuleSpec → Result (List RoutingRuleSpec) → Result (List RoutingRuleSpec)
add_spec spec (ok specs) = ok (spec ∷ specs)
add_spec spec (err e) = err e

-- The specs of the rules, by the pools of this listener.
unfoldable pub desired_rules :
    String → List (String × String) → List RoutingRule → Result (List RoutingRuleSpec)
desired_rules vs_name pool_ids [] = ok []
desired_rules vs_name pool_ids (rule ∷ rules) =
    let rest = desired_rules vs_name pool_ids rules in
    elim (lookup rule.pool_name pool_ids) [
      | none ↦ err (
          errorf "routing rule %q references pool %q that is not attached to virtual server %q"
            (rule.name ∷ rule.pool_name ∷ vs_name ∷ []))
      | some id ↦
          add_spec
            (record {
              host = rule.host;
              path = rule.path;
              match_type = rule.match_type;
              pool_id = id;
            })
            rest
    ]

-- ownedRuleIDs: the rules recorded below the listener's name.
unfoldable pub owned_rule_ids : String → Bucket → List String
owned_rule_ids vs_name [] = []
owned_rule_ids vs_name ((key, r) ∷ bucket) =
    let rest = owned_rule_ids vs_name bucket in
    if graph_virtual_server_name key == vs_name && trim_space r.external_id != ""
    then r.external_id ∷ rest
    else rest

unfoldable pub record_rules : VirtualServer → List RoutingRuleResource → Bucket → Bucket
record_rules vs [] bucket = bucket
record_rules vs (rule ∷ rules) bucket =
    let key = vs.name ++ "/" ++ rule_key rule in
    record_rules vs rules (insert key (observe key rule.id "" "" "" vs.ownership) bucket)

unfoldable pub record_certificates : List ObservedResource → Bucket → Bucket
record_certificates [] bucket = bucket
record_certificates (r ∷ resources) bucket =
    record_certificates resources (insert r.logical_id r bucket)

abbrev pub with_graph : ObservedState → ObservedGraph → ObservedState
with_graph observed g = record observed { graph = g }

abbrev lone : List VirtualServer → Bool
lone (_ ∷ []) = true
lone _ = false

-- currentID
abbrev pub current_listener_id : LoadBalancerStack → ObservedState → VirtualServer → String
current_listener_id stack observed vs =
    let recorded = external_id_of vs.name observed.graph.virtual_servers in
    if recorded == "" && lone stack.virtual_servers then observed.virtual_server_id else recorded

abbrev pub current_listener_hash : ObservedState → VirtualServer → String
current_listener_hash observed vs = elim (lookup vs.name observed.graph.virtual_servers) [
  | none ↦ ""
  | some r ↦ r.desired_hash
]

-- What is recorded of a listener.
unfoldable pub record_listener :
    LoadBalancerStack → VirtualServer → String → String → String → ObservedState → ObservedState
record_listener stack vs id name hash observed =
    let g = observed.graph in
    let h = record g {
      virtual_servers =
          insert vs.name (observe vs.name id name "" hash vs.ownership) g.virtual_servers;
    } in
    if lone stack.virtual_servers
    then record observed { graph = h; virtual_server_id = id; virtual_server_name = name }
    else with_graph observed h
