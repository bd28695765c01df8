-- ===== src/Obsolete.antt =====
-- pkg/deploy/lbaas/deployer.go: what a reconcile removes from the observed graph: the aliases of
-- migrated scalar ids, and the pools and listeners that the stack no longer wants. A Go map that is
-- ranged over while entries are deleted is a fold over the entries of its start, which is the same
-- here since each round deletes its own entry only.
pub mod Aliases
pub mod Within
pub mod PoolCalls
pub mod ListenerCalls
pub mod Swept
use garden_extension_f5_loca.Pools
use garden_extension_f5_loca.Monitors
use garden_extension_f5_loca.RoutingRules
use garden_extension_f5_loca.Prelude.{
  Bool, List, String, [], false, if◌then◌else◌, int_eq, nat_eq, none, some, string_eq, true, ◌!=◌,
  ◌&&◌, ◌++◌, ◌==◌, ◌||◌, ◌∷◌,
}
use garden_extension_f5_loca.Cleanup.{
  Clients, delete_virtual_server, virtual_server_id_for_graph_key,
}
use garden_extension_f5_loca.Cmp.{Cmp, PoolClient, deleted_pool_member, deleted_virtual_server}
use garden_extension_f5_loca.Dict.{contains, delete, lookup}
use garden_extension_f5_loca.Exec.{
  Error, call, errorf, pure, raise, with_manager, wrapf, wrapping, ◌>>=◌, ◌>>◌,
}
use garden_extension_f5_loca.Members.{member_key}
use garden_extension_f5_loca.Model.{LoadBalancerStack, Pool, VirtualServer}
use garden_extension_f5_loca.Observed.{Bucket, ObservedGraph, ObservedResource}
use garden_extension_f5_loca.Pools.{cleanup}
use garden_extension_f5_loca.Stacks.{
  graph_pool_key, graph_virtual_server_name, pool_graph_key, pools_for_virtual_server,
}

-- Some other entry has the id.
unfoldable pub is_elsewhere : String → String → Bucket → Bool
is_elsewhere legacy id [] = false
is_elsewhere legacy id ((key, r) ∷ bucket) =
    (key != legacy && r.external_id == id) || is_elsewhere legacy id bucket

-- The closure `drop` of dropMigratedLegacyAliases.
unfoldable pub drop_alias : String → Bucket → Bucket
drop_alias legacy bucket = elim (lookup legacy bucket) [
  | none ↦ bucket
  | some r ↦
      if r.external_id == ""
      then bucket
      else if is_elsewhere legacy r.external_id bucket
      then delete legacy bucket
      else bucket
]

-- dropMigratedLegacyAliases
unfoldable pub drop_migrated_legacy_aliases : ObservedGraph → ObservedGraph
drop_migrated_legacy_aliases g = record g {
  lb_services = drop_alias "legacy/lb-service" g.lb_services;
  vips = drop_alias "legacy/vip" g.vips;
  virtual_servers = drop_alias "legacy/virtual-server" g.virtual_servers;
}

abbrev pub GraphStep : Type 0 → Type 0
GraphStep W = ObservedGraph × Bool → Cmp W (ObservedGraph × Bool)

-- The loop over the entries of a map, with the graph and whether something changed.
unfoldable pub each_entry :
    {W : Type 0} → (String → ObservedResource → GraphStep W) → Bucket → GraphStep W
each_entry f [] s = pure s
each_entry f ((key, r) ∷ bucket) s = do next ← f key r s; each_entry f bucket next

-- The keys of the desired pools.
unfoldable pub pool_keys : VirtualServer → List Pool → List String
pool_keys vs [] = []
pool_keys vs (pool ∷ pools) = pool_graph_key vs pool ∷ pool_keys vs pools

unfoldable pub desired_pools : LoadBalancerStack → List VirtualServer → List String
desired_pools stack [] = []
desired_pools stack (vs ∷ vss) =
    pool_keys vs (pools_for_virtual_server stack vs) ++ desired_pools stack vss

unfoldable pub desired_listeners : List VirtualServer → List String
desired_listeners [] = []
desired_listeners (vs ∷ vss) = vs.name ∷ desired_listeners vss

-- How the two loops differ: whether entries without an id are skipped, and how errors are wrapped.
pub record Removal : Type 0 where
  pub skips_unset : Bool
  pub member_failed : String → Error → Error
  pub monitor_failed : String → Error → Error
  pub pool_failed : String → Error → Error

abbrev pub obsolete_pool : Removal
obsolete_pool = record {
  skips_unset = true;
  member_failed = λ id. wrapf "deleting obsolete pool member %s" (id ∷ []);
  monitor_failed = λ id. wrapf "deleting obsolete pool monitor %s" (id ∷ []);
  pool_failed = λ id. wrapf "deleting obsolete pool %s" (id ∷ []);
}

abbrev pub obsolete_listener : Removal
obsolete_listener = record {
  skips_unset = false;
  member_failed = λ id e. e;
  monitor_failed = λ id e. e;
  pool_failed = λ id e. e;
}

abbrev is_skipped : Removal → ObservedResource → Bool
is_skipped how r = how.skips_unset && r.external_id == ""

module _ {W : Type 0} (d : Clients W) (lb_id : String) where
  module _ (how : Removal) (pools : PoolClient W) (vs_id key pool_id : String) where
    -- One round of the loop over the members.
    unfoldable pub remove_member : String → ObservedResource → GraphStep W
    remove_member member_key member (g, changed) =
        let id = member.external_id in
        if graph_pool_key member_key != key || is_skipped how member then pure (g, changed) else do
          wrapping (how.member_failed id) (
              call (pools.delete_pool_member lb_id vs_id pool_id id)
                (deleted_pool_member lb_id vs_id pool_id id))
          pure (record g { members = delete member_key g.members }, true)

    -- One round of the loop over the monitors.
    unfoldable pub remove_monitor : String → ObservedResource → GraphStep W
    unfolding with_manager
    remove_monitor monitor_key monitor (g, changed) =
        let id = monitor.external_id in
        if monitor_key != key || is_skipped how monitor
        then pure (g, changed)
        else with_manager "monitor cleanup requires a MonitorManager" d.monitors λ client. do
          wrapping (how.monitor_failed id) (Monitors.cleanup client lb_id vs_id pool_id id)
          pure (record g { monitors = delete monitor_key g.monitors }, true)

    -- A pool goes after its members and its monitor.
    unfoldable pub remove_pool : GraphStep W
    remove_pool s = do
      (g, changed) ← each_entry remove_member s.0.members s
      (h, _) ← each_entry remove_monitor g.monitors (g, changed)
      wrapping (how.pool_failed pool_id) (Pools.cleanup pools lb_id vs_id pool_id)
      pure (record h { pools = delete key h.pools }, true)

  -- One round of deleteObsoletePools.
  unfoldable pub remove_obsolete_pool : List String → String → ObservedResource → GraphStep W
  unfolding with_manager
  remove_obsolete_pool desired key pool (g, changed) =
      let vs_id = virtual_server_id_for_graph_key g key in
      if contains key desired || pool.external_id == ""
      then pure (g, changed)
      else if vs_id == ""
      then raise (errorf "obsolete pool %q has no recorded virtual-server parent" (key ∷ []))
      else with_manager "pool cleanup requires a PoolManager" d.pools
          λ pools. remove_pool obsolete_pool pools vs_id key pool.external_id (g, changed)

  -- deleteObsoletePools
  unfoldable pub delete_obsolete_pools : LoadBalancerStack → GraphStep W
  delete_obsolete_pools stack s =
      each_entry (remove_obsolete_pool (desired_pools stack stack.virtual_servers)) s.0.pools s

  -- The rules of a listener.
  unfoldable pub remove_listener_rule : String → String → String → ObservedResource → GraphStep W
  unfolding with_manager
  remove_listener_rule name vs_id key rule (g, changed) =
      if graph_virtual_server_name key != name
      then pure (g, changed)
      else with_manager "routing-rule cleanup requires a RoutingRuleManager" d.routing_rules
          λ client. do
            RoutingRules.cleanup client lb_id vs_id rule.external_id
            pure (record g { routing_rules = delete key g.routing_rules }, true)

  -- The pools of a listener.
  unfoldable pub remove_listener_pool : String → String → String → ObservedResource → GraphStep W
  unfolding with_manager
  remove_listener_pool name vs_id key pool (g, changed) =
      if graph_virtual_server_name key != name
      then pure (g, changed)
      else with_manager "pool cleanup requires a PoolManager" d.pools
          λ pools. remove_pool obsolete_listener pools vs_id key pool.external_id (g, changed)

  unfoldable pub remove_listener : String → String → GraphStep W
  remove_listener name vs_id s = do
    (g, changed) ← each_entry (remove_listener_rule name vs_id) s.0.routing_rules s
    (h, _) ← each_entry (remove_listener_pool name vs_id) g.pools (g, changed)
    call (d.client.delete_virtual_server lb_id vs_id) (deleted_virtual_server lb_id vs_id)
    pure (record h { virtual_servers = delete name h.virtual_servers }, true)

  -- One round of deleteObsoleteVirtualServers.
  unfoldable pub remove_obsolete_listener : List String → String → ObservedResource → GraphStep W
  remove_obsolete_listener desired name r s =
      if contains name desired || r.external_id == ""
      then pure s
      else remove_listener name r.external_id s

  -- deleteObsoleteVirtualServers
  unfoldable pub delete_obsolete_virtual_servers : LoadBalancerStack → GraphStep W
  delete_obsolete_virtual_servers stack s =
      each_entry (remove_obsolete_listener (desired_listeners stack.virtual_servers))
        s.0.virtual_servers s
