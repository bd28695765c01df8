-- ===== src/Cleanup.antt =====
-- pkg/deploy/lbaas/cleanup.go: the deletion of what a stack recorded. The result that Go returns beside
-- an error is dropped, since no caller reads it.
pub mod Recorded
pub mod Parent
pub mod Gone
use garden_extension_f5_loca.Pools
use garden_extension_f5_loca.Monitors
use garden_extension_f5_loca.RoutingRules
use garden_extension_f5_loca.Prelude.{
  Bool, List, Option, String, [], if◌then◌else◌, int_eq, nat_eq, none, some, string_eq, ◌!=◌, ◌++◌,
  ◌==◌, ◌||◌, ◌∷◌,
}
use garden_extension_f5_loca.Prelude.{false, not, true, ◌&&◌}
use garden_extension_f5_loca.Cmp.{deleted_virtual_server, deleted_vip, deleted_lb_service}
use garden_extension_f5_loca.Cmp.{
  Client, Cmp, MonitorClient, PoolClient, RoutingRuleClient, deleted_pool_member, got_lb_service,
  got_virtual_server,
}
use garden_extension_f5_loca.Dict.{contains, lookup}
use garden_extension_f5_loca.Exec.{
  Done, Provisioning, Result, attempt, call, err, errorf, is_not_found, lift, ok, pending, pure,
  raise, unless_missing, with_manager, wrapf, ◌>>=◌, ◌>>◌,
}
use garden_extension_f5_loca.LbServices.{get_lb_service}
use garden_extension_f5_loca.Observed.{
  Bucket, ObservedGraph, ObservedResource, ObservedState, ensure_graph,
}
use garden_extension_f5_loca.Text.{trim_space}
use garden_extension_f5_loca.Text.Cut.{cut}
use garden_extension_f5_loca.Text.Join.{join}
use garden_extension_f5_loca.Text.Order.{before}

pub record CleanupRequest : Type 0 where
  pub current : ObservedState
  pub delete_vip : Bool
  pub delete_lb_service : Bool
  pub aggregate_virtual_servers : Bool

pub record CleanupResult : Type 0 where
  pub deleted_virtual_server : Bool
  pub deleted_vip : Bool
  pub deleted_lb_service : Bool

abbrev add_id : String → List String → List String
add_id id ids = if id == "" || contains id ids then ids else id ∷ ids

-- The ids of the parent that the bucket records, each once.
unfoldable pub parent_ids : Bucket → List String → List String
parent_ids [] ids = ids
parent_ids ((key, r) ∷ bucket) ids = parent_ids bucket (add_id (trim_space r.external_id) ids)

the_only : List String → Result String
the_only [] = ok ""
the_only (id ∷ []) = ok id
the_only (_ ∷ _) =
    err (errorf "observed graph contains multiple LB service IDs; refusing ambiguous cleanup" [])

-- cleanupLBServiceID
unfoldable pub cleanup_lb_service_id : ObservedState → Result String
unfolding the_only
cleanup_lb_service_id current =
    the_only (parent_ids current.graph.lb_services (add_id (trim_space current.lb_service_id) []))

-- sort.Strings on the keys
unfoldable pub insert_sorted : String → ObservedResource → Bucket → Bucket
insert_sorted key r [] = (key, r) ∷ []
insert_sorted key r ((k, s) ∷ bucket) =
    let rest = insert_sorted key r bucket in
    if before k key then (k, s) ∷ rest else (key, r) ∷ (k, s) ∷ bucket

unfoldable pub sort_keys : Bucket → Bucket
sort_keys [] = []
sort_keys ((key, r) ∷ bucket) = insert_sorted key r (sort_keys bucket)

unfoldable pub with_id : Bucket → List ObservedResource
with_id [] = []
with_id ((key, r) ∷ bucket) =
    let rest = with_id bucket in if r.external_id != "" then r ∷ rest else rest

-- sortedResources
unfoldable pub sorted_resources : Bucket → List ObservedResource
sorted_resources bucket = with_id (sort_keys bucket)

abbrev pub external_id_of : String → Bucket → String
external_id_of key bucket = elim (lookup key bucket) [ none ↦ "" | some r ↦ r.external_id ]

-- virtualServerIDForGraphKey
unfoldable pub virtual_server_id_for_graph_key : ObservedGraph → String → String
virtual_server_id_for_graph_key graph key = external_id_of (cut key).0 graph.virtual_servers

-- poolParentIDsForGraphKey
unfoldable pub pool_parent_ids_for_graph_key : ObservedGraph → String → String × String
pool_parent_ids_for_graph_key graph key =
    let (first, rest) = cut key in
    elim rest [
      | none ↦ ("", "")
      | some s ↦ (
        external_id_of first graph.virtual_servers,
        external_id_of (join "/" (first ∷ (cut s).0 ∷ [])) graph.pools,
      )
    ]

module _ {W A : Type 0} where
  -- One call after another, up to the first error.
  unfoldable pub each : (A → Cmp W Done) → List A → Cmp W Done
  each f [] = pure tt
  each f (a ∷ rest) = do f a; each f rest

abbrev deleting : String → String → Provisioning
deleting kind id = record {
  resource_type = kind;
  resource_id = id;
  status = "deleting";
  detail = "waiting for CMP deletion";
}

-- The read after a deletion: only a 404 lets the run go on.
gone : {A : Type 0} → String → String → String → Result A → Result Done
gone kind format id (ok _) = err (pending (deleting kind id))
gone kind format id (err e) = if is_not_found e then ok tt else err (wrapf format (id ∷ []) e)

-- The deployer's clients; pools, monitors and routing rules may have no manager.
pub record Clients (W : Type 0) : Type 0 where
  pub client : Client W
  pub pools : Option (PoolClient W)
  pub monitors : Option (MonitorClient W)
  pub routing_rules : Option (RoutingRuleClient W)

abbrev not_empty : List ObservedResource → Bool
not_empty [] = false
not_empty (_ ∷ _) = true

module _ {W : Type 0} (d : Clients W) (graph : ObservedGraph) (lb_id : String) where
  unfoldable pub delete_rule : ObservedResource → Cmp W Done
  unfolding with_manager
  delete_rule rule =
      with_manager "routing-rule cleanup requires a RoutingRuleManager" d.routing_rules λ client.
        unless_missing (wrapf "deleting routing rule %s" (rule.external_id ∷ [])) (
          RoutingRules.cleanup client lb_id (virtual_server_id_for_graph_key graph rule.logical_id)
            rule.external_id)

  unfoldable pub delete_member : ObservedResource → Cmp W Done
  unfolding with_manager
  delete_member member =
      let (vs_id, pool_id) = pool_parent_ids_for_graph_key graph member.logical_id in
      let id = member.external_id in
      with_manager "member cleanup requires a PoolManager" d.pools λ client.
        unless_missing (wrapf "deleting pool member %s" (id ∷ [])) (
          call (client.delete_pool_member lb_id vs_id pool_id id)
            (deleted_pool_member lb_id vs_id pool_id id))

  unfoldable pub delete_monitor : ObservedResource → Cmp W Done
  unfolding with_manager
  delete_monitor monitor =
      let (vs_id, pool_id) = pool_parent_ids_for_graph_key graph monitor.logical_id in
      with_manager "monitor cleanup requires a MonitorManager" d.monitors λ client.
        unless_missing (wrapf "deleting monitor %s" (monitor.external_id ∷ []))
          (Monitors.cleanup client lb_id vs_id pool_id monitor.external_id)

  unfoldable pub delete_pool : ObservedResource → Cmp W Done
  unfolding with_manager
  delete_pool pool = with_manager "pool cleanup requires a PoolManager" d.pools λ client.
      unless_missing (wrapf "deleting pool %s" (pool.external_id ∷ [])) (
        Pools.cleanup client lb_id (virtual_server_id_for_graph_key graph pool.logical_id)
          pool.external_id)

  unfoldable pub delete_virtual_server : ObservedResource → Cmp W Done
  unfolding gone
  delete_virtual_server vs = do
    let id = vs.external_id
    unless_missing (wrapf "deleting virtual server %s" (id ∷ []))
        (call (d.client.delete_virtual_server lb_id id) (deleted_virtual_server lb_id id))
    answer ← attempt (call (d.client.get_virtual_server lb_id id) (got_virtual_server lb_id id))
    lift (gone "VirtualServer" "checking deleted virtual server %s" id answer)

  unfoldable pub delete_vip : ObservedResource → Cmp W Done
  delete_vip vip =
      let id = vip.external_id in
      unless_missing (wrapf "deleting VIP %s" (id ∷ []))
        (call (d.client.delete_vip lb_id id) (deleted_vip lb_id id))

  unfoldable pub delete_lb_service : Cmp W Done
  unfolding gone
  delete_lb_service = do
    unless_missing (wrapf "deleting LB service %s" (lb_id ∷ []))
        (call (d.client.delete_lb_service lb_id) (deleted_lb_service lb_id))
    answer ← attempt (call (d.client.get_lb_service lb_id) (got_lb_service lb_id))
    lift (gone "LBService" "checking deleted LB service %s" lb_id answer)

  abbrev when : Bool → Cmp W Done → Cmp W Done
  when b m = if b then m else pure tt

  -- The children below the virtual servers, in the order of their dependencies.
  unfoldable pub delete_children : Cmp W Done
  delete_children = do
    each delete_rule (sorted_resources graph.routing_rules)
    each delete_member (sorted_resources graph.members)
    each delete_monitor (sorted_resources graph.monitors)
    each delete_pool (sorted_resources graph.pools)

  unfoldable pub delete_all : CleanupRequest → Cmp W CleanupResult
  delete_all req = do
    let vss = sorted_resources graph.virtual_servers
    let vips = sorted_resources graph.vips
    when (not req.aggregate_virtual_servers) delete_children
    each delete_virtual_server vss
    when req.delete_vip (each delete_vip vips)
    when req.delete_lb_service delete_lb_service
    pure (record {
      deleted_virtual_server = not_empty vss;
      deleted_vip = req.delete_vip && not_empty vips;
      deleted_lb_service = req.delete_lb_service;
    })

abbrev pub nothing_deleted : CleanupResult
nothing_deleted = record {
  deleted_virtual_server = false;
  deleted_vip = false;
  deleted_lb_service = false;
}

-- CleanupStack
unfoldable pub cleanup_stack : {W : Type 0} → Clients W → CleanupRequest → Cmp W CleanupResult
cleanup_stack d req = do
  let current = ensure_graph req.current
  lb_id ← lift (cleanup_lb_service_id current)
  if lb_id == "" then pure nothing_deleted else delete_all d current.graph lb_id req

-- Cleanup, for the scalar ids of older records.
unfoldable pub cleanup : {W : Type 0} → Client W → CleanupRequest → Cmp W CleanupResult
cleanup client req =
    let current = req.current in
    let lb = current.lb_service_id in
    let vs = current.virtual_server_id in
    let vip = current.vip_port_id in
    let vip_wanted = req.delete_vip && vip != "" in
    let delete_vs =
      unless_missing (wrapf "deleting virtual server %s on LB %s" (vs ∷ lb ∷ []))
        (call (client.delete_virtual_server lb vs) (deleted_virtual_server lb vs)) in
    let delete_the_vip =
      unless_missing (wrapf "deleting VIP %s on LB %s" (vip ∷ lb ∷ []))
        (call (client.delete_vip lb vip) (deleted_vip lb vip)) in
    let delete_lb =
      unless_missing (wrapf "deleting LB service %s" (lb ∷ []))
        (call (client.delete_lb_service lb) (deleted_lb_service lb)) in
    if lb == "" then pure nothing_deleted else do
      if vs != "" then delete_vs else pure tt
      if vip_wanted then delete_the_vip else pure tt
      if req.delete_lb_service then delete_lb else pure tt
      pure (record {
        deleted_virtual_server = vs != "";
        deleted_vip = vip_wanted;
        deleted_lb_service = req.delete_lb_service;
      })
