-- ===== src/Deployer.antt =====
-- pkg/deploy/lbaas/deployer.go, EnsureStack: the managers in the order of their dependencies, and the
-- graph that is recorded on the way. Go's maps of the request's state are updated in place; the model
-- passes the state on. The result that a failed run drops is not modelled.
pub mod Saved
pub mod Recorded
use garden_extension_f5_loca.VirtualServers
use garden_extension_f5_loca.Certificates
use garden_extension_f5_loca.LbServices
use garden_extension_f5_loca.Vips
use garden_extension_f5_loca.Pools
use garden_extension_f5_loca.Monitors
use garden_extension_f5_loca.RoutingRules
use garden_extension_f5_loca.Prelude.{
  Bool, List, Option, String, [], false, if◌then◌else◌, int_eq, nat_eq, none, some, string_eq, true,
  ◌!=◌, ◌&&◌, ◌==◌, ◌||◌, ◌∷◌,
}
use garden_extension_f5_loca.Cleanup.{external_id_of}
use garden_extension_f5_loca.Dict.{insert, lookup}
use garden_extension_f5_loca.Exec.{
  Done, Provisioning, Result, attempt, err, errorf, if_given, is_provisioning_pending,
  is_terminal_provisioning, lift, ok, pure, raise, via, with_manager, ◌>>=◌, ◌>>◌,
}
use garden_extension_f5_loca.LbServices.{EnsureRequest}
use garden_extension_f5_loca.Listeners.{
  Place, Progress, current_listener_hash, current_listener_id, desired_rules, drop_keys, observe,
  owned_rule_ids, record_certificates, record_listener, record_monitor, record_pool, record_rules,
  with_graph,
}
use garden_extension_f5_loca.Model.{LoadBalancerStack, Pool, VirtualServer}
use garden_extension_f5_loca.Observed.{ObservedState, ensure_graph}
use garden_extension_f5_loca.Obsolete.{
  delete_obsolete_pools, delete_obsolete_virtual_servers, drop_migrated_legacy_aliases,
}
use garden_extension_f5_loca.Placement.{
  Deployer, StackEnsureRequest, StackRun, certificates, check_request, effective_network,
  is_missing, provider, save,
}
use garden_extension_f5_loca.Pools.{ensure_owned}
use garden_extension_f5_loca.Recovery.{Found, recover_virtual_servers_by_name}
use garden_extension_f5_loca.Stacks.{
  desired_virtual_server_hash, graph_virtual_server_name, pool_graph_key, pools_for_virtual_server,
  stack_backends, stack_pool,
}
use garden_extension_f5_loca.Text.{equal_fold, trim_space}
use garden_extension_f5_loca.Vips.{ensure}
use garden_extension_f5_loca.VirtualServers.{pool_member_specs, recorded}

abbrev any_of : {A : Type 0} → List A → Bool
any_of [] = false
any_of (_ ∷ _) = true

-- The first virtual server's place in the request of the LB service is not read by that manager.
abbrev pub lb_request : LoadBalancerStack → String → LbServices.EnsureRequest
lb_request stack network_id =
    let lb = stack.lb_service in
    record {
      lb_name = lb.name;
      lb_description = lb.description;
      flavor_id = lb.flavor_id;
      network_id = network_id;
      vpc_id = lb.vpc_id;
      vpc_name = lb.vpc_name;
      region = lb.region;
    }

-- What is recorded of the LB service.
abbrev pub record_lb : LoadBalancerStack → String → ObservedState → ObservedState
record_lb stack id observed =
    let lb = stack.lb_service in
    let g = observed.graph in
    record observed {
      lb_service_id = id;
      graph = record g {
        lb_services = insert lb.name (observe lb.name id lb.name "" "" lb.ownership) g.lb_services;
      };
    }

abbrev record_vip : LoadBalancerStack → String → String → ObservedState → ObservedState
record_vip stack id address observed =
    let vip = stack.vip in
    let g = observed.graph in
    record observed {
      vip_port_id = id;
      vip_address = address;
      graph = record g {
        vips = insert vip.name (observe vip.name id vip.name address "" vip.ownership) g.vips;
      };
    }

abbrev is_reported : Provisioning → Bool
is_reported t = t.resource_type == "LBService" && trim_space t.resource_id != ""

module _ {W : Type 0} (d : Deployer W) (req : StackEnsureRequest W) where
  -- An LB service that an error names is recorded and saved.
  unfoldable pub report : Option Provisioning → ObservedState → StackRun W ObservedState
  report none observed = pure observed
  report (some t) observed =
      let recorded = record_lb req.stack (trim_space t.resource_id) observed in
      if is_reported t then (do save d req recorded; pure recorded) else pure observed

  unfoldable pub settle_lb :
      ObservedState → Result (String × Bool) → StackRun W (ObservedState × Bool)
  settle_lb observed (err e) = do
    reported ← report (is_provisioning_pending e) observed
    report (is_terminal_provisioning e) reported
    raise e
  settle_lb observed (ok (id, changed)) = do
    let recorded = record_lb req.stack id observed
    save d req recorded
    pure (recorded, changed)

  unfoldable pub ensure_lb : String → ObservedState → StackRun W (ObservedState × Bool)
  ensure_lb network_id observed = do
    answer ← attempt (
        via provider (
          LbServices.ensure d.clients.client d.own_vpc (lb_request req.stack network_id)
            observed.lb_service_id req.strict_lb_service_id))
    settle_lb observed answer

  -- The recovered listeners are recorded with the hash of what is desired.
  unfoldable pub record_found : Found → List VirtualServer → ObservedState → ObservedState
  record_found found [] observed = observed
  record_found found (vs ∷ desired) observed =
      record_found found desired (elim (lookup vs.name found) [
        | none ↦ observed
        | some c ↦
            let g = observed.graph in
            let hash = desired_virtual_server_hash d.sha256_hex vs (stack_backends req.stack vs) in
            record observed {
              graph = record g {
                virtual_servers =
                    insert vs.name (observe vs.name c.id c.name "" hash vs.ownership)
                      g.virtual_servers;
              };
            }
      ])

  abbrev set_vip : String → String → ObservedState → ObservedState
  set_vip id address observed =
      if id != "" then record observed { vip_port_id = id; vip_address = address } else observed

  unfoldable pub recover_lost : String → ObservedState → StackRun W ObservedState
  recover_lost network_id observed =
      let vss = req.stack.virtual_servers in
      if req.recover_by_name && trim_space observed.vip_port_id == ""
      then (do
        (found, id, address) ←
            via provider (
              recover_virtual_servers_by_name d.clients.client observed.lb_service_id network_id
                vss)
        pure (set_vip id address (record_found found vss observed)))
      else pure observed

  unfoldable pub ensure_vip : String → ObservedState → StackRun W (ObservedState × Bool)
  ensure_vip network_id observed = do
    (id, address, changed) ← via provider (
        Vips.ensure d.clients.client observed.lb_service_id network_id observed.vip_port_id
          observed.vip_address req.strict_vip_port_id)
    pure (record_vip req.stack id address observed, changed)

  -- One round of the loop over the pools of a listener, with the ids of the pools so far.
  unfoldable pub ensure_pool :
      Place
      → VirtualServer
      → String
      → Pool
      → Progress × List (String × String)
      → StackRun W (Progress × List (String × String))
  ensure_pool place vs vs_id pool ((observed, changed), ids) = do
    let key = pool_graph_key vs pool
    specs ← via provider (VirtualServers.pool_member_specs d.clients.client d.own_vpc pool.members)
    (resource, pool_changed) ←
        with_manager "pool reconciliation requires a PoolManager" d.clients.pools λ client.
          via provider (
            Pools.ensure_owned client place.lb_id vs_id pool specs
              (pool.name == vs.default_pool_name) (external_id_of key observed.graph.pools))
    let g = record_pool vs pool resource observed.graph
    (h, monitor_changed) ← if_given d.clients.monitors (pure (g, false)) (λ client. do
      (monitor, touched) ←
          via provider (Monitors.ensure client place.lb_id vs_id resource.id pool.monitor)
      pure (record_monitor vs pool monitor g, touched))
    pure (
      (with_graph observed h, changed || (pool_changed || monitor_changed)),
      insert pool.name resource.id ids,
    )

  unfoldable pub ensure_pools :
      Place
      → VirtualServer
      → String
      → List Pool
      → Progress × List (String × String)
      → StackRun W (Progress × List (String × String))
  ensure_pools place vs vs_id [] s = pure s
  ensure_pools place vs vs_id (pool ∷ pools) s = do
    next ← ensure_pool place vs vs_id pool s
    ensure_pools place vs vs_id pools next

  -- The routing rules of a listener, where there is a manager for them.
  unfoldable pub ensure_rules :
      Place → VirtualServer → String → List (String × String) → Progress → StackRun W Progress
  ensure_rules place vs vs_id ids (observed, changed) =
      if_given d.clients.routing_rules (pure (observed, changed)) λ client. do
        let g = observed.graph
        desired ← lift (desired_rules vs.name ids req.stack.routing_rules)
        (rules, touched) ← via provider (
            RoutingRules.ensure_owned client place.lb_id vs_id desired
              (owned_rule_ids vs.name g.routing_rules))
        let kept = drop_keys (λ k. graph_virtual_server_name k == vs.name) g.routing_rules
        pure (
          with_graph observed (record g { routing_rules = record_rules vs rules kept }),
          changed || touched,
        )

  unfoldable pub ensure_certificates :
      Place → VirtualServer → String → Progress → StackRun W Progress
  ensure_certificates place vs vs_id (observed, changed) =
      let certs = req.stack.certificates in
      let g = observed.graph in
      if any_of certs && equal_fold vs.protocol "HTTPS"
      then (do
        (resources, touched) ←
            via certificates
              (Certificates.ensure d.certificate_client place.lb_id vs_id certs g.certificates)
        pure (
          with_graph observed (record g { certificates = record_certificates resources [] }),
          changed || touched,
        ))
      else pure (observed, changed)

  -- The pools and rules of a listener; an aggregate virtual server has none of its own.
  unfoldable pub ensure_children : Place → VirtualServer → String → Progress → StackRun W Progress
  ensure_children place vs vs_id s = if req.aggregate then pure s else do
    (next, ids) ← ensure_pools place vs vs_id (pools_for_virtual_server req.stack vs) (s, [])
    ensure_rules place vs vs_id ids next

  abbrev listener_request : Place → VirtualServer → ObservedState → VirtualServers.EnsureRequest
  listener_request place vs observed =
      let backends = stack_backends req.stack vs in
      record {
        lb_service_id = place.lb_id;
        vip_port_id = place.vip_id;
        network_id = place.network_id;
        region = req.stack.lb_service.region;
        desired = vs;
        backends = backends;
        current_id = current_listener_id req.stack observed vs;
        current_hash = current_listener_hash observed vs;
        desired_hash = desired_virtual_server_hash d.sha256_hex vs backends;
        recreate_when_hash_missing = true;
        recover_by_name = req.recover_by_name;
      }

  -- The default pool of an aggregate virtual server must be in the stack.
  unfoldable pub check_aggregate : VirtualServer → Result Done
  check_aggregate vs =
      if req.aggregate && is_missing (stack_pool vs.default_pool_name req.stack.pools)
      then err (
          errorf "virtual server %q has no aggregate default pool %q"
            (vs.name ∷ vs.default_pool_name ∷ []))
      else ok tt

  -- One round of the loop over the listeners.
  unfoldable pub ensure_listener : Place → VirtualServer → Progress → StackRun W Progress
  ensure_listener place vs (observed, changed) = do
    let r = listener_request place vs observed
    lift (check_aggregate vs)
    (id, name, touched) ← via provider (VirtualServers.ensure d.clients.client d.own_vpc r)
    let recorded = record_listener req.stack vs id name r.desired_hash observed
    next ← ensure_certificates place vs id (recorded, changed || touched)
    ensure_children place vs id next

  unfoldable pub ensure_listeners : Place → List VirtualServer → Progress → StackRun W Progress
  ensure_listeners place [] s = pure s
  ensure_listeners place (vs ∷ vss) s = do
    next ← ensure_listener place vs s
    ensure_listeners place vss next

  -- The end of EnsureStack: what the stack does not want any more goes.
  unfoldable pub remove_obsolete : String → Progress → StackRun W Progress
  remove_obsolete lb_id (observed, changed) = do
    let g = drop_migrated_legacy_aliases observed.graph
    s ←
        (if req.aggregate
          then pure (g, changed)
          else via provider (delete_obsolete_pools d.clients lb_id req.stack (g, changed)))
    (h, touched) ← via provider (delete_obsolete_virtual_servers d.clients lb_id req.stack s)
    pure (with_graph observed h, touched)

  -- The steps below the LB service.
  unfoldable pub ensure_below : String → Progress → StackRun W Progress
  ensure_below network_id (observed, lb_changed) = do
    recovered ← recover_lost network_id observed
    (placed, vip_changed) ← ensure_vip network_id recovered
    let place : Place = record {
      lb_id = observed.lb_service_id;
      vip_id = placed.vip_port_id;
      network_id = network_id;
    }
    next ← ensure_listeners place req.stack.virtual_servers (placed, lb_changed || vip_changed)
    remove_obsolete observed.lb_service_id next

  -- EnsureStack: the state that is recorded, and whether something changed.
  unfoldable pub ensure_stack : StackRun W Progress
  ensure_stack = do
    let observed = ensure_graph req.current
    lift (check_request d req)
    network_id ← effective_network d req observed
    next ← ensure_lb network_id observed
    ensure_below network_id next
