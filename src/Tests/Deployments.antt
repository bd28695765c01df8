-- ===== src/Tests/Deployments.antt =====
-- Examples of EnsureStack: an aggregate stack of one listener.
use garden_extension_f5_loca.Prelude.{All, [], false, none, pos, refl, some, true, ℕ, ◌+◌, ◌∷◌}
use garden_extension_f5_loca.Deployer.{
  check_aggregate, ensure_below, ensure_certificates, ensure_children, ensure_lb, ensure_listener,
  ensure_listeners, ensure_stack, ensure_vip, recover_lost, remove_obsolete, settle_lb,
}
use garden_extension_f5_loca.Deployer.Recorded.{Holds, ensure_stack-Recorded}
use garden_extension_f5_loca.Deployer.Saved.{SavedFirst, ensure_stack-SavedFirst}
use garden_extension_f5_loca.Dict.{contains, delete, insert, lookup}
use garden_extension_f5_loca.Exec.{Done, Exec, Result, ok, ◌>>=◌}
use garden_extension_f5_loca.LbServices.{
  is_failed_status, is_ready_status, validate_placement, validate_readiness,
}
use garden_extension_f5_loca.Listeners.{observe, record_listener}
use garden_extension_f5_loca.Model.{Pool}
use garden_extension_f5_loca.Observed.{ObservedResource, ObservedState, ensure_graph, mirror}
use garden_extension_f5_loca.Obsolete.{
  delete_obsolete_virtual_servers, desired_listeners, drop_alias, drop_migrated_legacy_aliases,
  each_entry, is_elsewhere, remove_obsolete_listener,
}
use garden_extension_f5_loca.Placement.{
  Deployer, StackEnsureRequest, check_request, effective_network, save,
}
use garden_extension_f5_loca.Stacks.{desired_virtual_server_hash, stack_backends}
use garden_extension_f5_loca.Tests.Cleanups.{clients_a, recorded_resource, stack_graph, stack_state}
use garden_extension_f5_loca.Tests.Listeners.{desired_a}
use garden_extension_f5_loca.Tests.Stacks.{web_stack}
use garden_extension_f5_loca.Text.{equal_fold, trim_space}
use garden_extension_f5_loca.Vips.{ensure, find_vip, validate_vip}
use garden_extension_f5_loca.VirtualServers.{
  check_frontend, is_listed, keep_or_replace, may_conflict, recorded, validate_virtual_server,
  validated,
}

abbrev pool_web : Pool
pool_web = record {
  name = "web-pool";
  service = "web";
  port_name = "http";
  port = pos 30080;
  members = [];
  monitor = none;
  ownership = desired_a.ownership;
}

abbrev deployer_a : Deployer ℕ
deployer_a = record {
  clients = clients_a;
  networks = none;
  certificate_client = none;
  own_vpc = "vpc-1";
  sha256_hex = λ s. "digest";
}

-- The listener of the stack, whose hash did not change.
abbrev listener_entry : ObservedResource
listener_entry = record (recorded_resource "web" "vs-1") { desired_hash = "digest" }

abbrev hook_a : ObservedState → ℕ → Result Done × ℕ
hook_a observed n = (ok tt, n + 1)

abbrev ensure_request : StackEnsureRequest ℕ
ensure_request = record {
  stack = record web_stack { pools = pool_web ∷ [] };
  current = record stack_state {
    graph = record stack_graph { virtual_servers = ("web", listener_entry) ∷ [] };
    lb_service_id = "lb-1";
    vip_port_id = "vip-1";
  };
  strict_lb_service_id = false;
  strict_vip_port_id = false;
  recover_by_name = true;
  lb_ready_hook = some hook_a;
  network_id_explicit = false;
  aggregate = true;
}

ensure_stack-SavedFirst_example : SavedFirst "edge" (ensure_stack deployer_a ensure_request 0).trace
ensure_stack-SavedFirst_example = ensure_stack-SavedFirst deployer_a ensure_request hook_a 0 refl

-- The state after the run: the service is recorded under the name that the stack gives it as well.
abbrev ensured : ObservedState
ensured = record {
  graph = record stack_graph {
    lb_services =
        ("lb", recorded_resource "lb" "lb-1")
        ∷ ("edge", observe "edge" "lb-1" "edge" "" "" desired_a.ownership)
        ∷ [];
    vips = ("vip", observe "vip" "vip-1" "vip" "10.0.0.7" "" desired_a.ownership) ∷ [];
    virtual_servers = ("web", observe "web" "vs-1" "web" "" "digest" desired_a.ownership) ∷ [];
  };
  lb_service_id = "lb-1";
  vip_port_id = "vip-1";
  vip_address = "10.0.0.7";
  virtual_server_id = "vs-1";
  virtual_server_name = "web";
}

ensure_stack-Recorded_example :
    All
      (Holds deployer_a.sha256_hex ensure_request.stack ensured.graph.virtual_servers)
      ensure_request.stack.virtual_servers
unfolding ensure_stack garden_extension_f5_loca.Exec.◌>>=◌
    garden_extension_f5_loca.Observed.ensure_graph garden_extension_f5_loca.Observed.mirror
    garden_extension_f5_loca.Dict.insert garden_extension_f5_loca.Dict.lookup
    garden_extension_f5_loca.Placement.check_request
    garden_extension_f5_loca.Placement.effective_network garden_extension_f5_loca.Placement.save
    garden_extension_f5_loca.Deployer.ensure_lb garden_extension_f5_loca.Deployer.settle_lb
    garden_extension_f5_loca.LbServices.ensure
    garden_extension_f5_loca.LbServices.validate_readiness
    garden_extension_f5_loca.LbServices.is_failed_status
    garden_extension_f5_loca.LbServices.is_ready_status
    garden_extension_f5_loca.LbServices.validate_placement garden_extension_f5_loca.Text.equal_fold
    garden_extension_f5_loca.Text.trim_space garden_extension_f5_loca.Deployer.ensure_below
    garden_extension_f5_loca.Deployer.recover_lost garden_extension_f5_loca.Deployer.ensure_vip
    garden_extension_f5_loca.Vips.ensure garden_extension_f5_loca.Vips.find_vip
    garden_extension_f5_loca.Vips.validate_vip garden_extension_f5_loca.Deployer.ensure_listeners
    garden_extension_f5_loca.Deployer.ensure_listener
    garden_extension_f5_loca.Deployer.check_aggregate garden_extension_f5_loca.VirtualServers.ensure
    garden_extension_f5_loca.VirtualServers.check_frontend
    garden_extension_f5_loca.VirtualServers.may_conflict
    garden_extension_f5_loca.VirtualServers.recorded
    garden_extension_f5_loca.VirtualServers.is_listed
    garden_extension_f5_loca.VirtualServers.validated
    garden_extension_f5_loca.VirtualServers.validate_virtual_server
    garden_extension_f5_loca.VirtualServers.keep_or_replace
    garden_extension_f5_loca.Listeners.record_listener
    garden_extension_f5_loca.Deployer.ensure_certificates
    garden_extension_f5_loca.Deployer.ensure_children
    garden_extension_f5_loca.Deployer.remove_obsolete
    garden_extension_f5_loca.Obsolete.drop_migrated_legacy_aliases
    garden_extension_f5_loca.Obsolete.drop_alias garden_extension_f5_loca.Obsolete.is_elsewhere
    garden_extension_f5_loca.Obsolete.delete_obsolete_virtual_servers
    garden_extension_f5_loca.Obsolete.each_entry
    garden_extension_f5_loca.Obsolete.remove_obsolete_listener
    garden_extension_f5_loca.Obsolete.desired_listeners garden_extension_f5_loca.Dict.contains
    garden_extension_f5_loca.Dict.delete garden_extension_f5_loca.Stacks.desired_virtual_server_hash
    garden_extension_f5_loca.Stacks.stack_backends
ensure_stack-Recorded_example =
    ensure_stack-Recorded deployer_a ensure_request 0 ensured true (refl, tt) refl refl
