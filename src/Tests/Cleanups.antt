-- ===== src/Tests/Cleanups.antt =====
-- Examples of the cleanup of a recorded stack.
use garden_extension_f5_loca.Prelude.{All, String, [], false, none, refl, true, ℕ, ◌∷◌, ◌≡◌, ◌⊎◌}
use garden_extension_f5_loca.Cleanup.{
  CleanupRequest, Clients, cleanup_lb_service_id, cleanup_stack, parent_ids, sorted_resources,
}
use garden_extension_f5_loca.Cleanup.Gone.{IsGone, cleanup_stack-IsGone}
use garden_extension_f5_loca.Cleanup.Parent.{AllEntries, cleanup_lb_service_id-only}
use garden_extension_f5_loca.Cleanup.Recorded.{Permits, cleanup_stack-Permits, parent_of}
use garden_extension_f5_loca.Dict.{contains}
use garden_extension_f5_loca.Model.{ownership_for}
use garden_extension_f5_loca.Observed.{
  ObservedGraph, ObservedResource, ObservedState, ensure_graph, new_observed_graph,
}
use garden_extension_f5_loca.Tests.{client_a, differ}
use garden_extension_f5_loca.Text.{trim_space}

abbrev pub recorded_resource : String → String → ObservedResource
recorded_resource key id = record {
  logical_id = key;
  external_id = id;
  name = "";
  address = "";
  desired_hash = "";
  ownership =
      ownership_for (record { kind = "Service"; namespace = "ns"; name = "web"; uid = "u" })
        "cluster" "" "";
}

abbrev pub stack_graph : ObservedGraph
stack_graph = record new_observed_graph {
  lb_services = ("lb", recorded_resource "lb" "lb-1") ∷ [];
  virtual_servers = ("web", recorded_resource "web" "vs-1") ∷ [];
  vips = ("vip", recorded_resource "vip" "vip-1") ∷ [];
}

abbrev pub stack_state : ObservedState
stack_state = record {
  graph = stack_graph;
  lb_service_id = " lb-1 ";
  vip_port_id = "";
  vip_address = "";
  virtual_server_id = "";
  virtual_server_name = "";
}

abbrev stack_request : CleanupRequest
stack_request = record {
  current = stack_state;
  delete_vip = true;
  delete_lb_service = false;
  aggregate_virtual_servers = true;
}

abbrev pub clients_a : Clients ℕ
clients_a = record { client = client_a; pools = none; monitors = none; routing_rules = none }

cleanup_stack-Permits_example :
    All
      (Permits stack_request
        (ensure_graph stack_state).graph
        (parent_of (cleanup_lb_service_id (ensure_graph stack_state))))
      (cleanup_stack clients_a stack_request 0).trace
cleanup_stack-Permits_example = cleanup_stack-Permits clients_a stack_request 0

cleanup_lb_service_id-only_example :
    ((trim_space stack_state.lb_service_id ≡ "") ⊎ (trim_space stack_state.lb_service_id ≡ "lb-1"))
    × AllEntries (λ x. (x ≡ "") ⊎ (x ≡ "lb-1")) stack_state.graph.lb_services
unfolding cleanup_lb_service_id garden_extension_f5_loca.Cleanup.parent_ids trim_space
    garden_extension_f5_loca.Dict.contains
cleanup_lb_service_id-only_example = cleanup_lb_service_id-only stack_state "lb-1" refl

-- A listener that CMP no longer has.
abbrev gone_request : CleanupRequest
gone_request = record stack_request {
  current = record stack_state {
    graph = record stack_graph { virtual_servers = ("web", recorded_resource "web" "vs-7") ∷ [] };
  };
  delete_vip = false;
}

cleanup_stack-IsGone_example : IsGone "lb-1" "vs-7" (cleanup_stack clients_a gone_request 0).trace
unfolding cleanup_lb_service_id parent_ids ensure_graph garden_extension_f5_loca.Observed.mirror
    garden_extension_f5_loca.Dict.lookup garden_extension_f5_loca.Dict.insert trim_space contains
    cleanup_stack garden_extension_f5_loca.Exec.◌>>=◌ garden_extension_f5_loca.Cleanup.delete_all
    garden_extension_f5_loca.Cleanup.each sorted_resources garden_extension_f5_loca.Cleanup.with_id
    garden_extension_f5_loca.Cleanup.sort_keys garden_extension_f5_loca.Cleanup.insert_sorted
    garden_extension_f5_loca.Cleanup.delete_virtual_server
    garden_extension_f5_loca.Exec.is_not_found
cleanup_stack-IsGone_example =
    cleanup_stack-IsGone clients_a gone_request 0 "lb-1"
      (record { deleted_virtual_server = true; deleted_vip = false; deleted_lb_service = false })
      refl (differ "lb-1" "" refl) refl "web" (recorded_resource "web" "vs-7") refl
      (differ "vs-7" "" refl)
