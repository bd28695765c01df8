-- ===== src/Tests/Stacks.antt =====
-- Examples of what the deployer computes, recovers and removes.
use garden_extension_f5_loca.Model
use mathlib.Core.List.Perm
use garden_extension_f5_loca.Prelude.{
  All, List, String, [], false, none, pos, refl, some, true, ℕ, ◌↔◌, ◌∷◌, ◌≡◌, ◌≢◌,
}
use garden_extension_f5_loca.Cleanup.{Clients}
use garden_extension_f5_loca.Cleanup.Recorded.{IsIn}
use garden_extension_f5_loca.Dict.{contains, lookup}
use garden_extension_f5_loca.Exec.Ensures.{Ensures}
use garden_extension_f5_loca.Model.{BackendMember, LoadBalancerStack, ownership_for}
use garden_extension_f5_loca.Observed.{ObservedGraph, ObservedResource}
use garden_extension_f5_loca.Obsolete.{
  delete_obsolete_pools, delete_obsolete_virtual_servers, desired_listeners, desired_pools,
  drop_migrated_legacy_aliases,
}
use garden_extension_f5_loca.Obsolete.Aliases.{drop_migrated_legacy_aliases-ids}
use garden_extension_f5_loca.Obsolete.ListenerCalls.{
  RemovesListeners, delete_obsolete_virtual_servers-RemovesListeners,
}
use garden_extension_f5_loca.Obsolete.PoolCalls.{RemovesPools, delete_obsolete_pools-RemovesPools}
use garden_extension_f5_loca.Obsolete.Swept.{delete_obsolete_virtual_servers-lookup}
use garden_extension_f5_loca.Obsolete.Within.{IsEntry}
use garden_extension_f5_loca.Recovery.{recover_virtual_servers_by_name}
use garden_extension_f5_loca.Recovery.Listed.{
  IsRead, IsRecovered, recover_virtual_servers_by_name-IsRecovered,
}
use garden_extension_f5_loca.Stacks.{desired_virtual_server_hash}
use garden_extension_f5_loca.Stacks.Hashes.{desired_virtual_server_hash-Perm}
use garden_extension_f5_loca.Tests.{client_a}
use garden_extension_f5_loca.Tests.Children.{pool_client}
use garden_extension_f5_loca.Tests.Cleanups.{clients_a, recorded_resource, stack_graph}
use garden_extension_f5_loca.Tests.Listeners.{backend_a, desired_a}

abbrev other_backend : BackendMember
other_backend = record backend_a { ip = "10.1.0.5" }

abbrev ranges_a : List String
ranges_a = "10.0.0.0/8" ∷ "10.9.0.0/16" ∷ []

abbrev ranged : Model.VirtualServer
ranged = record desired_a { source_ranges = ranges_a }

abbrev digest : String → String
digest s = s

desired_virtual_server_hash-Perm_example :
    desired_virtual_server_hash digest ranged (backend_a ∷ other_backend ∷ [])
    ≡ desired_virtual_server_hash digest
        (record ranged { source_ranges = "10.9.0.0/16" ∷ "10.0.0.0/8" ∷ [] })
        (other_backend ∷ backend_a ∷ [])
desired_virtual_server_hash-Perm_example =
    desired_virtual_server_hash-Perm digest ranged ("10.9.0.0/16" ∷ "10.0.0.0/8" ∷ [])
      (Perm.swap _ _ _) (Perm.swap _ _ _)

-- A migrated listener, under its alias and under its name.
abbrev migrated : ObservedGraph
migrated = record stack_graph {
  virtual_servers =
      ("legacy/virtual-server", recorded_resource "legacy/virtual-server" "vs-1")
      ∷ ("web", recorded_resource "web" "vs-1")
      ∷ [];
}

drop_migrated_legacy_aliases-ids_example :
    (IsIn "vs-1" (drop_migrated_legacy_aliases migrated).lb_services
      ↔ IsIn "vs-1" migrated.lb_services)
    × (IsIn "vs-1" (drop_migrated_legacy_aliases migrated).vips ↔ IsIn "vs-1" migrated.vips)
    × (IsIn "vs-1" (drop_migrated_legacy_aliases migrated).virtual_servers
        ↔ IsIn "vs-1" migrated.virtual_servers)
unfolding lookup
drop_migrated_legacy_aliases-ids_example =
    drop_migrated_legacy_aliases-ids migrated (refl, tt) (refl, tt) (refl, (refl, tt)) "vs-1"

abbrev empty_stack : LoadBalancerStack
empty_stack = record {
  owner = record { kind = "Service"; namespace = "ns"; name = "web"; uid = "u" };
  ownership =
      ownership_for (record { kind = "Service"; namespace = "ns"; name = "web"; uid = "u" })
        "cluster" "stack" "";
  lb_service = record {
    name = "edge";
    description = "";
    flavor_id = pos 2;
    network_id = "net-1";
    vpc_id = "vpc-1";
    vpc_name = "main";
    region = "north";
    ownership = desired_a.ownership;
  };
  vip = record { name = "vip"; address = ""; ownership = desired_a.ownership };
  virtual_servers = [];
  pools = [];
  routing_rules = [];
  certificates = [];
  ports = [];
}

abbrev pub web_stack : LoadBalancerStack
web_stack = record empty_stack { virtual_servers = desired_a ∷ [] }

-- A listener that the stack does not want, with a pool below it.
abbrev stale : ObservedGraph
stale = record stack_graph {
  virtual_servers =
      ("web", recorded_resource "web" "vs-1") ∷ ("old", recorded_resource "old" "vs-2") ∷ [];
  pools = ("old/p", recorded_resource "old/p" "pool-1") ∷ [];
}

abbrev pool_clients : Clients ℕ
pool_clients = record clients_a { pools = some pool_client }

delete_obsolete_pools-RemovesPools_example :
    All
      (RemovesPools pool_clients "lb-1" stale (desired_pools web_stack web_stack.virtual_servers))
      (delete_obsolete_pools pool_clients "lb-1" web_stack (stale, false) 0).trace
delete_obsolete_pools-RemovesPools_example =
    delete_obsolete_pools-RemovesPools pool_clients "lb-1" web_stack stale false 0

delete_obsolete_virtual_servers-RemovesListeners_example :
    All
      (RemovesListeners pool_clients "lb-1" stale (desired_listeners web_stack.virtual_servers))
      (delete_obsolete_virtual_servers pool_clients "lb-1" web_stack (stale, false) 0).trace
delete_obsolete_virtual_servers-RemovesListeners_example =
    delete_obsolete_virtual_servers-RemovesListeners pool_clients "lb-1" web_stack stale false 0

-- The graph without the listener, whose pool went before.
abbrev swept : ObservedGraph
swept = record stale { virtual_servers = ("web", recorded_resource "web" "vs-1") ∷ []; pools = [] }

delete_obsolete_virtual_servers-lookup_example :
    ((k : String)
      → contains k ("web" ∷ []) ≡ true
      → lookup k swept.virtual_servers ≡ lookup k stale.virtual_servers)
    × ((k : String) (r : ObservedResource)
        → IsEntry k r stale.virtual_servers
        → contains k ("web" ∷ []) ≡ false
        → r.external_id ≢ ""
        → lookup k swept.virtual_servers ≡ none)
unfolding delete_obsolete_virtual_servers garden_extension_f5_loca.Obsolete.each_entry
    garden_extension_f5_loca.Exec.◌>>=◌ garden_extension_f5_loca.Obsolete.remove_obsolete_listener
    contains desired_listeners garden_extension_f5_loca.Obsolete.remove_listener
    garden_extension_f5_loca.Obsolete.remove_listener_pool
    garden_extension_f5_loca.Stacks.graph_virtual_server_name garden_extension_f5_loca.Text.Cut.cut
    garden_extension_f5_loca.Obsolete.remove_pool garden_extension_f5_loca.Pools.cleanup
    garden_extension_f5_loca.Text.trim_space garden_extension_f5_loca.Dict.delete
delete_obsolete_virtual_servers-lookup_example =
    delete_obsolete_virtual_servers-lookup pool_clients "lb-1" web_stack stale swept false true 0
      refl

recover_virtual_servers_by_name-IsRecovered_example :
    Ensures IsRead
      (IsRecovered client_a "lb-1" "net-1")
      (recover_virtual_servers_by_name client_a "lb-1" "net-1" (desired_a ∷ []))
recover_virtual_servers_by_name-IsRecovered_example =
    recover_virtual_servers_by_name-IsRecovered client_a "lb-1" "net-1" (desired_a ∷ [])
