-- ===== src/Tests/Listeners.antt =====
-- Examples of the virtual server manager.
use garden_extension_f5_loca.Model
use garden_extension_f5_loca.Prelude.{All, String, [], false, none, pos, refl, true, ◌∷◌, ◌≡◌, ◌≢◌}
use garden_extension_f5_loca.Cmp.{Compute, NetworkPort}
use garden_extension_f5_loca.Exec.{ok}
use garden_extension_f5_loca.Model.{BackendMember, ownership_for}
use garden_extension_f5_loca.Tests.{client_a, listener_a, listener_b}
use garden_extension_f5_loca.Text.{trim_space}
use garden_extension_f5_loca.VirtualServers.{EnsureRequest, ensure}
use garden_extension_f5_loca.VirtualServers.Answers.{Stands, ensure-Stands}
use garden_extension_f5_loca.VirtualServers.Computes.{IsFound, resolve_backend_port-IsFound}
use garden_extension_f5_loca.VirtualServers.Deletions.{Changes, IsOurs, ensure-Changes}
use garden_extension_f5_loca.VirtualServers.Frontend.{IsSafe, ensure-IsSafe}

abbrev port_found : NetworkPort
port_found = record {
  id = pos 9;
  resource_id = "node-1";
  resource_type = "compute";
  ip = "10.1.0.4";
  network_id = "net-1";
  device_id = "node-1";
  device_type = "compute";
  instance_name = "worker";
}

abbrev pub desired_a : Model.VirtualServer
desired_a = record {
  name = "web";
  frontend_port = pos 80;
  backend_node_port = pos 30080;
  protocol = "TCP";
  routing_algorithm = "ROUND_ROBIN";
  persistence_type = "";
  draining_timeout = pos 0;
  source_ranges = [];
  monitor = none;
  default_pool_name = "web-pool";
  ownership =
      ownership_for (record { kind = "Service"; namespace = "ns"; name = "web"; uid = "u" })
        "cluster" "virtual-server" "";
}

abbrev pub backend_a : BackendMember
backend_a = record {
  node_name = "worker";
  provider_id = "cmp://node-1";
  compute_id = "node-1";
  ip = "10.1.0.4";
  port = pos 30080;
  weight = pos 1;
}

abbrev request_a : EnsureRequest
request_a = record {
  lb_service_id = "lb-1";
  vip_port_id = "vip-1";
  network_id = "net-1";
  region = "north";
  desired = desired_a;
  backends = backend_a ∷ [];
  current_id = "vs-1";
  current_hash = "h";
  desired_hash = "h";
  recreate_when_hash_missing = false;
  recover_by_name = true;
}

resolve_backend_port-IsFound_example :
    ◌≢◌ {A = String} (trim_space "node-1") ""
    × (compute : Compute) × ((client_a.get_compute (trim_space "node-1") 0).0 ≡ ok compute)
    × IsFound "vpc-1" "north" (trim_space "node-1") (trim_space "10.1.0.4") compute port_found
unfolding garden_extension_f5_loca.VirtualServers.resolve_backend_port trim_space
    garden_extension_f5_loca.Exec.◌>>=◌ garden_extension_f5_loca.Text.equal_fold
    garden_extension_f5_loca.VirtualServers.contains_string
resolve_backend_port-IsFound_example =
    resolve_backend_port-IsFound client_a "vpc-1" backend_a "north" 0 port_found refl

ensure-Changes_example :
    All
      (Changes (IsOurs client_a request_a (listener_a ∷ listener_b ∷ [])) "lb-1")
      (ensure client_a "vpc-1" request_a 0).trace
ensure-Changes_example = ensure-Changes client_a "vpc-1" request_a 0

ensure-IsSafe_example :
    All
      (IsSafe client_a request_a (ok (listener_a ∷ listener_b ∷ [])))
      (ensure client_a "vpc-1" request_a 0).trace
ensure-IsSafe_example = ensure-IsSafe client_a "vpc-1" request_a 0

ensure-Stands_example : Stands client_a request_a ("vs-1", "web", false)
unfolding ensure garden_extension_f5_loca.Exec.◌>>=◌
    garden_extension_f5_loca.VirtualServers.check_frontend
    garden_extension_f5_loca.VirtualServers.may_conflict trim_space
    garden_extension_f5_loca.VirtualServers.recorded
    garden_extension_f5_loca.VirtualServers.is_listed
    garden_extension_f5_loca.VirtualServers.validated
    garden_extension_f5_loca.VirtualServers.validate_virtual_server
    garden_extension_f5_loca.Text.equal_fold garden_extension_f5_loca.VirtualServers.keep_or_replace
ensure-Stands_example = ensure-Stands client_a "vpc-1" request_a 0 ("vs-1", "web", false) refl
