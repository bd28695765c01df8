-- ===== src/Tests.antt =====
-- Concrete services for the examples: each answers every call from fixed resources.
pub mod Parents
pub mod Children
pub mod Listeners
pub mod Rules
pub mod Cleanups
pub mod Renewals
pub mod Builders
pub mod Stacks
pub mod Deployments
use garden_extension_f5_loca.Prelude.{
  String, [], arith, eq_iff, false, if◌then◌else◌, int_eq, nat_eq, pos, string_eq, true, ℕ, ◌+◌,
  ◌==◌, ◌∷◌, ◌≡◌, ◌≢◌,
}
use garden_extension_f5_loca.Cmp.{Client, Compute, ComputePort, LbService, Vip, VirtualServer}
use garden_extension_f5_loca.Exec.{Result, err, http_status, ok}

abbrev pub lb_a : LbService
lb_a = record {
  id = "lb-1";
  name = "edge";
  status = "Active";
  operating_status = "online";
  vpc_id = "vpc-1";
  vpc_name = "main";
  network_id = "net-1";
  region = "north";
}

abbrev pub lb_failed : LbService
lb_failed = record lb_a { id = "lb-2"; status = "failed" }

abbrev pub vip_a : Vip
vip_a = record {
  id = "vip-1";
  address = "10.0.0.7";
  status = "active";
  network_id = "net-1";
  ip_version = "ipv4";
  attached_to_lb = true;
}

abbrev pub listener_a : VirtualServer
listener_a = record {
  id = "vs-1";
  name = "web";
  vip_port_id = "vip-1";
  vip_address = "10.0.0.7";
  status = "active";
  protocol = "tcp";
  port = pos 80;
}

abbrev pub listener_b : VirtualServer
listener_b = record listener_a { id = "vs-2"; name = "api"; port = pos 443 }

abbrev pub port_a : ComputePort
port_a = record {
  id = pos 9;
  fixed_ips = "10.1.0.4" ∷ [];
  network_id = "net-1";
  device_id = "node-1";
  device_type = "compute";
}

abbrev pub compute_a : Compute
compute_a = record {
  id = "node-1";
  name = "worker";
  vpc_id = "vpc-1";
  network_id = "net-1";
  region = "north";
  status = "active";
  ports = record port_a { id = pos 0 } ∷ port_a ∷ [];
}

abbrev listener_of : String → Result VirtualServer
listener_of id =
    if id == "vs-1"
    then ok listener_a
    else if id == "vs-2"
    then ok listener_b
    else err (http_status 404)

-- The provider's state is the number of calls so far.
abbrev pub client_a : Client ℕ
client_a = record {
  list_lb_services = λ name n. (ok (lb_a ∷ []), n + 1);
  create_lb_service = λ spec n. (ok lb_a, n + 1);
  delete_lb_service = λ id n. (ok tt, n + 1);
  get_lb_service = λ id n. (
    if id == "lb-1" then ok lb_a else if id == "lb-2" then ok lb_failed else err (http_status 503),
    n + 1,
  );
  list_vips = λ lb subnet n. (ok (vip_a ∷ []), n + 1);
  create_vip = λ lb subnet n. (ok vip_a, n + 1);
  delete_vip = λ lb id n. (ok tt, n + 1);
  list_virtual_servers = λ lb n. (ok (listener_a ∷ listener_b ∷ []), n + 1);
  get_virtual_server = λ lb id n. (listener_of id, n + 1);
  create_virtual_server = λ lb spec n. (ok listener_a, n + 1);
  delete_virtual_server = λ lb id n. (ok tt, n + 1);
  get_compute = λ id n. (ok compute_a, n + 1);
}

-- Two texts that the comparison tells apart.
pub differ : (s t : String) → (s == t) ≡ false → s ≢ t
differ s t h e = ground (arith, eq_iff s t)
