-- ===== src/Tests/Builders.antt =====
-- Examples of the annotations, the generated names, the nodes, the stack of a Service, the shape of an Ingress
-- and its group.
use mathlib.Core.List.Perm
use Prim.Native.String.{count}
use garden_extension_f5_loca.Prelude.{
  All, List, String, [], arith, false, map, negsuc, none, pos, refl, some, to_int32, true, ◌-◌, ◌<◌,
  ◌^◌, ◌∷◌, ◌≡◌, ◌≤◌, ◌⊎◌,
}
use garden_extension_f5_loca.Annotations.{default_lb_config, health_interval_key, parse_object}
use garden_extension_f5_loca.Annotations.Bounds.{IsClean, IsWithin, parse_object-IsWithin}
use garden_extension_f5_loca.Annotations.Wrapped.{parse_object-health_interval}
use garden_extension_f5_loca.Dict.{contains, insert, lookup, lookup_text}
use garden_extension_f5_loca.Exec.{ok}
use garden_extension_f5_loca.Groups.{Candidate, resolve_group}
use garden_extension_f5_loca.Groups.Members.{resolve_group-Perm}
use garden_extension_f5_loca.Ingress.{
  Ingress, IngressBackend, and_then, backend_ref_from_service, check_backend, check_default,
  check_path, check_path_type, check_paths, check_rule, check_rules, check_tls, consume, note_route,
  ref_equal, route_key, validate_ingress_shape,
}
use garden_extension_f5_loca.Ingress.Routed.{IsAccepted, validate_ingress_shape-IsAccepted}
use garden_extension_f5_loca.Model.{LoadBalancerStack}
use garden_extension_f5_loca.Names.{
  is_safe, limited_safe_name, safe_char, safe_name, take_chars, trim_dashes,
}
use garden_extension_f5_loca.Names.Limits.{count-limited_safe_name}
use garden_extension_f5_loca.Nodes.{
  KubeNode, Node, Reader, ServiceRef, Slice, add_target, after_prefix, apc_id, backend_ip, bump,
  collect, count_endpoint, count_endpoints, count_slices, deduplicate_nodes, drop_seen, internal_ip,
  is_node_ready, list_ready_node_backends_for_port, matches_port,
  nodes_with_ready_endpoints_for_port, weigh_for_port,
}
use garden_extension_f5_loca.Nodes.Distinct.{AllDistinct, deduplicate_nodes-AllDistinct, keys}
use garden_extension_f5_loca.Nodes.Targets.{
  IsLocalTarget, list_ready_node_backends_for_port-IsLocalTarget,
}
use garden_extension_f5_loca.Services.{
  Service, add_port, build_load_balancer_stack, build_parents, build_pool, build_ports, check_port,
  pool_name, with_port,
}
use garden_extension_f5_loca.Services.Matching.{
  Matches, OwnBackends, build_load_balancer_stack-Matches, build_load_balancer_stack-OwnBackends,
}
use garden_extension_f5_loca.Text.{map_chars, to_lower, trim_space}
use garden_extension_f5_loca.Text.Decimal.{show, show_nat}
use garden_extension_f5_loca.Text.Number.{is_digit}
-- A digest for the examples; the code's is a parameter.
use garden_extension_f5_loca.Prelude.{
  All, List, String, [], arith, negsuc, none, pos, refl, some, to_int32, true, ◌-◌, ◌<◌, ◌^◌, ◌∷◌,
  ◌≡◌, ◌≤◌, ◌⊎◌,
}
use garden_extension_f5_loca.Annotations.{default_lb_config, health_interval_key, parse_object}
use garden_extension_f5_loca.Annotations.Bounds.{IsClean, IsWithin, parse_object-IsWithin}
use garden_extension_f5_loca.Annotations.Wrapped.{parse_object-health_interval}
use garden_extension_f5_loca.Dict.{contains}
use garden_extension_f5_loca.Exec.{ok}
use garden_extension_f5_loca.Model.{LoadBalancerStack}
use garden_extension_f5_loca.Names.{limited_safe_name}
use garden_extension_f5_loca.Names.Limits.{count-limited_safe_name}
use garden_extension_f5_loca.Nodes.{
  KubeNode, Node, Reader, ServiceRef, Slice, deduplicate_nodes, nodes_with_ready_endpoints_for_port,
}
use garden_extension_f5_loca.Nodes.Distinct.{AllDistinct, deduplicate_nodes-AllDistinct, keys}
use garden_extension_f5_loca.Nodes.Targets.{
  IsLocalTarget, list_ready_node_backends_for_port-IsLocalTarget,
}
use garden_extension_f5_loca.Services.{Service, add_port, build_parents}
use garden_extension_f5_loca.Services.Matching.{
  Matches, OwnBackends, build_load_balancer_stack-Matches, build_load_balancer_stack-OwnBackends,
}
use garden_extension_f5_loca.Text.Decimal.{show_nat}

abbrev digest : String → String
digest s = s

parse_object-IsWithin_example :
    IsWithin
      (parse_object (some (("f5.extensions.gardener.cloud/health-check-port", "70000") ∷ [])))
    × All IsClean
        (parse_object
          (some (("f5.extensions.gardener.cloud/health-check-port", "70000") ∷ []))).source_ranges
parse_object-IsWithin_example =
    parse_object-IsWithin (some (("f5.extensions.gardener.cloud/health-check-port", "70000") ∷ []))

parse_object-health_interval_example :
    (let cfg = parse_object (some ((health_interval_key, show_nat 2147483648) ∷ [])) in
      (cfg.health_interval ≡ to_int32 (pos 2147483648))
      × (2 ^ 31 ≤ 2147483648
          → 2147483648 < 2 ^ 32
          → cfg.health_interval ≡ negsuc (2 ^ 32 - 2147483648 - 1)))
parse_object-health_interval_example =
    parse_object-health_interval 2147483648 (omega arith) (omega arith)

count-limited_safe_name_example :
    count (limited_safe_name digest "App_A service with a long name") ≤ 20
count-limited_safe_name_example = count-limited_safe_name digest "App_A service with a long name"

abbrev node_a : Node
node_a = record {
  node_name = "worker";
  provider_id = "cmp://node-1";
  compute_id = "node-1";
  ip = "10.1.0.4";
  weight = pos 50;
}

deduplicate_nodes-AllDistinct_example :
    AllDistinct (keys (deduplicate_nodes (node_a ∷ node_a ∷ [])))
    × ((k : String)
        → contains k (keys (deduplicate_nodes (node_a ∷ node_a ∷ [])))
          ≡ contains k (keys (node_a ∷ node_a ∷ [])))
deduplicate_nodes-AllDistinct_example = deduplicate_nodes-AllDistinct (node_a ∷ node_a ∷ [])

abbrev kube_node : KubeNode
kube_node = record {
  name = "worker";
  provider_id = "cmp://node-1";
  annotations = [];
  conditions = ("Ready", "True") ∷ [];
  addresses = ("InternalIP", "10.1.0.4") ∷ [];
}

abbrev slice_a : Slice
slice_a = record {
  ports = (some "http", none) ∷ [];
  endpoints = record { ready = some true; node_name = some "worker" } ∷ [];
}

abbrev reader_a : Reader
reader_a = record {
  nodes = ok (kube_node ∷ record kube_node { name = "idle" } ∷ []);
  slices = λ namespace name. ok (slice_a ∷ []);
}

abbrev local_service : ServiceRef
local_service = record { name = "web"; namespace = "ns"; is_local = true }

list_ready_node_backends_for_port-IsLocalTarget_example :
    ((node_a ∷ []) ≡ [])
    ⊎ ((nodes : List KubeNode) × (reader_a.nodes ≡ ok nodes)
        × All
            (IsLocalTarget
              (nodes_with_ready_endpoints_for_port reader_a (some local_service) "http" (pos 80))
              nodes)
            (node_a ∷ []))
unfolding garden_extension_f5_loca.Nodes.list_ready_node_backends_for_port
    nodes_with_ready_endpoints_for_port garden_extension_f5_loca.Nodes.count_slices
    garden_extension_f5_loca.Nodes.matches_port garden_extension_f5_loca.Nodes.count_endpoints
    garden_extension_f5_loca.Nodes.count_endpoint garden_extension_f5_loca.Nodes.bump
    deduplicate_nodes garden_extension_f5_loca.Nodes.drop_seen
    garden_extension_f5_loca.Nodes.collect garden_extension_f5_loca.Nodes.add_target
    garden_extension_f5_loca.Nodes.weigh_for_port garden_extension_f5_loca.Nodes.is_node_ready
    garden_extension_f5_loca.Nodes.backend_ip garden_extension_f5_loca.Nodes.after_prefix
    garden_extension_f5_loca.Nodes.apc_id garden_extension_f5_loca.Nodes.compute_id
    garden_extension_f5_loca.Nodes.internal_ip garden_extension_f5_loca.Dict.insert
    garden_extension_f5_loca.Dict.lookup contains garden_extension_f5_loca.Dict.lookup_text
    garden_extension_f5_loca.Text.trim_space
list_ready_node_backends_for_port-IsLocalTarget_example =
    list_ready_node_backends_for_port-IsLocalTarget reader_a local_service "http" (pos 80)
      (node_a ∷ []) refl refl

abbrev service_a : Service
service_a = record {
  namespace = "ns";
  name = "web";
  uid = "u";
  annotations = [];
  ports =
      record { name = "http"; port = pos 80; node_port = pos 30080; protocol = "TCP" }
      ∷ record { name = "dns"; port = pos 53; node_port = pos 30053; protocol = "UDP" }
      ∷ [];
}

abbrev built : LoadBalancerStack
built =
    add_port digest service_a default_lb_config
      (record { name = "http"; port = pos 80; node_port = pos 30080; protocol = "TCP" })
      (node_a ∷ [])
      (add_port digest service_a default_lb_config
        (record { name = "dns"; port = pos 53; node_port = pos 30053; protocol = "UDP" })
        (node_a ∷ []) (build_parents digest service_a default_lb_config))

build_load_balancer_stack-Matches_example :
    Matches (λ p. node_a ∷ []) service_a.ports built.virtual_servers built.pools built.ports
unfolding garden_extension_f5_loca.Services.build_load_balancer_stack
    garden_extension_f5_loca.Services.build_ports garden_extension_f5_loca.Services.with_port
    garden_extension_f5_loca.Services.check_port
build_load_balancer_stack-Matches_example =
    build_load_balancer_stack-Matches digest service_a default_lb_config (λ p. node_a ∷ []) built
      refl

build_load_balancer_stack-OwnBackends_example : OwnBackends built built.virtual_servers built.pools
unfolding garden_extension_f5_loca.Services.build_load_balancer_stack
    garden_extension_f5_loca.Services.build_ports garden_extension_f5_loca.Services.with_port
    garden_extension_f5_loca.Services.check_port garden_extension_f5_loca.Services.build_pool
    garden_extension_f5_loca.Services.pool_name garden_extension_f5_loca.Names.limited_safe_name
    garden_extension_f5_loca.Names.safe_name garden_extension_f5_loca.Names.trim_dashes
    garden_extension_f5_loca.Names.safe_char garden_extension_f5_loca.Names.is_safe
    garden_extension_f5_loca.Names.take_chars garden_extension_f5_loca.Text.map_chars
    garden_extension_f5_loca.Text.to_lower garden_extension_f5_loca.Text.trim_space
    garden_extension_f5_loca.Text.Decimal.show garden_extension_f5_loca.Text.Number.is_digit
    build_parents
build_load_balancer_stack-OwnBackends_example =
    build_load_balancer_stack-OwnBackends digest service_a default_lb_config (λ p. node_a ∷ [])
      built refl (refl, (refl, tt))

abbrev web_backend : IngressBackend
web_backend = record {
  has_resource = false;
  service = some (record { name = "web"; port_name = "http"; port_number = pos 0 });
}

-- One route twice, for one backend.
abbrev ingress_a : Ingress
ingress_a = record {
  rules =
      record {
        host = "Example.org";
        http = some (record { path = "/"; path_type = some "Prefix"; backend = web_backend } ∷ []);
      }
      ∷ record {
        host = "example.org ";
        http = some (record { path = "/"; path_type = some "Prefix"; backend = web_backend } ∷ []);
      }
      ∷ [];
  default_backend = some web_backend;
  tls = record { secret_name = "cert"; hosts = [] } ∷ [];
}

validate_ingress_shape-IsAccepted_example : IsAccepted ingress_a
unfolding garden_extension_f5_loca.Ingress.validate_ingress_shape
    garden_extension_f5_loca.Ingress.and_then garden_extension_f5_loca.Ingress.check_rules
    garden_extension_f5_loca.Ingress.check_rule garden_extension_f5_loca.Ingress.check_paths
    garden_extension_f5_loca.Ingress.check_path garden_extension_f5_loca.Ingress.check_path_type
    garden_extension_f5_loca.Ingress.consume garden_extension_f5_loca.Ingress.check_backend
    garden_extension_f5_loca.Ingress.note_route
    garden_extension_f5_loca.Ingress.backend_ref_from_service
    garden_extension_f5_loca.Ingress.ref_equal garden_extension_f5_loca.Ingress.route_key
    garden_extension_f5_loca.Ingress.check_default garden_extension_f5_loca.Ingress.check_tls
    garden_extension_f5_loca.Dict.lookup garden_extension_f5_loca.Dict.insert
    garden_extension_f5_loca.Text.trim_space garden_extension_f5_loca.Text.to_lower
validate_ingress_shape-IsAccepted_example = validate_ingress_shape-IsAccepted ingress_a refl

abbrev shared : List (String × String)
shared = ("f5.extensions.gardener.cloud/vip-group", "front") ∷ []

abbrev first_member : Candidate
first_member = record { namespace = "ns"; name = "a"; annotations = shared }

abbrev second_member : Candidate
second_member = record { namespace = "ns"; name = "b"; annotations = shared }

resolve_group-Perm_example :
    (map
        (λ (c : Candidate). c.name)
        (resolve_group first_member (first_member ∷ second_member ∷ [])).0
      ≡ map
          (λ (c : Candidate). c.name)
          (resolve_group first_member (second_member ∷ first_member ∷ [])).0)
    × ((resolve_group first_member (first_member ∷ second_member ∷ [])).1
        ≡ (resolve_group first_member (second_member ∷ first_member ∷ [])).1)
resolve_group-Perm_example = resolve_group-Perm first_member (Perm.swap _ _ _)
