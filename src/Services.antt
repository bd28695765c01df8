-- ===== src/Services.antt =====
-- pkg/service/builder.go and protocol.go: the desired stack of a Service of type LoadBalancer. crypto/sha256 with
-- the hexadecimal print is a parameter.
pub mod Matching
use Prim.Native.String.{◌++◌}
use garden_extension_f5_loca.Model
use garden_extension_f5_loca.Prelude.{
  List, String, [], if◌then◌else◌, int_eq, is_positive, map, nat_eq, pos, some, string_eq, ℤ, ◌!=◌,
  ◌==◌, ◌∷◌,
}
use garden_extension_f5_loca.Annotations.{LbConfig}
use garden_extension_f5_loca.Dict.{lookup_text}
use garden_extension_f5_loca.Exec.{Done, Result, err, errorf, ok}
use garden_extension_f5_loca.Model.{
  BackendMember, LoadBalancerStack, Monitor, Owner, Pool, ServicePort, VirtualServer, ownership_for,
}
use garden_extension_f5_loca.Names.{limited_safe_name}
use garden_extension_f5_loca.Nodes.{Node}
use garden_extension_f5_loca.Text.{trim_space}
use garden_extension_f5_loca.Text.Decimal.{show}

-- A port of a Kubernetes Service.
pub record PortSpec : Type 0 where
  pub name : String
  pub port : ℤ
  pub node_port : ℤ
  pub protocol : String

-- What the builder reads of a Service.
pub record Service : Type 0 where
  pub namespace : String
  pub name : String
  pub uid : String
  pub annotations : List (String × String)
  pub ports : List PortSpec

-- MapK8sProtocolToCMP
unfoldable pub map_k8s_protocol_to_cmp : String → String
map_k8s_protocol_to_cmp protocol = if protocol == "UDP" then "UDP" else "TCP"

abbrev vip_group_key : String
vip_group_key = "f5.extensions.gardener.cloud/vip-group"

-- VIPGroup
unfoldable pub vip_group : Service → String
vip_group svc = trim_space (lookup_text vip_group_key svc.annotations)

module _ (sha256_hex : String → String) (svc : Service) where
  abbrev named : String → String → String
  named prefix rest = limited_safe_name sha256_hex (prefix ++ svc.namespace ++ "-" ++ rest)

  -- VIPName
  unfoldable pub vip_name : String
  vip_name =
      if vip_group svc != ""
      then named "app-vip-group-" (vip_group svc)
      else named "app-vip-" svc.name

  -- VirtualServerName
  unfoldable pub virtual_server_name : ℤ → String
  virtual_server_name port = named "app-vs-" (svc.name ++ "-" ++ show port)

  -- PoolName
  unfoldable pub pool_name : ℤ → String
  pool_name port = named "app-pool-" (svc.name ++ "-" ++ show port)

  -- MonitorName
  unfoldable pub monitor_name : ℤ → String
  monitor_name port = named "mon-app-pool-" (svc.name ++ "-" ++ show port)

  -- LBServiceName
  unfoldable pub lb_service_name : String
  lb_service_name =
      if vip_group svc != "" then named "app-group-" (vip_group svc) else named "app-" svc.name

  abbrev pub owner : Owner
  owner = record { kind = "Service"; namespace = svc.namespace; name = svc.name; uid = svc.uid }

  module _ (cfg : LbConfig) where
    abbrev protocol_of : PortSpec → String
    protocol_of p =
        if cfg.protocol_override != ""
        then cfg.protocol_override
        else map_k8s_protocol_to_cmp p.protocol

    -- A backend weighs at least one.
    unfoldable pub member_of : ℤ → Node → BackendMember
    member_of node_port n = record {
      node_name = n.node_name;
      provider_id = n.provider_id;
      compute_id = n.compute_id;
      ip = n.ip;
      port = node_port;
      weight = if is_positive n.weight then n.weight else pos 1;
    }

    abbrev monitor_of : PortSpec → Monitor
    monitor_of p = record {
      name = monitor_name p.port;
      type = cfg.health_type;
      path = cfg.health_path;
      interval = cfg.health_interval;
      port = cfg.health_port;
      timeout = cfg.health_timeout;
    }

    unfoldable pub build_virtual_server : PortSpec → VirtualServer
    build_virtual_server p = record {
      name = virtual_server_name p.port;
      frontend_port = p.port;
      backend_node_port = p.node_port;
      protocol = protocol_of p;
      routing_algorithm = cfg.routing_algorithm;
      persistence_type = cfg.persistence_type;
      draining_timeout = cfg.draining_timeout;
      source_ranges = cfg.source_ranges;
      monitor = some (monitor_of p);
      default_pool_name = pool_name p.port;
      ownership = ownership_for owner "" "virtual-server" "";
    }

    unfoldable pub build_pool : PortSpec → List Node → Pool
    build_pool p nodes = record {
      name = pool_name p.port;
      service = "";
      port_name = "";
      port = pos 0;
      members = map (member_of p.node_port) nodes;
      monitor = some (monitor_of p);
      ownership = ownership_for owner "" "pool" (vip_group svc);
    }

    unfoldable pub build_port : PortSpec → List Node → ServicePort
    build_port p nodes = record {
      name = p.name;
      frontend_port = p.port;
      node_port = p.node_port;
      protocol = protocol_of p;
      backends = map (member_of p.node_port) nodes;
    }

    -- The stack without its listeners.
    unfoldable pub build_parents : LoadBalancerStack
    build_parents = record {
      owner = owner;
      ownership = ownership_for owner "" "stack" "";
      lb_service = record {
        name = lb_service_name;
        description = "App LB for " ++ svc.namespace ++ "/" ++ svc.name;
        flavor_id = pos 0;
        network_id = "";
        vpc_id = "";
        vpc_name = "";
        region = "";
        ownership = ownership_for owner "" "lb-service" (vip_group svc);
      };
      vip = record {
        name = vip_name;
        address = "";
        ownership = ownership_for owner "" "vip" (vip_group svc);
      };
      virtual_servers = [];
      pools = [];
      routing_rules = [];
      certificates = [];
      ports = [];
    }

    -- A port without a number or a node port is refused.
    unfoldable pub check_port : PortSpec → Result Done
    check_port p =
        if p.port == pos 0
        then err (errorf "InvalidServicePort: service port %q has no frontend port" (p.name ∷ []))
        else if p.node_port == pos 0
        then err (
            errorf "BackendNodePortRequired: service port %q (%d) requires a NodePort backend"
              (p.name ∷ show p.port ∷ []))
        else ok tt

    abbrev pub add_port : PortSpec → List Node → LoadBalancerStack → LoadBalancerStack
    add_port p nodes stack = record stack {
      virtual_servers = build_virtual_server p ∷ stack.virtual_servers;
      pools = build_pool p nodes ∷ stack.pools;
      ports = build_port p nodes ∷ stack.ports;
    }

    -- What one port adds before the rest of the stack.
    unfoldable pub with_port :
        PortSpec → List Node → Result Done → Result LoadBalancerStack → Result LoadBalancerStack
    with_port p nodes (err e) rest = err e
    with_port p nodes (ok _) (err e) = err e
    with_port p nodes (ok _) (ok stack) = ok (add_port p nodes stack)

    -- The loop over the ports.
    unfoldable pub build_ports : (PortSpec → List Node) → List PortSpec → Result LoadBalancerStack
    build_ports backends [] = ok build_parents
    build_ports backends (p ∷ ports) =
        with_port p (backends p) (check_port p) (build_ports backends ports)

    -- BuildLoadBalancerStackWithPortBackends, for a Service that is not nil.
    unfoldable pub build_load_balancer_stack : (PortSpec → List Node) → Result LoadBalancerStack
    build_load_balancer_stack backends = elim svc.ports [
      | [] ↦ err (errorf "service has no ports" [])
      | _ ∷ _ ↦ build_ports backends svc.ports
    ]
