-- ===== src/Cmp.antt =====
-- pkg/deploy/lbaas/types.go and the client interfaces beside each manager: what the CMP service
-- answers, what the deployer sends, and one event for each call. The service is a parameter: a
-- `Client W` answers from a state `W` that the model does not look into.
use garden_extension_f5_loca.Prelude.{Bool, List, Option, String, false, true, ℤ}
use garden_extension_f5_loca.Exec.{Done, Exec, Result}
use garden_extension_f5_loca.Model.{Monitor}

-- LBService, the provider's answer.
pub record LbService : Type 0 where
  pub id : String
  pub name : String
  pub status : String
  pub operating_status : String
  pub vpc_id : String
  pub vpc_name : String
  pub network_id : String
  pub region : String

pub record Vip : Type 0 where
  pub id : String
  pub address : String
  pub status : String
  pub network_id : String
  pub ip_version : String
  pub attached_to_lb : Bool

pub record VirtualServer : Type 0 where
  pub id : String
  pub name : String
  pub vip_port_id : String
  pub vip_address : String
  pub status : String
  pub protocol : String
  pub port : ℤ

pub record NetworkPort : Type 0 where
  pub id : ℤ
  pub resource_id : String
  pub resource_type : String
  pub ip : String
  pub network_id : String
  pub device_id : String
  pub device_type : String
  pub instance_name : String

pub record ComputePort : Type 0 where
  pub id : ℤ
  pub fixed_ips : List String
  pub network_id : String
  pub device_id : String
  pub device_type : String

pub record Compute : Type 0 where
  pub id : String
  pub name : String
  pub vpc_id : String
  pub network_id : String
  pub region : String
  pub status : String
  pub ports : List ComputePort

pub record LbServiceSpec : Type 0 where
  pub name : String
  pub description : String
  pub flavor_id : ℤ
  pub network_id : String
  pub vpc_id : String
  pub vpc_name : String

pub record BackendNodeSpec : Type 0 where
  pub resource_id : String
  pub resource_type : String
  pub resource_ip : String
  pub backend_port_id : ℤ
  pub port : ℤ
  pub weight : ℤ
  pub max_connections : ℤ
  pub instance_name : String
  pub source_type : String

pub record VirtualServerSpec : Type 0 where
  pub name : String
  pub vip_port_id : String
  pub protocol : String
  pub routing_algorithm : String
  pub port : ℤ
  pub pool_name : String
  pub monitor_name : String
  pub monitor_protocol : String
  pub monitor_path : String
  pub monitor_interval : ℤ
  pub monitor_port : ℤ
  pub monitor_timeout : ℤ
  pub persistence_type : String
  pub persistence_enabled : Bool
  pub x_forwarded_for : Bool
  pub draining_timeout : ℤ
  pub vpc_id : String
  pub allowed_cidrs : List String
  pub nodes : List BackendNodeSpec

pub record PoolMemberResource : Type 0 where
  pub id : String
  pub resource_id : String
  pub resource_type : String
  pub resource_ip : String
  pub backend_port_id : ℤ
  pub port : ℤ
  pub weight : ℤ

pub record PoolResource : Type 0 where
  pub id : String
  pub name : String
  pub is_default : Bool
  pub members : List PoolMemberResource

pub record PoolMemberSpec : Type 0 where
  pub resource_id : String
  pub resource_type : String
  pub resource_ip : String
  pub backend_port_id : ℤ
  pub port : ℤ
  pub weight : ℤ

pub record PoolSpec : Type 0 where
  pub name : String
  pub protocol : String
  pub routing_algorithm : String
  pub monitor : Option Monitor
  pub members : List PoolMemberSpec

pub record MonitorResource : Type 0 where
  pub id : String
  pub name : String
  pub protocol : String
  pub path : String
  pub interval : ℤ

pub record MonitorSpec : Type 0 where
  pub name : String
  pub protocol : String
  pub path : String
  pub interval : ℤ

pub record RoutingRuleResource : Type 0 where
  pub id : String
  pub host : String
  pub path : String
  pub match_type : String
  pub pool_id : String

pub record RoutingRuleSpec : Type 0 where
  pub host : String
  pub path : String
  pub match_type : String
  pub pool_id : String

-- A call and its answer. The first argument of a call below an LB service is that service's id, the
-- next the virtual server's, then the pool's.
pub data Event : Type 0 where
  listed_lb_services : String → Result (List LbService) → Event
  created_lb_service : LbServiceSpec → Result LbService → Event
  deleted_lb_service : String → Result Done → Event
  got_lb_service : String → Result LbService → Event
  listed_vips : String → String → Result (List Vip) → Event
  created_vip : String → String → Result Vip → Event
  deleted_vip : String → String → Result Done → Event
  listed_virtual_servers : String → Result (List VirtualServer) → Event
  got_virtual_server : String → String → Result VirtualServer → Event
  created_virtual_server : String → VirtualServerSpec → Result VirtualServer → Event
  deleted_virtual_server : String → String → Result Done → Event
  got_compute : String → Result Compute → Event
  listed_pools : String → String → Result (List PoolResource) → Event
  created_pool : String → String → PoolSpec → Result PoolResource → Event
  deleted_pool : String → String → String → Result Done → Event
  set_default_pool : String → String → String → Result Done → Event
  created_pool_member :
      String → String → String → PoolMemberSpec → Result PoolMemberResource → Event
  updated_pool_member :
      String → String → String → String → PoolMemberSpec → Result PoolMemberResource → Event
  deleted_pool_member : String → String → String → String → Result Done → Event
  listed_monitors : String → String → String → Result (List MonitorResource) → Event
  created_monitor : String → String → String → MonitorSpec → Result MonitorResource → Event
  updated_monitor : String → String → String → String → MonitorSpec → Result MonitorResource → Event
  deleted_monitor : String → String → String → String → Result Done → Event
  listed_routing_rules : String → String → Result (List RoutingRuleResource) → Event
  created_routing_rule : String → String → RoutingRuleSpec → Result RoutingRuleResource → Event
  deleted_routing_rule : String → String → String → Result Done → Event

-- Reads leave the provider as it is.
abbrev pub is_read : Event → Bool
is_read (listed_lb_services _ _) = true
is_read (got_lb_service _ _) = true
is_read (listed_vips _ _ _) = true
is_read (listed_virtual_servers _ _) = true
is_read (got_virtual_server _ _ _) = true
is_read (got_compute _ _) = true
is_read (listed_pools _ _ _) = true
is_read (listed_monitors _ _ _ _) = true
is_read (listed_routing_rules _ _ _) = true
is_read _ = false

-- The Client interface. ListLBServices is called with a search text and fixed options (at most ten,
-- newest first), and is given the search text.
pub record Client (W : Type 0) : Type 0 where
  pub list_lb_services : String → W → Result (List LbService) × W
  pub create_lb_service : LbServiceSpec → W → Result LbService × W
  pub delete_lb_service : String → W → Result Done × W
  pub get_lb_service : String → W → Result LbService × W
  pub list_vips : String → String → W → Result (List Vip) × W
  pub create_vip : String → String → W → Result Vip × W
  pub delete_vip : String → String → W → Result Done × W
  pub list_virtual_servers : String → W → Result (List VirtualServer) × W
  pub get_virtual_server : String → String → W → Result VirtualServer × W
  pub create_virtual_server : String → VirtualServerSpec → W → Result VirtualServer × W
  pub delete_virtual_server : String → String → W → Result Done × W
  pub get_compute : String → W → Result Compute × W

-- PoolClient (pool_manager.go), without GetPool, which no manager calls.
pub record PoolClient (W : Type 0) : Type 0 where
  pub list_pools : String → String → W → Result (List PoolResource) × W
  pub create_pool : String → String → PoolSpec → W → Result PoolResource × W
  pub delete_pool : String → String → String → W → Result Done × W
  pub set_default_pool : String → String → String → W → Result Done × W
  pub create_pool_member :
      String → String → String → PoolMemberSpec → W → Result PoolMemberResource × W
  pub update_pool_member :
      String → String → String → String → PoolMemberSpec → W → Result PoolMemberResource × W
  pub delete_pool_member : String → String → String → String → W → Result Done × W

-- MonitorClient (monitor_manager.go)
pub record MonitorClient (W : Type 0) : Type 0 where
  pub list_monitors : String → String → String → W → Result (List MonitorResource) × W
  pub create_monitor : String → String → String → MonitorSpec → W → Result MonitorResource × W
  pub update_monitor :
      String → String → String → String → MonitorSpec → W → Result MonitorResource × W
  pub delete_monitor : String → String → String → String → W → Result Done × W

-- RoutingRuleClient (routing_rule_manager.go)
pub record RoutingRuleClient (W : Type 0) : Type 0 where
  pub list_routing_rules : String → String → W → Result (List RoutingRuleResource) × W
  pub create_routing_rule : String → String → RoutingRuleSpec → W → Result RoutingRuleResource × W
  pub delete_routing_rule : String → String → String → W → Result Done × W

abbrev pub Cmp : Type 0 → Type 0 → Type 0
Cmp W A = Exec Event W A
