-- ===== src/Model.antt =====
-- pkg/model: the desired stack of resources.
use garden_extension_f5_loca.Prelude.{List, Option, String, ℤ}

pub record Owner : Type 0 where
  pub kind : String
  pub namespace : String
  pub name : String
  pub uid : String

pub record Ownership : Type 0 where
  pub managed_by : String
  pub cluster_uid : String
  pub source_kind : String
  pub source_namespace : String
  pub source_name : String
  pub source_uid : String
  pub resource_role : String
  pub shared_group : String

abbrev pub managed_by_value : String
managed_by_value = "gardener-extension-f5"

-- OwnershipFor
unfoldable pub ownership_for : Owner → String → String → String → Ownership
ownership_for owner cluster_uid resource_role shared_group = record {
  managed_by = managed_by_value;
  cluster_uid = cluster_uid;
  source_kind = owner.kind;
  source_namespace = owner.namespace;
  source_name = owner.name;
  source_uid = owner.uid;
  resource_role = resource_role;
  shared_group = shared_group;
}

-- LBService, the desired parent.
pub record LbService : Type 0 where
  pub name : String
  pub description : String
  pub flavor_id : ℤ
  pub network_id : String
  pub vpc_id : String
  pub vpc_name : String
  pub region : String
  pub ownership : Ownership

pub record Vip : Type 0 where
  pub name : String
  pub address : String
  pub ownership : Ownership

pub record Monitor : Type 0 where
  pub name : String
  pub type : String
  pub path : String
  pub interval : ℤ
  pub port : ℤ
  pub timeout : ℤ

pub record BackendMember : Type 0 where
  pub node_name : String
  pub provider_id : String
  pub compute_id : String
  pub ip : String
  pub port : ℤ
  pub weight : ℤ

pub record VirtualServer : Type 0 where
  pub name : String
  pub frontend_port : ℤ
  pub backend_node_port : ℤ
  pub protocol : String
  pub routing_algorithm : String
  pub persistence_type : String
  pub draining_timeout : ℤ
  pub source_ranges : List String
  pub monitor : Option Monitor
  pub default_pool_name : String
  pub ownership : Ownership

pub record Pool : Type 0 where
  pub name : String
  pub service : String
  pub port_name : String
  pub port : ℤ
  pub members : List BackendMember
  pub monitor : Option Monitor
  pub ownership : Ownership

pub record RoutingRule : Type 0 where
  pub name : String
  pub host : String
  pub path : String
  pub match_type : String
  pub pool_name : String
  pub priority : ℤ
  pub ownership : Ownership

pub record Certificate : Type 0 where
  pub name : String
  pub secret_name : String
  pub hosts : List String
  pub fingerprint : String
  pub certificate : String
  pub private_key : String
  pub ca : String
  pub ownership : Ownership

pub record ServicePort : Type 0 where
  pub name : String
  pub frontend_port : ℤ
  pub node_port : ℤ
  pub protocol : String
  pub backends : List BackendMember

-- LoadBalancerStack, without the annotations' LBConfig, which the deployer does not read.
pub record LoadBalancerStack : Type 0 where
  pub owner : Owner
  pub ownership : Ownership
  pub lb_service : LbService
  pub vip : Vip
  pub virtual_servers : List VirtualServer
  pub pools : List Pool
  pub routing_rules : List RoutingRule
  pub certificates : List Certificate
  pub ports : List ServicePort
