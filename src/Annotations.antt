-- ===== src/Annotations.antt =====
-- pkg/annotations/lb.go: the load balancer's configuration, from the annotations of a Service or another
-- object. Annotations are a map of texts; a nil map reads as the empty one.
pub mod Bounds
pub mod Wrapped
use garden_extension_f5_loca.Prelude.{
  Bool, List, Option, String, [], false, if◌then◌else◌, int_eq, is_positive, leb, ltb, nat_eq,
  negsuc, none, pos, some, string_eq, to_int32, true, ℤ, ◌!=◌, ◌&&◌, ◌==◌, ◌||◌, ◌∷◌,
}
use garden_extension_f5_loca.Dict.{lookup_text}
use garden_extension_f5_loca.Text.{to_lower, to_upper, trim_space}
use garden_extension_f5_loca.Text.Join.{join}
use garden_extension_f5_loca.Text.Number.{atoi}
use garden_extension_f5_loca.Text.Split.{fields, replace_dashes, split_comma}

-- LBConfig
pub record LbConfig : Type 0 where
  pub routing_algorithm : String
  pub health_interval : ℤ
  pub health_type : String
  pub health_path : String
  pub health_port : ℤ
  pub health_timeout : ℤ
  pub protocol_override : String
  pub source_ranges : List String
  pub persistence_type : String
  pub draining_timeout : ℤ
  pub vpc_id : String
  pub network_id : String
  pub flavor_id : ℤ

-- DefaultLBConfig
abbrev pub default_lb_config : LbConfig
default_lb_config = record {
  routing_algorithm = "ROUND_ROBIN";
  health_interval = pos 30;
  health_type = "tcp";
  health_path = "";
  health_port = pos 0;
  health_timeout = pos 16;
  protocol_override = "";
  source_ranges = [];
  persistence_type = "";
  draining_timeout = pos 0;
  vpc_id = "";
  network_id = "";
  flavor_id = pos 0;
}

-- NormalizeRoutingAlgorithm
unfoldable pub normalize_routing_algorithm : String → String
normalize_routing_algorithm value = to_upper (join "_" (fields (replace_dashes (trim_space value))))

-- The keys of the annotations that are read.
abbrev protocol_key : String
protocol_key = "f5.extensions.gardener.cloud/protocol"

abbrev routing_algorithm_key : String
routing_algorithm_key = "f5.extensions.gardener.cloud/routing-algorithm"

abbrev pub health_interval_key : String
health_interval_key = "f5.extensions.gardener.cloud/health-check-interval"

abbrev pub health_type_key : String
health_type_key = "f5.extensions.gardener.cloud/health-check-type"

abbrev pub health_path_key : String
health_path_key = "f5.extensions.gardener.cloud/health-check-path"

abbrev health_port_key : String
health_port_key = "f5.extensions.gardener.cloud/health-check-port"

abbrev pub health_timeout_key : String
health_timeout_key = "f5.extensions.gardener.cloud/health-check-timeout"

abbrev pub source_ranges_key : String
source_ranges_key = "f5.extensions.gardener.cloud/source-ranges"

abbrev draining_timeout_key : String
draining_timeout_key = "f5.extensions.gardener.cloud/connection-draining-timeout"

abbrev vpc_id_key : String
vpc_id_key = "f5.extensions.gardener.cloud/vpc-id"

abbrev subnet_id_key : String
subnet_id_key = "f5.extensions.gardener.cloud/subnet-id"

abbrev network_id_key : String
network_id_key = "f5.extensions.gardener.cloud/network-id"

abbrev flavor_id_key : String
flavor_id_key = "f5.extensions.gardener.cloud/flavor-id"

-- The number of a text that passes the test; blank texts, errors and other numbers keep the old value.
unfoldable pub number_or : (ℤ → Bool) → String → ℤ → ℤ
number_or accepts v old =
    if v == ""
    then old
    else elim (atoi v) [ none ↦ old | some n ↦ if accepts n then to_int32 n else old ]

abbrev is_natural : ℤ → Bool
is_natural (pos n) = true
is_natural (negsuc n) = false

abbrev pub is_port : ℤ → Bool
is_port (pos n) = ltb 0 n && leb n 65535
is_port (negsuc n) = false

unfoldable pub protocol_or : String → String → String
protocol_or v old =
    let upper = to_upper v in
    if v != "" && (upper == "TCP" || (upper == "UDP" || (upper == "HTTP" || upper == "HTTPS")))
    then upper
    else old

unfoldable pub health_type_or : String → String → String
health_type_or v old =
    let lower = to_lower v in if v != "" && (lower == "tcp" || lower == "http") then lower else old

-- The trimmed parts of a list that are not blank.
unfoldable pub nonblank : List String → List String
nonblank [] = []
nonblank (part ∷ parts) =
    let rest = nonblank parts in if trim_space part != "" then trim_space part ∷ rest else rest

abbrev text_or : String → String → String
text_or v old = if v != "" then v else old

abbrev ranges_or : String → List String → List String
ranges_or v [] = if v != "" then nonblank (split_comma v) else []
ranges_or v (range ∷ ranges) = range ∷ ranges

-- parseAnnotations
unfoldable pub parse_annotations : LbConfig → List (String × String) → LbConfig
parse_annotations cfg ann =
    let value = λ (key : String). trim_space (lookup_text key ann) in
    let algorithm = value routing_algorithm_key in
    let path = value health_path_key in
    let type = health_type_or (value health_type_key) cfg.health_type in
    record {
      protocol_override = protocol_or (value protocol_key) cfg.protocol_override;
      routing_algorithm =
          if algorithm != "" then normalize_routing_algorithm algorithm else cfg.routing_algorithm;
      health_interval = number_or is_positive (value health_interval_key) cfg.health_interval;
      health_type = if path != "" && type == "tcp" then "http" else type;
      health_path = text_or path cfg.health_path;
      health_port = number_or is_port (value health_port_key) cfg.health_port;
      health_timeout = number_or is_positive (value health_timeout_key) cfg.health_timeout;
      draining_timeout = number_or is_natural (value draining_timeout_key) cfg.draining_timeout;
      source_ranges = ranges_or (value source_ranges_key) cfg.source_ranges;
      persistence_type = cfg.persistence_type;
      vpc_id = text_or (value vpc_id_key) cfg.vpc_id;
      network_id = text_or (value subnet_id_key) (text_or (value network_id_key) cfg.network_id);
      flavor_id = number_or is_positive (value flavor_id_key) cfg.flavor_id;
    }

-- What ParseService reads of a Service.
pub record ServiceFields : Type 0 where
  pub session_affinity : String
  pub annotations : List (String × String)
  pub load_balancer_source_ranges : List String

-- ParseService
unfoldable pub parse_service : Option ServiceFields → LbConfig
parse_service none = default_lb_config
parse_service (some svc) =
    let base = default_lb_config in
    let affinity =
      if svc.session_affinity == "ClientIP"
      then record base { persistence_type = "source_ip" }
      else base in
    let cfg = parse_annotations affinity svc.annotations in
    elim svc.load_balancer_source_ranges [
      | [] ↦ cfg
      | _ ∷ _ ↦ record cfg { source_ranges = svc.load_balancer_source_ranges }
    ]

-- ParseObject
unfoldable pub parse_object : Option (List (String × String)) → LbConfig
parse_object none = default_lb_config
parse_object (some annotations) = parse_annotations default_lb_config annotations
