-- ===== src/Stacks.antt =====
-- pkg/deploy/lbaas/deployer.go: what the deployer computes from the desired stack, and the keys of the
-- observed graph. crypto/sha256 with the hexadecimal print is a parameter.
pub mod Hashes
use Prim.Native.String.{◌++◌}
use garden_extension_f5_loca.Prelude.{
  List, Option, String, [], if◌then◌else◌, int_eq, map, nat_eq, none, pair_order, some, sort_by,
  string_eq, ℤ, ◌!=◌, ◌==◌, ◌∷◌,
}
use garden_extension_f5_loca.Prelude.{Order, int_order, pair_order}
use garden_extension_f5_loca.Dict.{contains}
use garden_extension_f5_loca.Model.{
  BackendMember, LoadBalancerStack, Monitor, Pool, RoutingRule, ServicePort, VirtualServer,
}
use garden_extension_f5_loca.Text.Cut.{cut}
use garden_extension_f5_loca.Text.Decimal.{show}
use garden_extension_f5_loca.Text.Join.{join}
use garden_extension_f5_loca.Text.Order.{string_order}

-- The fields of a backend that its hash depends on; sort.Slice compares them in this order.
abbrev pub backend_key : BackendMember → String × (ℤ × ℤ)
backend_key b = (b.ip, (b.port, b.weight))

abbrev pub backend_order : Order (String × (ℤ × ℤ))
backend_order = pair_order

abbrev backend_text : String × (ℤ × ℤ) → String
backend_text (ip, (port, weight)) = ip ++ ":" ++ show port ++ ":" ++ show weight ++ ";"

unfoldable pub concat_texts : List String → String
concat_texts [] = ""
concat_texts (s ∷ texts) = s ++ concat_texts texts

unfoldable pub backends_text : ℤ → ℤ → List BackendMember → String
backends_text frontend_port node_port backends =
    let sorted = sort_by backend_order backend_key backends in
    "frontend="
    ++ show frontend_port
    ++ ";nodeport="
    ++ show node_port
    ++ ";"
    ++ concat_texts (map backend_text (map backend_key sorted))

-- DesiredBackendHash
unfoldable pub desired_backend_hash : (String → String) → ℤ → ℤ → List BackendMember → String
desired_backend_hash sha256_hex frontend_port node_port backends =
    sha256_hex (backends_text frontend_port node_port backends)

abbrev monitor_text : Option Monitor → String
monitor_text none = ""
monitor_text (some m) =
    "monitor="
    ++ m.name
    ++ ":"
    ++ m.type
    ++ ":"
    ++ m.path
    ++ ":"
    ++ show m.interval
    ++ ":"
    ++ show m.port
    ++ ":"
    ++ show m.timeout
    ++ ";"

abbrev sort_texts : List String → List String
sort_texts texts = sort_by string_order (λ s. s) texts

unfoldable pub virtual_server_text : VirtualServer → String
virtual_server_text vs =
    "frontend="
    ++ show vs.frontend_port
    ++ ";nodeport="
    ++ show vs.backend_node_port
    ++ ";name="
    ++ vs.name
    ++ ";protocol="
    ++ vs.protocol
    ++ ";algorithm="
    ++ vs.routing_algorithm
    ++ ";persistence="
    ++ vs.persistence_type
    ++ ";draining="
    ++ show vs.draining_timeout
    ++ ";ranges="
    ++ join "," (map (λ s. s) (sort_texts vs.source_ranges))
    ++ ";default-pool="
    ++ vs.default_pool_name
    ++ ";"
    ++ monitor_text vs.monitor

-- DesiredVirtualServerHash
unfoldable pub desired_virtual_server_hash :
    (String → String) → VirtualServer → List BackendMember → String
desired_virtual_server_hash sha256_hex vs backends = sha256_hex (
    virtual_server_text vs
    ++ "backends="
    ++ desired_backend_hash sha256_hex vs.frontend_port vs.backend_node_port backends)

-- graphVirtualServerName
unfoldable pub graph_virtual_server_name : String → String
graph_virtual_server_name key = (cut key).0

-- graphPoolKey: the first two parts of a key, or the empty text.
unfoldable pub graph_pool_key : String → String
graph_pool_key key =
    let (first, rest) = cut key in elim rest [ none ↦ "" | some s ↦ first ++ "/" ++ (cut s).0 ]

abbrev pub stack_pool : String → List Pool → Option Pool
stack_pool name [] = none
stack_pool name (pool ∷ pools) = if pool.name == name then some pool else stack_pool name pools

abbrev find_port : ℤ → List ServicePort → List BackendMember
find_port frontend_port [] = []
find_port frontend_port (port ∷ ports) =
    if port.frontend_port == frontend_port then port.backends else find_port frontend_port ports

-- stackBackends
unfoldable pub stack_backends : LoadBalancerStack → VirtualServer → List BackendMember
stack_backends stack vs = elim (stack_pool vs.default_pool_name stack.pools) [
  | some pool ↦ pool.members
  | none ↦ find_port vs.frontend_port stack.ports
]

abbrev rule_pools : List RoutingRule → List String
rule_pools [] = []
rule_pools (rule ∷ rules) = rule.pool_name ∷ rule_pools rules

-- The pools that a listener needs: its default pool and those of the routing rules.
abbrev needed_pools : LoadBalancerStack → VirtualServer → List String
needed_pools stack vs =
    let named = rule_pools stack.routing_rules in
    if vs.default_pool_name != "" then vs.default_pool_name ∷ named else named

unfoldable pub pools_named : List String → List Pool → List Pool
pools_named names [] = []
pools_named names (pool ∷ pools) =
    let rest = pools_named names pools in if contains pool.name names then pool ∷ rest else rest

-- poolsForVirtualServer
unfoldable pub pools_for_virtual_server : LoadBalancerStack → VirtualServer → List Pool
pools_for_virtual_server stack vs = pools_named (needed_pools stack vs) stack.pools

abbrev pub pool_graph_key : VirtualServer → Pool → String
pool_graph_key vs pool = vs.name ++ "/" ++ pool.name
