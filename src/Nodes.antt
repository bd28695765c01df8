-- ===== src/Nodes.antt =====
-- pkg/backend/nodes.go: the nodes that a load balancer may target. What the Kubernetes client lists is a
-- parameter: the nodes, and the EndpointSlices of a Service; one run reads each list as often as it
-- likes and finds it the same.
pub mod Targets
pub mod Distinct
use Prim.Native.Char.{code}
use Prim.Native.String.{[] as nil, ◌∷◌ as cons, ◌++◌}
use garden_extension_f5_loca.Prelude.{
  Bool, List, Option, String, [], false, if◌then◌else◌, int_eq, ltb, nat_eq, none, not, pos, some,
  string_eq, true, ℕ, ℤ, ◌!=◌, ◌&&◌, ◌*◌, ◌+◌, ◌==◌, ◌||◌, ◌∷◌,
}
use garden_extension_f5_loca.Dict.{contains, insert, lookup, lookup_text}
use garden_extension_f5_loca.Exec.{Result, err, ok}
use garden_extension_f5_loca.Monitors.Single.{matches}
use garden_extension_f5_loca.Text.{trim_space}
use garden_extension_f5_loca.Text.Cut.{cut}

-- Node
pub record Node : Type 0 where
  pub node_name : String
  pub provider_id : String
  pub compute_id : String
  pub ip : String
  pub weight : ℤ

-- What the code reads of a Kubernetes node; conditions and addresses are pairs of a type and a value.
pub record KubeNode : Type 0 where
  pub name : String
  pub provider_id : String
  pub annotations : List (String × String)
  pub conditions : List (String × String)
  pub addresses : List (String × String)

pub record Endpoint : Type 0 where
  pub ready : Option Bool
  pub node_name : Option String

-- An EndpointSlice: its ports by name and number, and its endpoints.
pub record Slice : Type 0 where
  pub ports : List (Option String × Option ℤ)
  pub endpoints : List Endpoint

-- The Service, as far as it matters here.
pub record ServiceRef : Type 0 where
  pub name : String
  pub namespace : String
  pub is_local : Bool

-- The answers of the Kubernetes client: the nodes, and the slices by namespace and Service name.
pub record Reader : Type 0 where
  pub nodes : Result (List KubeNode)
  pub slices : String → String → Result (List Slice)

-- The first condition of the type decides.
ready_by : List (String × String) → Bool
ready_by [] = false
ready_by ((type, status) ∷ conditions) =
    if type == "Ready" then status == "True" else ready_by conditions

-- IsNodeReady
unfoldable pub is_node_ready : KubeNode → Bool
unfolding ready_by
is_node_ready node = ready_by node.conditions

first_internal : List (String × String) → String
first_internal [] = ""
first_internal ((type, address) ∷ addresses) =
    if type == "InternalIP" && trim_space address != ""
    then trim_space address
    else first_internal addresses

-- InternalIP
unfoldable pub internal_ip : KubeNode → String
unfolding first_internal
internal_ip node = first_internal node.addresses

abbrev backend_ip_key : String
backend_ip_key = "f5.extensions.gardener.cloud/backend-ip"

abbrev compute_id_key : String
compute_id_key = "f5.extensions.gardener.cloud/cmp-compute-id"

-- backendIP
unfoldable pub backend_ip : KubeNode → String
backend_ip node =
    let annotated = trim_space (lookup_text backend_ip_key node.annotations) in
    if annotated != "" then annotated else internal_ip node

-- What follows a prefix.
unfoldable pub after_prefix : String → String → Option String
after_prefix nil s = some s
after_prefix (cons c p) nil = none
after_prefix (cons c p) (cons d s) =
    let rest = after_prefix p s in if code c == code d then rest else none

-- The two parts of a text with one slash.
abbrev two_parts : String → Option (String × String)
two_parts s =
    let (first, rest) = cut s in
    elim rest [ none ↦ none | some t ↦ elim (cut t).1 [ none ↦ some (first, t) | some _ ↦ none ] ]

-- The compute id after `apc:///`, where it has a region and an id.
unfoldable pub apc_id : String → Option String
apc_id provider_id = elim (after_prefix "apc:///" provider_id) [
  | none ↦ none
  | some path ↦ elim (two_parts path) [
    | none ↦ none
    | some (region, id) ↦
        if trim_space region != "" && trim_space id != "" then some (trim_space id) else none
  ]
]

-- ComputeID
unfoldable pub compute_id : KubeNode → String
compute_id node =
    let provider_id = trim_space node.provider_id in
    elim (after_prefix "cmp://" provider_id) [
      | some id ↦ trim_space id
      | none ↦ elim (apc_id provider_id) [
        | some id ↦ id
        | none ↦ trim_space (lookup_text compute_id_key node.annotations)
      ]
    ]

-- The counts of ready endpoints by node name.
abbrev pub Counts : Type 0
Counts = List (String × ℕ)

unfoldable pub bump : String → Counts → Counts
bump name counts =
    let old : ℕ = elim (lookup name counts) [ none ↦ 0 | some n ↦ n ] in
    insert name (old + 1) counts

abbrev pub is_unready : Option Bool → Bool
is_unready (some false) = true
is_unready _ = false

unfoldable pub count_endpoint : Endpoint → Counts → Counts
count_endpoint ep counts = elim ep.node_name [
  | none ↦ counts
  | some name ↦ if is_unready ep.ready || name == "" then counts else bump name counts
]

unfoldable pub count_endpoints : List Endpoint → Counts → Counts
count_endpoints [] counts = counts
count_endpoints (ep ∷ endpoints) counts = count_endpoints endpoints (count_endpoint ep counts)

unfoldable pub count_slices : (Slice → Bool) → List Slice → Counts → Counts
count_slices matches [] counts = counts
count_slices matches (slice ∷ slices) counts =
    let next = if matches slice then count_endpoints slice.endpoints counts else counts in
    count_slices matches slices next

abbrev pub listed_or_none : Result (List Slice) → List Slice
listed_or_none (ok slices) = slices
listed_or_none (err e) = []

abbrev pub counts_of : (Slice → Bool) → Reader → Option ServiceRef → Counts
counts_of matches reader none = []
counts_of matches reader (some svc) =
    count_slices matches (listed_or_none (reader.slices svc.namespace svc.name)) []

-- nodesWithReadyEndpoints; nil and the empty map are both the empty list.
unfoldable pub nodes_with_ready_endpoints : Reader → Option ServiceRef → Counts
nodes_with_ready_endpoints reader svc = counts_of (λ slice. true) reader svc

-- A port of a slice matches by name, or by number where the Service port has no name.
unfoldable pub matches_port : String → ℤ → List (Option String × Option ℤ) → Bool
matches_port name number [] = false
matches_port name number ((slice_name, slice_number) ∷ ports) =
    let rest = matches_port name number ports in
    if name != ""
    then elim slice_name [ none ↦ rest | some n ↦ n == name || rest ]
    else elim slice_number [ none ↦ rest | some p ↦ p == number || rest ]

-- nodesWithReadyEndpointsForPort
unfoldable pub nodes_with_ready_endpoints_for_port :
    Reader → Option ServiceRef → String → ℤ → Counts
nodes_with_ready_endpoints_for_port reader svc name number =
    counts_of (λ slice. matches_port name number slice.ports) reader svc

abbrev pub backend_node : KubeNode → ℤ → Node
backend_node node weight = record {
  node_name = node.name;
  provider_id = trim_space node.provider_id;
  compute_id = compute_id node;
  ip = backend_ip node;
  weight = weight;
}

-- The loops over the nodes; the function gives a node its weight, or none where it is passed over.
unfoldable pub add_target : KubeNode → Option ℤ → List Node → List Node
add_target node none rest = rest
add_target node (some weight) rest =
    if backend_ip node != "" then backend_node node weight ∷ rest else rest

unfoldable pub collect : (KubeNode → Option ℤ) → List KubeNode → List Node
collect weigh [] = []
collect weigh (node ∷ nodes) = add_target node (weigh node) (collect weigh nodes)

abbrev pub node_key : Node → String
node_key node = trim_space node.compute_id ++ "|" ++ trim_space node.ip

-- deduplicateNodes, with the keys that were seen.
unfoldable pub drop_seen : List String → List Node → List Node
drop_seen seen [] = []
drop_seen seen (node ∷ nodes) =
    let key = node_key node in
    let skip = drop_seen seen nodes in
    let keep = drop_seen (key ∷ seen) nodes in if contains key seen then skip else node ∷ keep

unfoldable pub deduplicate_nodes : List Node → List Node
deduplicate_nodes nodes = drop_seen [] nodes

abbrev pub is_local_service : Option ServiceRef → Bool
is_local_service none = false
is_local_service (some svc) = svc.is_local

abbrev pub weight_of : ℕ → ℤ
weight_of n = if ltb 0 n then pos (n * 50) else pos 50

-- The weight of a node by its ready endpoints; without any, local traffic has no target and other traffic
-- falls back to every ready node.
unfoldable pub weigh_ready : Counts → Bool → KubeNode → Option ℤ
weigh_ready [] is_local node = if is_local then none else some (pos 50)
weigh_ready (c ∷ counts) is_local node = elim (lookup node.name (c ∷ counts)) [
  | none ↦ none
  | some n ↦ some (weight_of n)
]

unfoldable pub weigh : Counts → Bool → KubeNode → Option ℤ
weigh counts is_local node = if is_node_ready node then weigh_ready counts is_local node else none

abbrev pub from_nodes : (KubeNode → Option ℤ) → Result (List KubeNode) → Result (List Node)
from_nodes weigh (ok nodes) = ok (deduplicate_nodes (collect weigh nodes))
from_nodes weigh (err e) = err e

-- ListReadyNodeBackends
unfoldable pub list_ready_node_backends : Reader → Option ServiceRef → Result (List Node)
list_ready_node_backends reader svc =
    from_nodes (weigh (nodes_with_ready_endpoints reader svc) (is_local_service svc)) reader.nodes

unfoldable pub weigh_for_port : Counts → KubeNode → Option ℤ
weigh_for_port counts node =
    if not (is_node_ready node)
    then none
    else elim (lookup node.name counts) [ none ↦ none | some n ↦ some (pos (n * 50)) ]

abbrev pub for_port : Reader → Option ServiceRef → Counts → Result (List Node)
for_port reader svc [] = if is_local_service svc then ok [] else list_ready_node_backends reader svc
for_port reader svc (c ∷ counts) = from_nodes (weigh_for_port (c ∷ counts)) reader.nodes

-- ListReadyNodeBackendsForPort
unfoldable pub list_ready_node_backends_for_port :
    Reader → Option ServiceRef → String → ℤ → Result (List Node)
list_ready_node_backends_for_port reader svc name number =
    for_port reader svc (nodes_with_ready_endpoints_for_port reader svc name number)

-- ListNodeBackends
unfoldable pub list_node_backends : Reader → Result (List Node)
list_node_backends reader = from_nodes (λ node. some (pos 1)) reader.nodes

unfoldable pub internal_ips : List KubeNode → List String
internal_ips [] = []
internal_ips (node ∷ nodes) =
    let rest = internal_ips nodes in
    if internal_ip node != "" then internal_ip node ∷ rest else rest

-- ListNodeInternalIPs
unfoldable pub list_node_internal_ips : Reader → Result (List String)
list_node_internal_ips reader = elim reader.nodes [
  | ok nodes ↦ ok (internal_ips nodes)
  | err e ↦ err e
]
