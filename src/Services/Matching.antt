-- ===== src/Services/Matching.antt =====
-- BuildLoadBalancerStackWithPortBackends: one listener, pool and port for each port of the Service.
use mathlib.Core.Path.{subst}
use garden_extension_f5_loca.Prelude.{
  Bool-cases, List, String, [], ap, arith, eq_iff, false, inl, inr, int_beq_iff, int_eq,
  is_positive, map, nat_eq, none, pos, refl, some, string_eq, sym, true, ℤ, ◌==◌, ◌∷◌, ◌≡◌, ◌≢◌,
}
use garden_extension_f5_loca.Annotations.{LbConfig}
use garden_extension_f5_loca.Exec.{Done, Result, err, errorf, ok}
use garden_extension_f5_loca.Model.{
  BackendMember, LoadBalancerStack, Pool, ServicePort, VirtualServer,
}
use garden_extension_f5_loca.Nodes.{Node}
use garden_extension_f5_loca.Nodes.Targets.{IsAmong}
use garden_extension_f5_loca.Services.{
  PortSpec, Service, add_port, build_load_balancer_stack, build_parents, build_pool, build_port,
  build_ports, build_virtual_server, check_port, member_of, with_port,
}
use garden_extension_f5_loca.Stacks.{stack_backends, stack_pool}

-- The member is the node, on the node port; it weighs what the node weighs, where that is positive,
-- and otherwise 1.
abbrev pub IsMember : ℤ → Node → BackendMember → Type 0
IsMember node_port n m =
    (m.node_name ≡ n.node_name)
    × (m.provider_id ≡ n.provider_id)
    × (m.compute_id ≡ n.compute_id)
    × (m.ip ≡ n.ip)
    × (m.port ≡ node_port)
    × (is_positive n.weight ≡ true → m.weight ≡ n.weight)
    × (is_positive n.weight ≡ false → m.weight ≡ pos 1)

-- One member for each node, in their order.
abbrev pub AreMembers : ℤ → List Node → List BackendMember → Type 0
AreMembers node_port [] [] = Unit
AreMembers node_port (n ∷ nodes) (m ∷ members) =
    IsMember node_port n m × AreMembers node_port nodes members
AreMembers node_port _ _ = ⊥

-- The listener, the pool and the port belong to the port of the Service and to each other.
abbrev pub IsFor : PortSpec → List Node → VirtualServer → Pool → ServicePort → Type 0
IsFor p nodes vs pool port =
    (p.port ≢ pos 0)
    × (p.node_port ≢ pos 0)
    × (vs.frontend_port ≡ p.port)
    × (vs.backend_node_port ≡ p.node_port)
    × (vs.default_pool_name ≡ pool.name)
    × (port.frontend_port ≡ p.port)
    × (port.backends ≡ pool.members)
    × AreMembers p.node_port nodes pool.members

-- In the order of the ports, with no listener, pool or port left over.
abbrev pub Matches :
    (PortSpec → List Node)
    → List PortSpec
    → List VirtualServer
    → List Pool
    → List ServicePort
    → Type 0
Matches backends [] [] [] [] = Unit
Matches backends (p ∷ ps) (vs ∷ vss) (pool ∷ pools) (port ∷ ports) =
    IsFor p (backends p) vs pool port × Matches backends ps vss pools ports
Matches backends _ _ _ _ = ⊥

module _ (sha256_hex : String → String) (svc : Service) (cfg : LbConfig)
    (backends : PortSpec → List Node) where
  abbrev build : List PortSpec → Result LoadBalancerStack
  build ports = build_ports sha256_hex svc cfg backends ports

  member_of-AreMembers :
      (node_port : ℤ) (nodes : List Node)
      → AreMembers node_port nodes (map (member_of sha256_hex svc cfg node_port) nodes)
  unfolding member_of
  member_of-AreMembers node_port [] = tt
  member_of-AreMembers node_port (n ∷ nodes) = (
    (refl, refl, refl, refl, refl, (λ e. rw e refl), λ e. rw e refl),
    member_of-AreMembers node_port nodes,
  )

  check_port-ok :
      (p : PortSpec) (u : Done)
      → check_port sha256_hex svc cfg p ≡ ok u
      → (p.port ≢ pos 0) × (p.node_port ≢ pos 0)
  unfolding check_port
  check_port-ok p u h =
      (ground (arith, int_beq_iff p.port (pos 0)), ground (arith, int_beq_iff p.node_port (pos 0)))

  with_port-Matches :
      (p : PortSpec) (ports : List PortSpec) (c : Result Done) (r : Result LoadBalancerStack)
      (stack : LoadBalancerStack)
      → check_port sha256_hex svc cfg p ≡ c
      → ((s : LoadBalancerStack)
          → r ≡ ok s
          → Matches backends ports s.virtual_servers s.pools s.ports)
      → with_port sha256_hex svc cfg p (backends p) c r ≡ ok stack
      → Matches backends (p ∷ ports) stack.virtual_servers stack.pools stack.ports
  unfolding with_port build_virtual_server build_pool build_port
  with_port-Matches p ports (err e) r stack q h s = cc
  with_port-Matches p ports (ok u) (err e) stack q h s = cc
  with_port-Matches p ports (ok u) (ok rest) stack q h s =
      let (set, node_set) = check_port-ok p u q in
      let members = member_of-AreMembers p.node_port (backends p) in
      let same : add_port sha256_hex svc cfg p (backends p) rest ≡ stack = ground arith in
      subst (λ x. Matches backends (p ∷ ports) x.virtual_servers x.pools x.ports) same
        ((set, node_set, refl, refl, refl, refl, refl, members), h rest refl)

  build_ports-Matches :
      (ports : List PortSpec) (stack : LoadBalancerStack)
      → build ports ≡ ok stack
      → Matches backends ports stack.virtual_servers stack.pools stack.ports
  unfolding build_ports build_parents
  build_ports-Matches [] stack h =
      subst (λ x. Matches backends [] x.virtual_servers x.pools x.ports)
        {x = build_parents sha256_hex svc cfg} {y = stack} (ground arith) tt
  build_ports-Matches (p ∷ ports) stack h =
      with_port-Matches p ports _ _ stack refl (λ s e. build_ports-Matches ports s e) h

-- A stack that is built for a Service has, in the order of the Service's ports and with none left over, one listener,
-- one pool and one port for each: the listener's frontend and node port are the port's and neither is 0, its
-- default pool is the pool, and the members of the pool are the backend nodes in their order, each with the
-- node's name, provider id, compute id and address, on the node port, and with the node's weight, or 1
-- where that is not positive.
pub build_load_balancer_stack-Matches :
    (sha256_hex : String → String) (svc : Service) (cfg : LbConfig)
    (backends : PortSpec → List Node) (stack : LoadBalancerStack)
    → build_load_balancer_stack sha256_hex svc cfg backends ≡ ok stack
    → Matches backends svc.ports stack.virtual_servers stack.pools stack.ports
unfolding build_load_balancer_stack
build_load_balancer_stack-Matches sha256_hex svc cfg backends stack h =
    build_ports-Matches sha256_hex svc cfg backends svc.ports stack (given svc.ports h)
  where
    given :
        (ports : List PortSpec)
        → (elim ports as (λ x. Result LoadBalancerStack) [
          | [] ↦ err (errorf "service has no ports" [])
          | _ ∷ _ ↦ build_ports sha256_hex svc cfg backends svc.ports
        ])
          ≡ ok stack
        → build_ports sha256_hex svc cfg backends svc.ports ≡ ok stack
    given [] q = cc
    given (_ ∷ _) q = q

-- No two pools have one name.
abbrev pub HaveDistinctNames : List Pool → Type 0
HaveDistinctNames [] = Unit
HaveDistinctNames (pool ∷ pools) = (stack_pool pool.name pools ≡ none) × HaveDistinctNames pools

stack_pool-among :
    (pools : List Pool) (pool : Pool)
    → HaveDistinctNames pools
    → IsAmong pool pools
    → stack_pool pool.name pools ≡ some pool
stack_pool-among [] pool d i = absurd i
stack_pool-among (x ∷ pools) pool d (inl e) =
    rw (sym e) (ground (arith, eq_iff pool.name pool.name))
stack_pool-among (x ∷ pools) pool d (inr i) =
    let found = stack_pool-among pools pool d.1 i in
    elim (Bool-cases (x.name == pool.name)) [
      | inl e ↦
          absurd (
            ground
              (arith, found, d.0, ap (λ n. stack_pool n pools) ((eq_iff x.name pool.name).0 e)))
      | inr e ↦ rw e found
    ]

-- Each listener's backends in the stack are the members of its own pool.
abbrev pub OwnBackends : LoadBalancerStack → List VirtualServer → List Pool → Type 0
OwnBackends stack [] pools = Unit
OwnBackends stack (vs ∷ vss) [] = ⊥
OwnBackends stack (vs ∷ vss) (pool ∷ pools) =
    (stack_backends stack vs ≡ pool.members) × OwnBackends stack vss pools

own_backends :
    (stack : LoadBalancerStack) (backends : PortSpec → List Node) (ps : List PortSpec)
    (vss : List VirtualServer) (pools : List Pool) (ports : List ServicePort)
    → HaveDistinctNames stack.pools
    → ((pool : Pool) → IsAmong pool pools → IsAmong pool stack.pools)
    → Matches backends ps vss pools ports
    → OwnBackends stack vss pools
unfolding stack_backends
own_backends stack backends [] [] pools ports d h m = tt
own_backends stack backends (p ∷ ps) (vs ∷ vss) (pool ∷ pools) (port ∷ ports) d h (m, ms) =
    let (_, _, _, _, default, _, _, _) = m in
    let found = stack_pool-among stack.pools pool d (h pool (inl refl)) in
    (
      ground (arith, found, ap (λ n. stack_pool n stack.pools) default),
      own_backends stack backends ps vss pools ports d (λ x i. h x (inr i)) ms,
    )
own_backends stack backends _ _ _ _ d h m = absurd m

-- Where the pools of a built stack have different names, the deployer finds for each listener the members of the pool
-- that was built for the same port.
pub build_load_balancer_stack-OwnBackends :
    (sha256_hex : String → String) (svc : Service) (cfg : LbConfig)
    (backends : PortSpec → List Node) (stack : LoadBalancerStack)
    → build_load_balancer_stack sha256_hex svc cfg backends ≡ ok stack
    → HaveDistinctNames stack.pools
    → OwnBackends stack stack.virtual_servers stack.pools
build_load_balancer_stack-OwnBackends sha256_hex svc cfg backends stack h d =
    own_backends stack backends svc.ports stack.virtual_servers stack.pools stack.ports d (λ x i. i)
      (build_load_balancer_stack-Matches sha256_hex svc cfg backends stack h)
