-- ===== src/Nodes/Targets.antt =====
-- The backends of a Service with the local traffic policy.
use Prim.Native.String.{◌++◌}
use mathlib.Core.Path.{subst}
use garden_extension_f5_loca.Prelude.{
  All, All-imp, Bool-cases, List, Option, Option-cases, String, [], ap, arith, eq_iff, inl, inr,
  int_eq, nat_eq, none, refl, some, string_eq, sym, true, ℕ, ℤ, ◌==◌, ◌∙◌, ◌∷◌, ◌≡◌, ◌≢◌, ◌⊎◌,
}
use garden_extension_f5_loca.Dict.{contains, lookup}
use garden_extension_f5_loca.Exec.{Result, err, ok}
use garden_extension_f5_loca.Nodes.{
  Counts, KubeNode, Node, Reader, ServiceRef, add_target, backend_ip, backend_node, collect,
  deduplicate_nodes, drop_seen, for_port, from_nodes, is_node_ready,
  list_ready_node_backends_for_port, nodes_with_ready_endpoints_for_port, weigh_for_port,
}
use garden_extension_f5_loca.Text.{trim_space}

abbrev pub IsAmong : {A : Type 0} → A → List A → Type 0
IsAmong a [] = ⊥
IsAmong a (b ∷ bs) = (a ≡ b) ⊎ IsAmong a bs

-- The backend is a node that was weighed, with an address.
abbrev pub IsTarget : (KubeNode → Option ℤ) → List KubeNode → Node → Type 0
IsTarget chosen nodes target =
    (node : KubeNode) × (weight : ℤ) × IsAmong node nodes
    × (chosen node ≡ some weight)
    × (backend_ip node ≢ "")
    × (target ≡ backend_node node weight)

module _ (chosen : KubeNode → Option ℤ) (all : List KubeNode) where
  add_target-IsTarget :
      (node : KubeNode) (o : Option ℤ) (rest : List Node)
      → chosen node ≡ o
      → IsAmong node all
      → All (IsTarget chosen all) rest
      → All (IsTarget chosen all) (add_target node o rest)
  unfolding add_target
  add_target-IsTarget node none rest e i h = h
  add_target-IsTarget node (some weight) rest e i h = elim (Bool-cases (backend_ip node == "")) [
    | inl b ↦ rw b h
    | inr b ↦ rw b ((node, weight, i, e, ground (arith, eq_iff (backend_ip node) ""), refl), h)
  ]

  collect-IsTarget :
      (nodes : List KubeNode)
      → ((n : KubeNode) → IsAmong n nodes → IsAmong n all)
      → All (IsTarget chosen all) (collect chosen nodes)
  unfolding collect
  collect-IsTarget [] h = tt
  collect-IsTarget (node ∷ nodes) h =
      add_target-IsTarget node (chosen node) _ refl (h node (inl refl))
        (collect-IsTarget nodes (λ n i. h n (inr i)))

drop_seen-All :
    (P : Node → Type 0) (seen : List String) (nodes : List Node)
    → All P nodes
    → All P (drop_seen seen nodes)
unfolding drop_seen
drop_seen-All P seen [] h = tt
drop_seen-All P seen (node ∷ nodes) h =
    let key = trim_space node.compute_id ++ "|" ++ trim_space node.ip in
    elim (Bool-cases (contains key seen)) [
      | inl e ↦ rw e (drop_seen-All P seen nodes h.1)
      | inr e ↦ rw e (h.0, drop_seen-All P (key ∷ seen) nodes h.1)
    ]

from_nodes-IsTarget :
    (chosen : KubeNode → Option ℤ) (r : Result (List KubeNode)) (targets : List Node)
    → from_nodes chosen r ≡ ok targets
    → (nodes : List KubeNode) × (r ≡ ok nodes) × All (IsTarget chosen nodes) targets
unfolding deduplicate_nodes
from_nodes-IsTarget chosen (ok nodes) targets h = (
  nodes,
  refl,
  subst (All (IsTarget chosen nodes)) (ground arith) (
      drop_seen-All (IsTarget chosen nodes) [] (collect chosen nodes)
        (collect-IsTarget chosen nodes nodes (λ n i. i))),
)
from_nodes-IsTarget chosen (err e) targets h = absurd (ground arith)

-- A ready node with an address, and with ready endpoints of the Service by the count.
abbrev pub IsLocalTarget : Counts → List KubeNode → Node → Type 0
IsLocalTarget counts nodes target =
    (node : KubeNode) × (n : ℕ) × IsAmong node nodes
    × (is_node_ready node ≡ true)
    × (lookup node.name counts ≡ some n)
    × (target.ip ≢ "")
    × (target.node_name ≡ node.name)

weighed-local :
    (counts : Counts) (node : KubeNode) (weight : ℤ)
    → weigh_for_port counts node ≡ some weight
    → (is_node_ready node ≡ true) × ((n : ℕ) × (lookup node.name counts ≡ some n))
unfolding weigh_for_port
weighed-local counts node weight h = elim (Option-cases (lookup node.name counts)) [
  | inl e ↦ absurd (ground arith)
  | inr (n, e) ↦ (ground arith, (n, e))
]

-- With the local traffic policy the backends that are listed for a Service port are none, or listed nodes that
-- are ready and counted among those with ready endpoints of that port, each with an address.
pub list_ready_node_backends_for_port-IsLocalTarget :
    (reader : Reader) (svc : ServiceRef) (name : String) (number : ℤ) (targets : List Node)
    → svc.is_local ≡ true
    → list_ready_node_backends_for_port reader (some svc) name number ≡ ok targets
    → (targets ≡ [])
      ⊎ ((nodes : List KubeNode) × (reader.nodes ≡ ok nodes)
          × All
              (IsLocalTarget
                (nodes_with_ready_endpoints_for_port reader (some svc) name number)
                nodes)
              targets)
unfolding list_ready_node_backends_for_port
list_ready_node_backends_for_port-IsLocalTarget reader svc name number targets l h =
    go (nodes_with_ready_endpoints_for_port reader (some svc) name number) h
  where
    go :
        (counts : Counts)
        → for_port reader (some svc) counts ≡ ok targets
        → (targets ≡ [])
          ⊎ ((nodes : List KubeNode) × (reader.nodes ≡ ok nodes)
              × All (IsLocalTarget counts nodes) targets)
    go [] q = inl (ground arith)
    go (c ∷ counts) q =
        let (nodes, r, all) =
          from_nodes-IsTarget (weigh_for_port (c ∷ counts)) reader.nodes targets q in
        inr (
          nodes,
          r,
          All-imp _ (IsLocalTarget (c ∷ counts) nodes) targets
              (λ t (node, weight, i, e, a, same).
                let (ready, (n, found)) = weighed-local (c ∷ counts) node weight e in
                (
                  node,
                  n,
                  i,
                  ready,
                  found,
                  (λ z. a (ap (λ x. x.ip) (sym same) ∙ z)),
                  ap (λ x. x.node_name) same,
                ))
              all,
        )
