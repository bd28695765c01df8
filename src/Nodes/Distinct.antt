-- ===== src/Nodes/Distinct.antt =====
-- deduplicateNodes: one node for each compute and address.
use garden_extension_f5_loca.Prelude.{
  Bool-cases, List, String, [], arith, eq_iff, false, inl, inr, refl, true, ◌∷◌, ◌≡◌,
}
use garden_extension_f5_loca.Dict.{contains}
use garden_extension_f5_loca.Nodes.{Node, deduplicate_nodes, drop_seen, node_key}

abbrev pub keys : List Node → List String
keys [] = []
keys (node ∷ nodes) = node_key node ∷ keys nodes

-- No key stands twice.
abbrev pub AllDistinct : List String → Type 0
AllDistinct [] = Unit
AllDistinct (k ∷ ks) = (contains k ks ≡ false) × AllDistinct ks

drop_seen-fresh :
    (k : String) (seen : List String) (nodes : List Node)
    → contains k seen ≡ true
    → contains k (keys (drop_seen seen nodes)) ≡ false
unfolding drop_seen contains
drop_seen-fresh k seen [] h = refl
drop_seen-fresh k seen (node ∷ nodes) h =
    let key = node_key node in
    elim (Bool-cases (contains key seen)) [
      | inl e ↦ rw e (drop_seen-fresh k seen nodes h)
      | inr e ↦ rw e (ground (arith, drop_seen-fresh k (key ∷ seen) nodes, eq_iff key k))
    ]

drop_seen-AllDistinct :
    (seen : List String) (nodes : List Node) → AllDistinct (keys (drop_seen seen nodes))
unfolding drop_seen contains
drop_seen-AllDistinct seen [] = tt
drop_seen-AllDistinct seen (node ∷ nodes) =
    let key = node_key node in
    elim (Bool-cases (contains key seen)) [
      | inl e ↦ rw e (drop_seen-AllDistinct seen nodes)
      | inr e ↦ rw e (
        drop_seen-fresh key (key ∷ seen) nodes (ground (arith, eq_iff key key)),
        drop_seen-AllDistinct (key ∷ seen) nodes,
      )
    ]

drop_seen-covers :
    (k : String) (seen : List String) (nodes : List Node)
    → contains k seen ≡ false
    → contains k (keys (drop_seen seen nodes)) ≡ contains k (keys nodes)
unfolding drop_seen contains
drop_seen-covers k seen [] h = refl
drop_seen-covers k seen (node ∷ nodes) h =
    let key = node_key node in
    elim (Bool-cases (contains key seen)) [
      | inl e ↦ rw e (ground (arith, drop_seen-covers k seen nodes, eq_iff key k))
      | inr e ↦ rw e (ground (arith, drop_seen-covers k (key ∷ seen) nodes, eq_iff key k))
    ]

-- Removing duplicates leaves one node for each pair of a compute id and an address: the keys of what is left
-- differ from each other, and they are the keys of the nodes that were given.
pub deduplicate_nodes-AllDistinct :
    (nodes : List Node)
    → AllDistinct (keys (deduplicate_nodes nodes))
      × ((k : String) → contains k (keys (deduplicate_nodes nodes)) ≡ contains k (keys nodes))
unfolding deduplicate_nodes contains
deduplicate_nodes-AllDistinct nodes =
    (drop_seen-AllDistinct [] nodes, λ k. drop_seen-covers k [] nodes refl)
