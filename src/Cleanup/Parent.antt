-- ===== src/Cleanup/Parent.antt =====
-- The one LB service that a cleanup works on.
use garden_extension_f5_loca.Prelude.{
  All, All-imp, Bool-cases, List, String, [], arith, eq_iff, inl, inr, int_eq, nat_eq, string_eq,
  true, ◌==◌, ◌∷◌, ◌≡◌, ◌⊎◌,
}
use garden_extension_f5_loca.Cleanup.{add_id, cleanup_lb_service_id, parent_ids, the_only}
use garden_extension_f5_loca.Dict.{contains}
use garden_extension_f5_loca.Exec.{ok}
use garden_extension_f5_loca.Observed.{Bucket, ObservedState}
use garden_extension_f5_loca.Text.{trim_space}

parent_ids-contains :
    (x : String) (bucket : Bucket) (ids : List String)
    → contains x ids ≡ true
    → contains x (parent_ids bucket ids) ≡ true
unfolding parent_ids contains
parent_ids-contains x [] ids h = h
parent_ids-contains x ((key, r) ∷ bucket) ids h =
    parent_ids-contains x bucket (add_id (trim_space r.external_id) ids) (ground arith)

-- Blank, or in the list.
abbrev IsCounted : List String → String → Type 0
IsCounted ids x = (x ≡ "") ⊎ (contains x ids ≡ true)

add_id-IsCounted : (x : String) (ids : List String) → IsCounted (add_id x ids) x
unfolding contains
add_id-IsCounted x ids = elim (Bool-cases (x == "")) [
  | inl e ↦ inl (ground (arith, eq_iff x ""))
  | inr e ↦ inr (ground (arith, eq_iff x x))
]

abbrev pub AllEntries : (String → Type 0) → Bucket → Type 0
AllEntries P = All λ entry. P (trim_space entry.1.external_id)

parent_ids-IsCounted :
    (bucket : Bucket) (ids : List String) → AllEntries (IsCounted (parent_ids bucket ids)) bucket
unfolding parent_ids
parent_ids-IsCounted [] ids = tt
parent_ids-IsCounted ((key, r) ∷ bucket) ids =
    let x = trim_space r.external_id in
    (
      elim (add_id-IsCounted x ids) [
        | inl e ↦ inl e
        | inr e ↦ inr (parent_ids-contains x bucket (add_id x ids) e)
      ],
      parent_ids-IsCounted bucket (add_id x ids),
    )

the_only-counted :
    (ids : List String) (id x : String)
    → the_only ids ≡ ok id
    → IsCounted ids x
    → (x ≡ "") ⊎ (x ≡ id)
unfolding the_only contains
the_only-counted ids id x h (inl e) = inl e
the_only-counted [] id x h (inr e) = cc
the_only-counted (i ∷ []) id x h (inr e) = inr (ground (arith, eq_iff i x))
the_only-counted (i ∷ j ∷ ids) id x h (inr e) = cc

-- Where the parent is settled, each id that is recorded for it, the scalar one and those of the graph,
-- is blank or the settled one, spaces around it aside: two different ids are never resolved to one.
pub cleanup_lb_service_id-only :
    (current : ObservedState) (id : String)
    → cleanup_lb_service_id current ≡ ok id
    → ((trim_space current.lb_service_id ≡ "") ⊎ (trim_space current.lb_service_id ≡ id))
      × AllEntries (λ x. (x ≡ "") ⊎ (x ≡ id)) current.graph.lb_services
unfolding cleanup_lb_service_id
cleanup_lb_service_id-only current id h =
    let bucket = current.graph.lb_services in
    let x = trim_space current.lb_service_id in
    let ids = parent_ids bucket (add_id x []) in
    (
      the_only-counted ids id x h (elim (add_id-IsCounted x []) [
        | inl e ↦ inl e
        | inr e ↦ inr (parent_ids-contains x bucket (add_id x []) e)
      ]),
      All-imp (λ entry. IsCounted ids (trim_space entry.1.external_id))
          (λ entry. (trim_space entry.1.external_id ≡ "") ⊎ (trim_space entry.1.external_id ≡ id))
          bucket (λ entry c. the_only-counted ids id _ h c)
          (parent_ids-IsCounted bucket (add_id x [])),
    )
