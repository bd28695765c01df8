-- ===== src/Obsolete/Aliases.antt =====
-- dropMigratedLegacyAliases: what it keeps.
-- A map: no key stands twice.
use mathlib.Core.Path.{subst}
use garden_extension_f5_loca.Prelude.{
  Bool-cases, Option-cases, String, [], ap, arith, eq_iff, inl, inr, int_eq, nat_eq, none, refl,
  some, string_eq, sym, true, ◌==◌, ◌↔◌, ◌∙◌, ◌∷◌, ◌≡◌, ◌≢◌, ◌⊎◌,
}
use garden_extension_f5_loca.Cleanup.Recorded.{IsIn}
use garden_extension_f5_loca.Dict.{delete, lookup, lookup-delete}
use garden_extension_f5_loca.Observed.{Bucket, ObservedGraph, ObservedResource}
use garden_extension_f5_loca.Obsolete.{drop_alias, drop_migrated_legacy_aliases, is_elsewhere}

abbrev pub IsMap : Bucket → Type 0
IsMap [] = Unit
IsMap ((key, r) ∷ bucket) = (lookup key bucket ≡ none) × IsMap bucket

delete_absent :
    (key : String) (bucket : Bucket) → lookup key bucket ≡ none → delete key bucket ≡ bucket
unfolding lookup delete
delete_absent key [] h = refl
delete_absent key ((k, r) ∷ bucket) h = ground (arith, delete_absent key bucket)

is_elsewhere-IsIn :
    (legacy id : String) (bucket : Bucket)
    → is_elsewhere legacy id bucket ≡ true
    → IsIn id (delete legacy bucket)
unfolding is_elsewhere delete
is_elsewhere-IsIn legacy id [] h = ground arith
is_elsewhere-IsIn legacy id ((key, r) ∷ bucket) h =
    ground (arith, is_elsewhere-IsIn legacy id bucket, eq_iff r.external_id id, eq_iff key legacy)

IsIn-of_delete :
    (legacy id : String) (bucket : Bucket) → IsIn id (delete legacy bucket) → IsIn id bucket
unfolding delete
IsIn-of_delete legacy id [] h = h
IsIn-of_delete legacy id ((key, r) ∷ bucket) h = ground (arith, IsIn-of_delete legacy id bucket)

-- An id of another entry stays.
IsIn-delete :
    (legacy id : String) (bucket : Bucket) (r : ObservedResource)
    → IsMap bucket
    → lookup legacy bucket ≡ some r
    → id ≢ r.external_id
    → IsIn id bucket
    → IsIn id (delete legacy bucket)
unfolding lookup delete
IsIn-delete legacy id [] r m l n h = h
IsIn-delete legacy id ((key, s) ∷ bucket) r m l n h = ground (
  arith,
  IsIn-delete legacy id bucket r m.1,
  eq_iff key legacy,
  delete_absent legacy bucket,
  ap (λ x. x.external_id) {x = s} {y = r},
)

lookup-IsIn :
    (key : String) (r : ObservedResource) (bucket : Bucket)
    → lookup key bucket ≡ some r
    → IsIn r.external_id bucket
unfolding lookup
lookup-IsIn key r [] h = cc
lookup-IsIn key r ((k, s) ∷ bucket) h = ground (arith, lookup-IsIn key r bucket, eq_iff k key)

-- An alias is kept, or another entry has its id.
drop_alias_cases :
    (legacy : String) (bucket : Bucket)
    → (drop_alias legacy bucket ≡ bucket)
      ⊎ ((r : ObservedResource) × (lookup legacy bucket ≡ some r)
          × (is_elsewhere legacy r.external_id bucket ≡ true)
          × (drop_alias legacy bucket ≡ delete legacy bucket))
unfolding drop_alias
drop_alias_cases legacy bucket = elim (Option-cases (lookup legacy bucket)) [
  | inl e ↦ inl (ground arith)
  | inr (r, e) ↦ elim (Bool-cases (r.external_id == "")) [
    | inl b ↦ inl (ground arith)
    | inr b ↦ elim (Bool-cases (is_elsewhere legacy r.external_id bucket)) [
      | inl c ↦ inr (r, e, c, ground arith)
      | inr c ↦ inl (ground arith)
    ]
  ]
]

-- Other keys are left alone.
pub lookup-drop_alias :
    (legacy k : String) (bucket : Bucket)
    → legacy ≢ k
    → lookup k (drop_alias legacy bucket) ≡ lookup k bucket
lookup-drop_alias legacy k bucket n = elim (drop_alias_cases legacy bucket) [
  | inl e ↦ ap (lookup k) e
  | inr (r, e, c, q) ↦
      ap (lookup k) q ∙ ground (arith, lookup-delete legacy k bucket, eq_iff legacy k)
]

-- A bucket keeps the ids that it records when an alias is dropped.
drop_alias-ids :
    (legacy id : String) (bucket : Bucket)
    → IsMap bucket
    → IsIn id (drop_alias legacy bucket) ↔ IsIn id bucket
drop_alias-ids legacy id bucket m = elim (drop_alias_cases legacy bucket) [
  | inl e ↦ subst (λ b. IsIn id b ↔ IsIn id bucket) (sym e) ((λ h. h), (λ h. h))
  | inr (r, e, c, q) ↦
      subst (λ b. IsIn id b ↔ IsIn id bucket) (sym q)
        (
          IsIn-of_delete legacy id bucket,
          λ h. elim (Bool-cases (id == r.external_id)) [
            | inl same ↦
                subst (λ x. IsIn x (delete legacy bucket)) (sym ((eq_iff id r.external_id).0 same))
                  (is_elsewhere-IsIn legacy r.external_id bucket c)
            | inr other ↦
                IsIn-delete legacy id bucket r m e (ground (arith, eq_iff id r.external_id)) h
          ],
        )
]

-- Dropping the aliases of migrated scalar ids forgets no provider resource: the graph records the same ids
-- of LB services, of VIPs and of virtual servers before and after, where each bucket is a map.
pub drop_migrated_legacy_aliases-ids :
    (g : ObservedGraph)
    → IsMap g.lb_services
    → IsMap g.vips
    → IsMap g.virtual_servers
    → (let dropped = drop_migrated_legacy_aliases g in
        (id : String)
        → (IsIn id dropped.lb_services ↔ IsIn id g.lb_services)
          × (IsIn id dropped.vips ↔ IsIn id g.vips)
          × (IsIn id dropped.virtual_servers ↔ IsIn id g.virtual_servers))
unfolding drop_migrated_legacy_aliases
drop_migrated_legacy_aliases-ids g s v l id = (
  drop_alias-ids "legacy/lb-service" id g.lb_services s,
  drop_alias-ids "legacy/vip" id g.vips v,
  drop_alias-ids "legacy/virtual-server" id g.virtual_servers l,
)
