-- ===== src/Groups/Members.antt =====
-- ResolveGroup: the order of the candidates does not matter.
use mathlib.Core.Logic.{∥∥₁_elim, ∥∥₁_prop}
use mathlib.Core.List.Perm
use mathlib.Core.List.{Permᴰ}
use mathlib.Core.List.{cons≢nil}
use garden_extension_f5_loca.Prelude.{
  Bool, Bool-cases, List, Perm, [], inl, inr, map, refl, sort_by-Perm, sym, ◌∷◌, ◌≡◌,
}
use garden_extension_f5_loca.Groups.{Candidate, belongs, or_anchor, resolve_group, select}
use garden_extension_f5_loca.Text.Order.{string_order}

module _ (test : Candidate → Bool) where
  select-eq :
      (a b : Candidate) (xs ys : List Candidate)
      → a ≡ b
      → Perm (select test xs) (select test ys)
      → Perm (select test (a ∷ xs)) (select test (b ∷ ys))
  unfolding select
  select-eq a b xs ys e p = elim (Bool-cases (test b)) [
    | inl t ↦ rw (e, t) (Perm.cons b p)
    | inr t ↦ rw (e, t) p
  ]

  select-swap :
      (a b : Candidate) (xs : List Candidate)
      → Perm (select test (a ∷ b ∷ xs)) (select test (b ∷ a ∷ xs))
  unfolding select
  select-swap a b xs = elim (Bool-cases (test a)) [
    | inl t ↦ elim (Bool-cases (test b)) [
      | inl u ↦ rw (t, u) (Perm.swap b a (select test xs))
      | inr u ↦ rw (t, u) Perm.rfl
    ]
    | inr t ↦ elim (Bool-cases (test b)) [ inl u ↦ rw (t, u) Perm.rfl | inr u ↦ rw (t, u) Perm.rfl ]
  ]

  select-Permᴰ : {xs ys : List Candidate} → Permᴰ xs ys → Perm (select test xs) (select test ys)
  unfolding select
  select-Permᴰ Permᴰ.nil = Perm.nil
  select-Permᴰ (Permᴰ.cons {a} {b} e p) = select-eq a b _ _ e (select-Permᴰ p)
  select-Permᴰ (Permᴰ.swap {a} {b} {a'} {b'} {l} e f) = rw (e, f) (select-swap b' a' l)
  select-Permᴰ (Permᴰ.trans p q) = Perm.trans (select-Permᴰ p) (select-Permᴰ q)

  select-Perm : {xs ys : List Candidate} → Perm xs ys → Perm (select test xs) (select test ys)
  select-Perm p = ∥∥₁_elim p ∥∥₁_prop select-Permᴰ

or_anchor-Perm :
    (anchor : Candidate) (xs ys : List Candidate)
    → Perm xs ys
    → Perm (or_anchor anchor xs) (or_anchor anchor ys)
or_anchor-Perm anchor [] [] p = Perm.rfl
or_anchor-Perm anchor (x ∷ xs) (y ∷ ys) p = p
or_anchor-Perm anchor [] (y ∷ ys) p = absurd (cons≢nil (sym (Perm.nil-eq p)))
or_anchor-Perm anchor (x ∷ xs) [] p = absurd (cons≢nil (Perm.eq-nil p))

-- The group of an Ingress does not depend on the order in which the Ingresses are listed: for every order of the
-- candidates the members have the same names in the same order, and the group has the same
-- identity.
pub resolve_group-Perm :
    (anchor : Candidate) {xs ys : List Candidate}
    → Perm xs ys
    → (map (λ (c : Candidate). c.name) (resolve_group anchor xs).0
        ≡ map (λ (c : Candidate). c.name) (resolve_group anchor ys).0)
      × ((resolve_group anchor xs).1 ≡ (resolve_group anchor ys).1)
unfolding resolve_group
resolve_group-Perm anchor {xs} {ys} p = (
  sort_by-Perm string_order (λ (c : Candidate). c.name)
      (or_anchor-Perm anchor _ _ (select-Perm (belongs anchor) p)),
  refl,
)
