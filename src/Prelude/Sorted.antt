-- ===== src/Prelude/Sorted.antt =====
-- Sorting by a key gives the same keys for every order of the list.
use mathlib.Core.Path.{◌≡◌, refl, ap, sym, ◌∙◌}
use mathlib.Core.Bool.{true}
use mathlib.Core.List.Permᴰ
use mathlib.Core.List
use mathlib.Core.List.{List, [], ◌∷◌, map, Perm, Permᴰ}
use mathlib.Core.Logic.{inl, inr, ∥∥₁_elim}
use mathlib.Core.HLevel.{hedberg}
use native.Mathlib.Omega.{arith}
use garden_extension_f5_loca.Prelude.Tests.{Bool-cases}
use garden_extension_f5_loca.Prelude.Orders.{Order, insert_by, sort_by}

module _ {K : Type 0} (order : Order K) where
  abbrev add : K → List K → List K
  add = insert_by order (λ k. k)

  add_swap : (a b : K) (xs : List K) → add a (add b xs) ≡ add b (add a xs)
  unfolding insert_by
  add_swap a b [] = ground (arith, order.asymm a b, order.asymm b a, order.antisymm a b)
  add_swap a b (c ∷ xs) = ground (
    arith,
    add_swap a b xs,
    order.asymm a b,
    order.asymm b a,
    order.antisymm a b,
    order.below a b c,
    order.below b a c,
  )

  sort-Permᴰ :
      {xs ys : List K} → Permᴰ xs ys → sort_by order (λ k. k) xs ≡ sort_by order (λ k. k) ys
  unfolding sort_by
  sort-Permᴰ Permᴰ.nil = refl
  sort-Permᴰ (Permᴰ.cons {b} {l₁} e p) =
      ap (λ k. add k (sort_by order (λ k. k) l₁)) e ∙ ap (add b) (sort-Permᴰ p)
  sort-Permᴰ (Permᴰ.swap {b} {a'} {b'} {l} e f) =
      rw (e, f) (add_swap b' a' (sort_by order (λ k. k) l))
  sort-Permᴰ (Permᴰ.trans p q) = sort-Permᴰ p ∙ sort-Permᴰ q

  -- An order decides equality.
  Order-Discrete : (a b : K) → Dec (a ≡ b)
  Order-Discrete a b = elim (Bool-cases (order.less a b)) [
    | inl h ↦ no λ e.
        let reflexive : order.less a a ≡ true = ap (order.less a) e ∙ h in
        ground (arith, reflexive, order.asymm a a)
    | inr h ↦ elim (Bool-cases (order.less b a)) [
      | inl k ↦ no λ e.
          let reflexive : order.less a a ≡ true = ap (λ x. order.less x a) e ∙ k in
          ground (arith, reflexive, order.asymm a a)
      | inr k ↦ yes (order.antisymm a b h k)
    ]
  ]

  pub Order-IsSet : IsSet K
  Order-IsSet = hedberg Order-Discrete

module _ {A K : Type 0} (order : Order K) (key : A → K) where
  map-insert_by :
      (a : A) (xs : List A) → map key (insert_by order key a xs) ≡ add order (key a) (map key xs)
  unfolding insert_by
  map-insert_by a [] = refl
  map-insert_by a (x ∷ xs) = ground (arith, map-insert_by a xs)

  map-sort_by : (xs : List A) → map key (sort_by order key xs) ≡ sort_by order (λ k. k) (map key xs)
  unfolding sort_by
  map-sort_by [] = refl
  map-sort_by (x ∷ xs) =
      map-insert_by x (sort_by order key xs) ∙ ap (add order (key x)) (map-sort_by xs)

  -- Sorting gives the same keys for every order of the list.
  pub sort_by-Perm :
      {xs ys : List A}
      → Perm xs ys
      → map key (sort_by order key xs) ≡ map key (sort_by order key ys)
  sort_by-Perm {xs} {ys} p =
      ∥∥₁_elim p (List.is_set (Order-IsSet order) _ _)
        λ d. map-sort_by xs ∙ sort-Permᴰ order (Permᴰ.map key d) ∙ sym (map-sort_by ys)
