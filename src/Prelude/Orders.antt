-- ===== src/Prelude/Orders.antt =====
-- Orders by a Boolean test, as sort.Slice is given them, and insertion sort by a key.

use mathlib.Core.Path.{◌≡◌}
use mathlib.Core.Bool.{Bool, true, false}
use mathlib.Core.List.{List, [], ◌∷◌}
use native.Mathlib.Omega.{arith}
use garden_extension_f5_loca.Prelude.Tests.{Eq, if◌then◌else◌, ltb, ◌==◌}
use garden_extension_f5_loca.Prelude.Int.{ℤ, negsuc, pos}

pub record Order (A : Type 0) : Type 0 where
  pub less : A → A → Bool
  pub asymm : (a b : A) → less a b ≡ true → less b a ≡ false
  pub antisymm : (a b : A) → less a b ≡ false → less b a ≡ false → a ≡ b
  pub below : (a b c : A) → less c b ≡ false → less c a ≡ true → less b a ≡ true

abbrev int_less : ℤ → ℤ → Bool
int_less (pos m) (pos n) = ltb m n
int_less (pos m) (negsuc n) = false
int_less (negsuc m) (pos n) = true
int_less (negsuc m) (negsuc n) = ltb n m

pub int_less_asymm : (a b : ℤ) → int_less a b ≡ true → int_less b a ≡ false
int_less_asymm (pos m) (pos n) h = ground arith
int_less_asymm (pos m) (negsuc n) h = ground arith
int_less_asymm (negsuc m) (pos n) h = ground arith
int_less_asymm (negsuc m) (negsuc n) h = ground arith

pub int_less_antisymm : (a b : ℤ) → int_less a b ≡ false → int_less b a ≡ false → a ≡ b
int_less_antisymm (pos m) (pos n) h k = ground arith
int_less_antisymm (pos m) (negsuc n) h k = ground arith
int_less_antisymm (negsuc m) (pos n) h k = ground arith
int_less_antisymm (negsuc m) (negsuc n) h k = ground arith

pub int_less_below : (a b c : ℤ) → int_less c b ≡ false → int_less c a ≡ true → int_less b a ≡ true
int_less_below (pos a) (pos b) (pos c) h k = ground arith
int_less_below (pos a) (pos b) (negsuc c) h k = ground arith
int_less_below (pos a) (negsuc b) (pos c) h k = ground arith
int_less_below (pos a) (negsuc b) (negsuc c) h k = ground arith
int_less_below (negsuc a) (pos b) (pos c) h k = ground arith
int_less_below (negsuc a) (pos b) (negsuc c) h k = ground arith
int_less_below (negsuc a) (negsuc b) (pos c) h k = ground arith
int_less_below (negsuc a) (negsuc b) (negsuc c) h k = ground arith

instance abbrev pub int_order : Order ℤ
int_order = record {
  less = int_less;
  asymm = int_less_asymm;
  antisymm = int_less_antisymm;
  below = int_less_below;
}

-- First by the first component.
module _ {A B : Type 0} ⦃test : Eq A⦄ ⦃order : Order A⦄ ⦃next : Order B⦄ where
  abbrev pair_less : A × B → A × B → Bool
  pair_less (a, b) (c, d) = if a == c then next.less b d else order.less a c

  pub pair_less_asymm : (p q : A × B) → pair_less p q ≡ true → pair_less q p ≡ false
  pair_less_asymm (a, b) (c, d) h =
      ground (arith, test.same_iff a c, test.same_iff c a, order.asymm a c, next.asymm b d)

  pub pair_less_antisymm : (p q : A × B) → pair_less p q ≡ false → pair_less q p ≡ false → p ≡ q
  pair_less_antisymm (a, b) (c, d) h k =
      ground (arith, test.same_iff a c, test.same_iff c a, order.antisymm a c, next.antisymm b d)

  pub pair_less_below :
      (p q r : A × B) → pair_less r q ≡ false → pair_less r p ≡ true → pair_less q p ≡ true
  pair_less_below (a, b) (c, d) (x, y) h k = ground (
    arith,
    test.same_iff a c,
    test.same_iff c a,
    test.same_iff x c,
    test.same_iff x a,
    order.below a c x,
    order.asymm c a,
    order.asymm a c,
    order.asymm x a,
    order.antisymm a c,
    order.antisymm x c,
    next.below b d y,
  )

  instance abbrev pub pair_order : Order (A × B)
  pair_order = record {
    less = pair_less;
    asymm = pair_less_asymm;
    antisymm = pair_less_antisymm;
    below = pair_less_below;
  }

module _ {A K : Type 0} (order : Order K) (key : A → K) where
  unfoldable pub insert_by : A → List A → List A
  insert_by a [] = a ∷ []
  insert_by a (b ∷ bs) =
      let rest = insert_by a bs in if order.less (key b) (key a) then b ∷ rest else a ∷ b ∷ bs

  unfoldable pub sort_by : List A → List A
  sort_by [] = []
  sort_by (a ∷ xs) = insert_by a (sort_by xs)
