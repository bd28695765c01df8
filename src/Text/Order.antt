-- ===== src/Text/Order.antt =====
-- The order of Go's `<` on strings, which sort.Strings takes.
use text.Mathlib.TextEquality.{codes_equal}
use Prim.Native.Char.{code}
use Prim.Native.String.{[], ◌∷◌}
use garden_extension_f5_loca.Prelude.{
  Bool, Order, String, arith, false, if◌then◌else◌, ltb, true, ◌≡◌,
}

-- Go compares bytes; UTF-8 keeps the order of the code points.
unfoldable pub before : String → String → Bool
before [] [] = false
before [] (d ∷ t) = true
before (c ∷ s) [] = false
before (c ∷ s) (d ∷ t) =
    let rest = before s t in
    if ltb (code c) (code d) then true else if ltb (code d) (code c) then false else rest

pub before_asymm : (s t : String) → before s t ≡ true → before t s ≡ false
unfolding before
before_asymm [] [] h = ground arith
before_asymm [] (d ∷ t) h = ground arith
before_asymm (c ∷ s) [] h = ground arith
before_asymm (c ∷ s) (d ∷ t) h = ground (arith, before_asymm s t)

pub before_antisymm : (s t : String) → before s t ≡ false → before t s ≡ false → s ≡ t
unfolding before
before_antisymm [] [] h k = ground arith
before_antisymm [] (d ∷ t) h k = ground arith
before_antisymm (c ∷ s) [] h k = ground arith
before_antisymm (c ∷ s) (d ∷ t) h k = ground (arith, before_antisymm s t, codes_equal c d)

pub before_below : (s t r : String) → before r t ≡ false → before r s ≡ true → before t s ≡ true
unfolding before
before_below [] [] r h k = ground arith
before_below [] (d ∷ t) [] h k = ground arith
before_below [] (d ∷ t) (e ∷ r) h k = ground arith
before_below (c ∷ s) [] [] h k = ground arith
before_below (c ∷ s) [] (e ∷ r) h k = ground arith
before_below (c ∷ s) (d ∷ t) [] h k = ground arith
before_below (c ∷ s) (d ∷ t) (e ∷ r) h k = ground (arith, before_below s t r)

instance abbrev pub string_order : Order String
string_order = record {
  less = before;
  asymm = before_asymm;
  antisymm = before_antisymm;
  below = before_below;
}
