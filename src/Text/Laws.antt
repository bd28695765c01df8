-- ===== src/Text/Laws.antt =====
-- Laws of trimming.
use Prim.Native.Char.{Char}
use Prim.Native.String.{[], ◌∷◌, ◌++◌, char_at}
use text.Mathlib.TextLemmas.{nil-append}
use text.Mathlib.TextLemmas.{cons-append, cons-ne-nil}
use mathlib.Core.Path.{subst}
use garden_extension_f5_loca.Prelude.{
  Bool, Bool-cases, String, ap, arith, eq_iff, inl, inr, refl, true, ◌∙◌, ◌≡◌, ◌≢◌,
}
use garden_extension_f5_loca.Text.{is_space, trim_by, trim_left, trim_right, trim_space}

module _ (drop : Char → Bool) where
  trim_right_idem : (s : String) → trim_right drop (trim_right drop s) ≡ trim_right drop s
  unfolding trim_right
  trim_right_idem [] = refl
  trim_right_idem (c ∷ s) = ground (
    arith,
    trim_right_idem s,
    eq_iff (trim_right drop s) "",
    eq_iff (trim_right drop (trim_right drop s)) "",
  )

  trim_left-trim_by : (s : String) → trim_left drop (trim_by drop s) ≡ trim_by drop s
  unfolding trim_by
  trim_left-trim_by [] = refl
  trim_left-trim_by (c ∷ s) = ground (arith, trim_left-trim_by s)

  pub trim_by_idem : (s : String) → trim_by drop (trim_by drop s) ≡ trim_by drop s
  unfolding trim_by
  trim_by_idem s = ap (trim_right drop) (trim_left-trim_by s) ∙ trim_right_idem (trim_left drop s)

-- Trimming twice is trimming once.
pub trim_space_idem : (s : String) → trim_space (trim_space s) ≡ trim_space s
unfolding trim_space
trim_space_idem s = trim_by_idem is_space s

-- Every character satisfies the test.
abbrev pub AllChars : (Char → Bool) → String → Type 0
AllChars p [] = Unit
AllChars p (c ∷ s) = (p c ≡ true) × AllChars p s

module _ (drop : Char → Bool) where
  AllChars-of_trim_right : (s : String) → trim_right drop s ≡ "" → AllChars drop s
  unfolding trim_right
  AllChars-of_trim_right [] h = tt
  AllChars-of_trim_right (c ∷ s) h = ground (
    arith,
    eq_iff (trim_right drop s) "",
    AllChars-of_trim_right s,
    cons-ne-nil c (trim_right drop s),
  )

  AllChars-of_trim_by : (s : String) → trim_by drop s ≡ "" → AllChars drop s
  unfolding trim_by
  AllChars-of_trim_by [] h = tt
  AllChars-of_trim_by (c ∷ s) h = elim (Bool-cases (drop c)) [
    | inl e ↦ (e, AllChars-of_trim_by s (ground arith))
    | inr e ↦ absurd (ground (arith, cons-ne-nil c (trim_right drop s)))
  ]

AllChars-append_right : (p : Char → Bool) (s t : String) → AllChars p (s ++ t) → AllChars p t
AllChars-append_right p [] t h = rw nil-append at h
AllChars-append_right p (c ∷ s) t h =
    AllChars-append_right p s t (subst (AllChars p) (cons-append c s t) h).1

abbrev bar : Char
bar = char_at "|" 0

bar_not_space : is_space bar ≡ true → ⊥
unfolding is_space
bar_not_space h = cc

-- A text with a bar in it is not blank.
pub trim_space-bar : (s t : String) → trim_space (s ++ ("|" ++ t)) ≢ ""
unfolding trim_space
trim_space-bar s t e =
    let spaces = AllChars-of_trim_by is_space _ e in
    bar_not_space
      (subst (AllChars is_space) (cons-append bar [] t)
        (AllChars-append_right is_space s ("|" ++ t) spaces)).0
