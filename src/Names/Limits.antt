-- ===== src/Names/Limits.antt =====
-- limitedSafeName: the length and the characters of a name.
use Prim.Native.Char.{Char}
use Prim.Native.String.{[], ◌∷◌, ◌++◌, count}
use Prim.Native.String.count
use text.Mathlib.TextLemmas.{length-append as count-append}
use text.Mathlib.TextLemmas.{nil-append, cons-append}
use mathlib.Core.Path.{subst}
use garden_extension_f5_loca.Prelude.{
  Bool, Bool-cases, String, arith, inl, inr, int_eq, leb, nat_eq, refl, string_eq, suc, sym, true,
  zero, ℕ, ◌&&◌, ◌==◌, ◌≡◌, ◌≤◌,
}
use garden_extension_f5_loca.Names.{
  is_dash, is_safe, limited_safe_name, max_name_length, safe_char, safe_name, take_chars,
  trim_dashes,
}
use garden_extension_f5_loca.Text.{map_chars, to_lower, trim_by, trim_left, trim_right, trim_space}
use garden_extension_f5_loca.Text.Laws.{AllChars}
use garden_extension_f5_loca.Text.Number.{is_digit}

module _ (drop : Char → Bool) where
  count-trim_left : (s : String) → count (trim_left drop s) ≤ count s
  unfolding trim_left
  count-trim_left [] = omega arith
  count-trim_left (c ∷ s) = ground (arith, count-trim_left s, count.cons c s)

  count-trim_right : (s : String) → count (trim_right drop s) ≤ count s
  unfolding trim_right
  count-trim_right [] = omega arith
  count-trim_right (c ∷ s) =
      let rest = count-trim_right s in
      elim (Bool-cases (drop c && trim_right drop s == "")) [
        | inl e ↦ rw e (omega arith)
        | inr e ↦ rw e (omega (arith, rest, count.cons c s, count.cons c (trim_right drop s)))
      ]

count-trim_dashes : (s : String) → count (trim_dashes s) ≤ count s
unfolding trim_dashes trim_by
count-trim_dashes s =
    omega (arith, count-trim_right is_dash (trim_left is_dash s), count-trim_left is_dash s)

count-take_chars : (n : ℕ) (s : String) → count (take_chars n s) ≤ n
unfolding take_chars
count-take_chars zero s = omega arith
count-take_chars (suc n) [] = omega arith
count-take_chars (suc n) (c ∷ s) =
    omega (arith, count-take_chars n s, count.cons c (take_chars n s))

-- Every generated name has at most the 20 characters that CMP takes, whatever the digest prints.
pub count-limited_safe_name :
    (sha256_hex : String → String) (name : String)
    → count (limited_safe_name sha256_hex name) ≤ max_name_length
unfolding limited_safe_name
count-limited_safe_name sha256_hex name =
    let safe = safe_name name in
    let start = trim_dashes (take_chars 13 safe) in
    let digits = take_chars 6 (sha256_hex safe) in
    elim (Bool-cases (leb (count safe) max_name_length)) [
      | inl e ↦ rw e (ground arith)
      | inr e ↦ rw e (
          omega (
            arith,
            count-trim_dashes (take_chars 13 safe),
            count-take_chars 13 safe,
            count-take_chars 6 (sha256_hex safe),
            count-append start ("-" ++ digits),
            count-append "-" digits,
          ))
    ]

module _ (p : Char → Bool) where
  AllChars-append : (s t : String) → AllChars p s → AllChars p t → AllChars p (s ++ t)
  AllChars-append [] t h k = subst (AllChars p) (sym (nil-append t)) k
  AllChars-append (c ∷ s) t h k =
      subst (AllChars p) (sym (cons-append c s t)) (h.0, AllChars-append s t h.1 k)

  AllChars-take_chars : (n : ℕ) (s : String) → AllChars p s → AllChars p (take_chars n s)
  unfolding take_chars
  AllChars-take_chars zero s h = tt
  AllChars-take_chars (suc n) [] h = tt
  AllChars-take_chars (suc n) (c ∷ s) h = (h.0, AllChars-take_chars n s h.1)

  AllChars-trim_left :
      (drop : Char → Bool) (s : String) → AllChars p s → AllChars p (trim_left drop s)
  unfolding trim_left
  AllChars-trim_left drop [] h = tt
  AllChars-trim_left drop (c ∷ s) h = elim (Bool-cases (drop c)) [
    | inl e ↦ rw e (AllChars-trim_left drop s h.1)
    | inr e ↦ rw e h
  ]

  AllChars-trim_right :
      (drop : Char → Bool) (s : String) → AllChars p s → AllChars p (trim_right drop s)
  unfolding trim_right
  AllChars-trim_right drop [] h = tt
  AllChars-trim_right drop (c ∷ s) h =
      let rest = AllChars-trim_right drop s h.1 in
      elim (Bool-cases (drop c && trim_right drop s == "")) [
        | inl e ↦ rw e tt
        | inr e ↦ rw e (h.0, rest)
      ]

  AllChars-trim_dashes : (s : String) → AllChars p s → AllChars p (trim_dashes s)
  unfolding trim_dashes trim_by
  AllChars-trim_dashes s h = AllChars-trim_right is_dash _ (AllChars-trim_left is_dash s h)

safe_char-is_safe : (c : Char) → is_safe (safe_char c) ≡ true
unfolding safe_char is_safe is_digit
safe_char-is_safe c = elim (Bool-cases (is_safe c)) [ inl e ↦ rw (e) e | inr e ↦ rw (e) refl ]

map_chars-is_safe : (s : String) → AllChars is_safe (map_chars safe_char s)
unfolding map_chars
map_chars-is_safe [] = tt
map_chars-is_safe (c ∷ s) = (safe_char-is_safe c, map_chars-is_safe s)

-- Every generated name is made of lower-case letters, digits and dashes, where the digest prints such characters.
pub limited_safe_name-AllChars :
    (sha256_hex : String → String) (name : String)
    → ((s : String) → AllChars is_safe (sha256_hex s))
    → AllChars is_safe (limited_safe_name sha256_hex name)
unfolding limited_safe_name safe_name is_safe is_digit
limited_safe_name-AllChars sha256_hex name hex =
    let safe = safe_name name in
    let clean = AllChars-trim_dashes is_safe _ (map_chars-is_safe (to_lower (trim_space name))) in
    elim (Bool-cases (leb (count safe) max_name_length)) [
      | inl e ↦ rw e clean
      | inr e ↦ rw e (
          AllChars-append is_safe _ _
            (AllChars-trim_dashes is_safe _ (AllChars-take_chars is_safe 13 safe clean))
            (AllChars-append is_safe "-" _ (refl, tt)
              (AllChars-take_chars is_safe 6 (sha256_hex safe) (hex safe))))
    ]
