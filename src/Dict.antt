-- ===== src/Dict.antt =====
-- Go's maps with text keys, as lists of entries in the order in which the keys were first set. Go
-- ranges over a map in any order; the model takes this one.
pub mod Unwanted
use garden_extension_f5_loca.Prelude.{
  All, Bool, List, Option, String, [], arith, eq_iff, false, if◌then◌else◌, int_eq, nat_eq, none,
  refl, some, string_eq, ◌==◌, ◌||◌, ◌∷◌, ◌≡◌,
}

module _ {V : Type 0} where
  -- delete(m, k)
  unfoldable pub delete : String → List (String × V) → List (String × V)
  delete key [] = []
  delete key ((other, entry) ∷ table) =
      let rest = delete key table in if other == key then rest else (other, entry) ∷ rest

  -- m[k], with none for a missing key
  unfoldable pub lookup : String → List (String × V) → Option V
  lookup key [] = none
  lookup key ((other, entry) ∷ table) = if other == key then some entry else lookup key table

  -- m[k] = v
  unfoldable pub insert : String → V → List (String × V) → List (String × V)
  insert key entry [] = (key, entry) ∷ []
  insert key entry ((other, old) ∷ table) =
      if other == key then (key, entry) ∷ table else (other, old) ∷ insert key entry table

  pub lookup-insert :
      (set key : String) (entry : V) (table : List (String × V))
      → lookup key (insert set entry table) ≡ (if set == key then some entry else lookup key table)
  unfolding lookup insert
  lookup-insert set key entry [] = refl
  lookup-insert set key entry ((other, old) ∷ table) =
      ground (
        arith,
        lookup-insert set key entry table,
        eq_iff other set,
        eq_iff other key,
        eq_iff set key,
      )

  pub lookup-delete :
      (k j : String) (m : List (String × V))
      → lookup j (delete k m) ≡ (if k == j then none else lookup j m)
  unfolding lookup delete
  lookup-delete k j [] = ground arith
  lookup-delete k j ((i, w) ∷ m) =
      ground (arith, eq_iff k j, eq_iff i k, eq_iff i j, lookup-delete k j m)

  pub All-insert :
      (P : String × V → Type 0) (k : String) (v : V) (m : List (String × V))
      → P (k, v)
      → All P m
      → All P (insert k v m)
  unfolding insert
  All-insert P k v [] h t = (h, tt)
  All-insert P k v ((j, w) ∷ m) h t = ground (arith, All-insert P k v m h t.1)

  pub All-delete :
      (P : String × V → Type 0) (k : String) (m : List (String × V)) → All P m → All P (delete k m)
  unfolding delete
  All-delete P k [] t = tt
  All-delete P k ((j, w) ∷ m) t = ground (arith, All-delete P k m t.1)

  pub lookup-All :
      (P : String × V → Type 0) (k : String) (v : V) (m : List (String × V))
      → All P m
      → lookup k m ≡ some v
      → P (k, v)
  unfolding lookup
  lookup-All P k v [] t h = cc
  lookup-All P k v ((j, w) ∷ m) t h = ground (arith, eq_iff j k, lookup-All P k v m t.1)

-- The empty text for a missing key, as Go's zero value.
unfoldable pub lookup_text : String → List (String × String) → String
unfolding lookup
lookup_text k m = elim (lookup k m) [ some v ↦ v | none ↦ "" ]

-- A set of texts: map[string]struct{}.
unfoldable pub contains : String → List String → Bool
contains k [] = false
contains k (j ∷ s) = j == k || contains k s
