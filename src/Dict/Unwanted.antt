-- ===== src/Dict/Unwanted.antt =====
-- The loops that index a list by key and then drop what is not wanted: the last item of each key counts, and
-- the ids of the entries whose keys are not wanted.
use mathlib.Core.Path.{subst}
use garden_extension_f5_loca.Prelude.{
  All, Bool, Bool-cases, List, Option, Option-cases, String, [], ap, arith, eq_iff, false,
  if◌then◌else◌, inl, inr, int_eq, nat_eq, none, refl, some, string_eq, true, ◌==◌, ◌||◌, ◌∙◌, ◌∷◌,
  ◌≡◌, ◌≢◌,
}
use garden_extension_f5_loca.Dict.{contains, insert, lookup, lookup-insert}
use garden_extension_f5_loca.Text.{trim_space}

-- The last item that passes the test.
abbrev pub last_where : {V : Type 0} → (V → Bool) → List V → Option V
last_where test [] = none
last_where test (v ∷ vs) = elim (last_where test vs) [
  | some x ↦ some x
  | none ↦ if test v then some v else none
]

abbrev pub or_else : {V : Type 0} → Option V → Option V → Option V
or_else (some x) o = some x
or_else none o = o

pub All-last_where :
    {V : Type 0} (P : V → Type 0) (test : V → Bool) (vs : List V) (x : V)
    → All P vs
    → last_where test vs ≡ some x
    → P x
All-last_where P test [] x h q = absurd (ground arith)
All-last_where P test (v ∷ vs) x (p, h) q = elim (Option-cases (last_where test vs)) [
  | inl n ↦ elim (Bool-cases (test v)) [
    | inl e ↦ subst P (ground arith) p
    | inr e ↦ absurd (ground arith)
  ]
  | inr (y, found) ↦ All-last_where P test vs x h (found ∙ ground arith)
]

pub or_else-none : {V : Type 0} (o : Option V) → or_else o none ≡ o
or_else-none none = refl
or_else-none (some x) = refl

pub last_where-cons :
    {V : Type 0} (test : V → Bool) (v : V) (vs : List V) (o : Option V)
    → or_else (last_where test vs) (if test v then some v else o)
      ≡ or_else (last_where test (v ∷ vs)) o
last_where-cons test v vs o = elim (Option-cases (last_where test vs)) [
  | inl n ↦ elim (Bool-cases (test v)) [ inl e ↦ rw (n, e) refl | inr e ↦ rw (n, e) refl ]
  | inr (x, q) ↦ rw q refl
]

-- Each key stands once.
abbrev pub HasDistinctKeys : {V : Type 0} → List (String × V) → Type 0
HasDistinctKeys [] = Unit
HasDistinctKeys ((k, v) ∷ table) = (lookup k table ≡ none) × HasDistinctKeys table

pub HasDistinctKeys-insert :
    {V : Type 0} (k : String) (v : V) (table : List (String × V))
    → HasDistinctKeys table
    → HasDistinctKeys (insert k v table)
unfolding insert lookup
HasDistinctKeys-insert k v [] h = (refl, tt)
HasDistinctKeys-insert k v ((j, u) ∷ table) h = elim (Bool-cases (j == k)) [
  | inl e ↦ rw e (ground (arith, eq_iff j k), h.1)
  | inr e ↦ rw e (
    ground (arith, lookup-insert k j v table, eq_iff j k, eq_iff k j),
    HasDistinctKeys-insert k v table h.1,
  )
]

module _ {V : Type 0} (id_of : V → String) where
  -- The ids of the entries whose keys are not wanted, blank ids left out.
  abbrev pub unwanted_ids : List String → List (String × V) → List String
  unwanted_ids wanted [] = []
  unwanted_ids wanted ((key, v) ∷ table) =
      let rest = unwanted_ids wanted table in
      if contains key wanted || trim_space (id_of v) == "" then rest else id_of v ∷ rest

  -- The table has an entry with this id whose key is not wanted.
  abbrev pub IsUnwanted : List String → List (String × V) → String → Type 0
  IsUnwanted wanted table id =
      (k : String) × (v : V) × (lookup k table ≡ some v)
      × (contains k wanted ≡ false)
      × (trim_space (id_of v) ≢ "")
      × (id_of v ≡ id)

  pub contains-unwanted_ids :
      (wanted : List String) (table : List (String × V)) (id : String)
      → HasDistinctKeys table
      → contains id (unwanted_ids wanted table) ≡ true
      → IsUnwanted wanted table id
  unfolding contains lookup
  contains-unwanted_ids wanted [] id d h = absurd (ground arith)
  contains-unwanted_ids wanted ((key, v) ∷ table) id (new, d) h =
      let later : contains id (unwanted_ids wanted table) ≡ true
          → IsUnwanted wanted ((key, v) ∷ table) id =
        λ i.
          let (k, u, found, free, set, same) = contains-unwanted_ids wanted table id d i in
          let other : (key == k) ≡ false = elim (Bool-cases (key == k)) [
            | inl e ↦
                absurd (ground (arith, ap (λ x. lookup x table) ((eq_iff key k).0 e), found, new))
            | inr e ↦ e
          ] in
          (k, u, rw other found, free, set, same) in
      elim (Bool-cases (contains key wanted || trim_space (id_of v) == "")) [
        | inl e ↦ later (rw e at h)
        | inr e ↦ elim (Bool-cases (id_of v == id)) [
          | inl same ↦ (
            key,
            v,
            ground (arith, eq_iff key key),
            ground arith,
            λ blank. ground (arith, eq_iff (trim_space (id_of v)) ""),
            (eq_iff (id_of v) id).0 same,
          )
          | inr differs ↦ later (ground arith)
        ]
      ]

  pub unwanted_ids-contains :
      (wanted : List String) (table : List (String × V)) (id : String)
      → IsUnwanted wanted table id
      → contains id (unwanted_ids wanted table) ≡ true
  unfolding contains lookup
  unwanted_ids-contains wanted [] id (k, v, found, free, set, same) = absurd (ground arith)
  unwanted_ids-contains wanted ((key, v) ∷ table) id (k, u, found, free, set, same) =
      elim (Bool-cases (key == k)) [
        | inl e ↦
            let here : v ≡ u = ground arith in
            let at : key ≡ k = (eq_iff key k).0 e in
            let keep : (contains key wanted || trim_space (id_of v) == "") ≡ false =
              rw (here, at) (ground (arith, eq_iff (trim_space (id_of u)) "")) in
            let eq : (id_of v == id) ≡ true = (eq_iff (id_of v) id).1 (rw here same) in
            rw keep (ground arith)
        | inr e ↦
            let rest =
              unwanted_ids-contains wanted table id (k, u, ground arith, free, set, same) in
            elim (Bool-cases (contains key wanted || trim_space (id_of v) == "")) [
              | inl skip ↦ rw skip rest
              | inr keep ↦ rw keep (ground arith)
            ]
      ]

  pub unwanted_ids-nil :
      (wanted : List String) (table : List (String × V))
      → All (λ (entry : String × V). contains entry.0 wanted ≡ true) table
      → unwanted_ids wanted table ≡ []
  unwanted_ids-nil wanted [] h = refl
  unwanted_ids-nil wanted ((key, v) ∷ table) (e, h) = rw e (unwanted_ids-nil wanted table h)
