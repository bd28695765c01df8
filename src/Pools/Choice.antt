-- ===== src/Pools/Choice.antt =====
-- The choice of a pool among the listed ones.
use garden_extension_f5_loca.Prelude.{
  All, Bool, Bool-cases, List, Option, String, [], arith, eq_iff, false, inl, inr, int_eq, nat_eq,
  none, some, string_eq, true, ◌!=◌, ◌&&◌, ◌==◌, ◌∷◌, ◌≡◌, ◌≢◌,
}
use garden_extension_f5_loca.Cmp.{PoolResource}
use garden_extension_f5_loca.Pools.{choose_pool}
use garden_extension_f5_loca.Text.{equal_fold, trim_space}

abbrev pub IsRecorded : String → PoolResource → Type 0
IsRecorded id pool = (id ≢ "") × (trim_space pool.id ≡ id)

-- No listed pool carries the name.
abbrev pub IsUnused : String → List PoolResource → Type 0
IsUnused name = All (λ c. equal_fold (trim_space c.name) (trim_space name) ≡ false)

abbrev pub Choice : Type 0
Choice = Option (Option PoolResource × Bool)

-- The chosen pool is the recorded one; or none is chosen, and the name is free unless it is reported.
abbrev pub Chosen : String → String → List PoolResource → Bool → Choice → Type 0
Chosen name id existing collision none = ⊥
Chosen name id existing collision (some (none, found)) =
    found ≡ false → (collision ≡ false) × IsUnused name existing
Chosen name id existing collision (some (some pool, found)) = IsRecorded id pool

Chosen-skip :
    (name id : String) (c : PoolResource) (existing : List PoolResource) (collision : Bool)
    (r : Choice)
    → equal_fold (trim_space c.name) (trim_space name) ≡ false
    → Chosen name id existing collision r
    → Chosen name id (c ∷ existing) collision r
Chosen-skip name id c existing collision none e h = h
Chosen-skip name id c existing collision (some (none, found)) e h =
    λ f. let (free, unused) = h f in (free, (e, unused))
Chosen-skip name id c existing collision (some (some pool, found)) e h = h

Chosen-foreign :
    (name id : String) (c : PoolResource) (existing : List PoolResource) (collision : Bool)
    (r : Choice)
    → Chosen name id existing true r
    → Chosen name id (c ∷ existing) collision r
Chosen-foreign name id c existing collision none h = h
Chosen-foreign name id c existing collision (some (none, found)) h = λ f. cc (h f).0
Chosen-foreign name id c existing collision (some (some pool, found)) h = h

abbrev ChosenRecorded : String → Choice → Type 0
ChosenRecorded id (some (some pool, found)) = IsRecorded id pool
ChosenRecorded id _ = ⊥

ChosenRecorded-Chosen :
    (name id : String) (existing : List PoolResource) (collision : Bool) (r : Choice)
    → ChosenRecorded id r
    → Chosen name id existing collision r
ChosenRecorded-Chosen name id existing collision none h = absurd h
ChosenRecorded-Chosen name id existing collision (some (none, found)) h = absurd h
ChosenRecorded-Chosen name id existing collision (some (some pool, found)) h = h

choose_pool-recorded :
    (name id : String) (existing : List PoolResource) (pool : PoolResource) (collision : Bool)
    → IsRecorded id pool
    → ChosenRecorded id (choose_pool name id false existing (some pool) collision)
unfolding choose_pool
choose_pool-recorded name id [] pool collision h = h
choose_pool-recorded name id (c ∷ existing) pool collision h =
    elim (Bool-cases (id != "" && trim_space c.id == id)) [
      | inl e ↦ rw e (
          choose_pool-recorded name id existing c collision
            (h.0, ground (arith, eq_iff (trim_space c.id) id)))
      | inr e ↦ rw e (elim (Bool-cases (equal_fold (trim_space c.name) (trim_space name))) [
        | inl f ↦ rw f (choose_pool-recorded name id existing pool true h)
        | inr f ↦ rw f (choose_pool-recorded name id existing pool collision h)
      ])
    ]

pub choose_pool-Chosen :
    (name id : String) (existing : List PoolResource) (collision : Bool)
    → Chosen name id existing collision (choose_pool name id false existing none collision)
unfolding choose_pool
choose_pool-Chosen name id [] collision = λ e. (e, tt)
choose_pool-Chosen name id (c ∷ existing) collision =
    elim (Bool-cases (id != "" && trim_space c.id == id)) [
      | inl e ↦ rw e (
          ChosenRecorded-Chosen name id (c ∷ existing) collision _ (
            choose_pool-recorded name id existing c collision
              (ground (arith, eq_iff id ""), ground (arith, eq_iff (trim_space c.id) id))))
      | inr e ↦ rw e (elim (Bool-cases (equal_fold (trim_space c.name) (trim_space name))) [
        | inl f ↦ rw f (
            Chosen-foreign name id c existing collision _
              (choose_pool-Chosen name id existing true))
        | inr f ↦ rw f (
            Chosen-skip name id c existing collision _ f
              (choose_pool-Chosen name id existing collision))
      ])
    ]
