-- ===== src/Members/Converged.antt =====
-- BackendMemberManager.Ensure: what a run that succeeds answers, and what a settled map of members is.
use mathlib.Core.Path.{subst}
use garden_extension_f5_loca.Prelude.{
  All, Bool, Bool-cases, List, Option-cases, String, [], arith, eq_iff, false, if◌then◌else◌, inl,
  inr, int_beq_iff, int_eq, map, nat_eq, refl, some, string_eq, true, ◌==◌, ◌↔◌, ◌∷◌, ◌≡◌, ◌≢◌,
}
use garden_extension_f5_loca.Cmp.{PoolClient, PoolMemberResource, PoolMemberSpec}
use garden_extension_f5_loca.Dict.{All-insert, contains, lookup, lookup-All, lookup-insert}
use garden_extension_f5_loca.Exec.{ok, ◌>>=◌}
use garden_extension_f5_loca.Exec.Rules.{bind-Steps}
use garden_extension_f5_loca.Members.{
  MemberMap, add_member, default_resource_type, existing_member, index_members, is_complete,
  member_key, member_needs_update, pool_member_key, reconcile_member, reconcile_members, spec_key,
}
use garden_extension_f5_loca.Text.{trim_space}
use garden_extension_f5_loca.Text.Join.{join}
use garden_extension_f5_loca.Text.Laws.{trim_space-bar}

-- The member has the type and the weight of the desired one, where a blank type stands for compute.
abbrev pub Agrees : PoolMemberSpec → PoolMemberResource → Type 0
Agrees spec m =
    (trim_space m.resource_type
      ≡ trim_space (if trim_space spec.resource_type == "" then "compute" else spec.resource_type))
    × (m.weight ≡ spec.weight)

pub member_needs_update-Agrees :
    (spec : PoolMemberSpec) (m : PoolMemberResource)
    → (member_needs_update m spec ≡ false) ↔ Agrees spec m
unfolding member_needs_update default_resource_type
member_needs_update-Agrees spec m =
    let type = if trim_space spec.resource_type == "" then "compute" else spec.resource_type in
    let kinds = eq_iff (trim_space m.resource_type) (trim_space type) in
    let weights = int_beq_iff m.weight spec.weight in
    (
      (λ h. (ground (arith, kinds), ground (arith, weights))),
      λ (kind, weight). ground (arith, kinds.1 kind, weights.1 weight),
    )

-- The member answers the desired one: same key, type and weight, and it has an id.
abbrev pub Fits : PoolMemberSpec → PoolMemberResource → Type 0
Fits spec m = (member_key m ≡ spec_key spec) × Agrees spec m × (trim_space m.id ≢ "")

abbrev pub AllFit : List PoolMemberSpec → List PoolMemberResource → Type 0
AllFit [] [] = Unit
AllFit (spec ∷ specs) (m ∷ ms) = Fits spec m × AllFit specs ms
AllFit _ _ = ⊥

-- CMP answers a creation or an update with the member that was asked for, an update with an id.
pub record Echoes {W : Type 0} (client : PoolClient W) : Type 0 where
  pub created :
      (lb_id vs_id pool_id : String) (spec : PoolMemberSpec) (w : W) (m : PoolMemberResource)
      → (client.create_pool_member lb_id vs_id pool_id spec w).0 ≡ ok m
      → (member_key m ≡ spec_key spec) × Agrees spec m
  pub updated :
      (lb_id vs_id pool_id id : String) (spec : PoolMemberSpec) (w : W) (m : PoolMemberResource)
      → (client.update_pool_member lb_id vs_id pool_id id spec w).0 ≡ ok m
      → Fits spec m

-- byKey holds each member under its own key.
abbrev pub IsKeyed : String × PoolMemberResource → Type 0
IsKeyed (key, m) = member_key m ≡ key

add_member-IsKeyed :
    (m : PoolMemberResource) (by_key : MemberMap)
    → All IsKeyed by_key
    → All IsKeyed (add_member m by_key)
unfolding add_member
add_member-IsKeyed m by_key h = ground (arith, All-insert IsKeyed (member_key m) m by_key refl)

pub index_members-IsKeyed :
    (ms : List PoolMemberResource) (by_key : MemberMap)
    → All IsKeyed by_key
    → All IsKeyed (index_members ms by_key)
unfolding index_members
index_members-IsKeyed [] by_key h = h
index_members-IsKeyed (m ∷ ms) by_key h =
    index_members-IsKeyed ms (add_member m by_key) (add_member-IsKeyed m by_key h)

existing_member-key :
    (key : String) (by_key : MemberMap) (m : PoolMemberResource)
    → All IsKeyed by_key
    → existing_member key by_key ≡ some m
    → (member_key m ≡ key) × (trim_space m.id ≢ "")
unfolding existing_member
existing_member-key key by_key m k h =
    (lookup-All IsKeyed key m by_key k (ground arith), ground (arith, eq_iff (trim_space m.id) ""))

module _ {W : Type 0} (client : PoolClient W) (lb_id vs_id pool_id : String) where
  reconcile_member-Fits :
      (by_key : MemberMap) (spec : PoolMemberSpec) (w : W) (a : PoolMemberResource × Bool)
      → Echoes client
      → All IsKeyed by_key
      → (reconcile_member client lb_id vs_id pool_id by_key spec w).reply ≡ ok a
      → Fits spec a.0
  unfolding reconcile_member ◌>>=◌
  reconcile_member-Fits by_key spec w a echo k h =
      elim (Option-cases (existing_member (spec_key spec) by_key)) [
        | inl missing ↦
            let made = echo.created lb_id vs_id pool_id spec w a.0 (ground arith) in
            (made.0, made.1, ground (arith, eq_iff (trim_space a.0.id) ""))
        | inr (m, found) ↦
            let (key, id) = existing_member-key (spec_key spec) by_key m k found in
            elim (Bool-cases (member_needs_update m spec)) [
              | inl e ↦ echo.updated lb_id vs_id pool_id m.id spec w a.0 (ground arith)
              | inr e ↦
                  let same : m ≡ a.0 = ground arith in
                  subst (Fits spec) same (key, (member_needs_update-Agrees spec m).0 e, id)
            ]
      ]

  reconcile_member_complete :
      (by_key : MemberMap) (spec : PoolMemberSpec) (w : W) (a : PoolMemberResource × Bool)
      → (reconcile_member client lb_id vs_id pool_id by_key spec w).reply ≡ ok a
      → is_complete spec ≡ true
  unfolding reconcile_member
  reconcile_member_complete by_key spec w a h = elim (Bool-cases (is_complete spec)) [
    | inl e ↦ e
    | inr e ↦ absurd (ground arith)
  ]

  pub reconcile_members-AllFit :
      (by_key : MemberMap) (specs : List PoolMemberSpec) (w : W)
      (a : List PoolMemberResource × Bool)
      → Echoes client
      → All IsKeyed by_key
      → (reconcile_members client lb_id vs_id pool_id by_key specs w).reply ≡ ok a
      → AllFit specs a.0 × All (λ s. is_complete s ≡ true) specs
  unfolding reconcile_members
  reconcile_members-AllFit by_key [] w a echo k h =
      let none : [] ≡ a.0 = ground arith in rw (← none) (tt, tt)
  reconcile_members-AllFit by_key (spec ∷ specs) w a echo k h =
      let one = bind-Steps (reconcile_member client lb_id vs_id pool_id by_key spec) _ w a h in
      let all =
        bind-Steps (reconcile_members client lb_id vs_id pool_id by_key specs) _ _ a one.rest in
      let fits = reconcile_member-Fits by_key spec w one.value echo k one.first in
      let (fit, complete) = reconcile_members-AllFit by_key specs _ all.value echo k all.first in
      let same : one.value.0 ∷ all.value.0 ≡ a.0 = ground (arith, all.rest) in
      rw (← same)
        ((fits, fit), (reconcile_member_complete by_key spec w one.value one.first, complete))

member_key-ne-blank : (m : PoolMemberResource) → trim_space (member_key m) ≢ ""
unfolding pool_member_key join
member_key-ne-blank m = trim_space-bar (trim_space m.resource_id) _

pub lookup-add_member :
    (k : String) (m : PoolMemberResource) (by_key : MemberMap)
    → lookup k (add_member m by_key) ≡ (if member_key m == k then some m else lookup k by_key)
unfolding add_member
lookup-add_member k m by_key = ground (
  arith,
  eq_iff (trim_space (member_key m)) "",
  member_key-ne-blank m,
  lookup-insert (member_key m) k m by_key,
)

abbrev pub Distinct : List String → Type 0
Distinct [] = Unit
Distinct (k ∷ ks) = (contains k ks ≡ false) × Distinct ks

lookup-index_members :
    (k : String) (ms : List PoolMemberResource) (by_key : MemberMap)
    → contains k (map member_key ms) ≡ false
    → lookup k (index_members ms by_key) ≡ lookup k by_key
unfolding index_members contains
lookup-index_members k [] by_key h = refl
lookup-index_members k (m ∷ ms) by_key h =
    ground (arith, lookup-index_members k ms (add_member m by_key), lookup-add_member k m by_key)

-- A desired member that is already there: it is complete, and a member with an id has its key and
-- needs no update.
abbrev pub IsAnswered : MemberMap → PoolMemberSpec → Type 0
IsAnswered by_key spec =
    (is_complete spec ≡ true)
    × ((m : PoolMemberResource) × (existing_member (spec_key spec) by_key ≡ some m)
        × (member_needs_update m spec ≡ false))

existing_member-index :
    (m : PoolMemberResource) (ms : List PoolMemberResource) (by_key : MemberMap)
    → contains (member_key m) (map member_key ms) ≡ false
    → trim_space m.id ≢ ""
    → existing_member (member_key m) (index_members ms (add_member m by_key)) ≡ some m
unfolding existing_member
existing_member-index m ms by_key h n = ground (
  arith,
  lookup-index_members (member_key m) ms (add_member m by_key) h,
  lookup-add_member (member_key m) m by_key,
  eq_iff (member_key m) (member_key m),
  eq_iff (trim_space m.id) "",
)

pub AllFit-IsAnswered :
    (specs : List PoolMemberSpec) (ms : List PoolMemberResource) (by_key : MemberMap)
    → AllFit specs ms
    → All (λ spec. is_complete spec ≡ true) specs
    → Distinct (map member_key ms)
    → All (IsAnswered (index_members ms by_key)) specs
unfolding index_members
AllFit-IsAnswered [] [] by_key f c d = tt
AllFit-IsAnswered (spec ∷ specs) (m ∷ ms) by_key ((key, same, id), f) (c, cs) (new, d) = (
  (
    c,
    (
      m,
      rw (← key) (existing_member-index m ms by_key new id),
      (member_needs_update-Agrees spec m).1 same,
    ),
  ),
  AllFit-IsAnswered specs ms (add_member m by_key) f cs d,
)
AllFit-IsAnswered [] (m ∷ ms) by_key f c d = absurd f
AllFit-IsAnswered (spec ∷ specs) [] by_key f c d = absurd f
