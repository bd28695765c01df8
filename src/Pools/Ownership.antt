-- ===== src/Pools/Ownership.antt =====
-- PoolManager.EnsureOwned: which pools a run changes.
use garden_extension_f5_loca.Prelude.{
  All, Bool, List, String, [], arith, eq_iff, false, inl, inr, int_eq, nat_eq, none, some,
  string_eq, true, ◌!=◌, ◌≡◌,
}
use garden_extension_f5_loca.Prelude.{refl, ◌⊎◌}
use garden_extension_f5_loca.Cmp.{
  Event, PoolClient, PoolMemberSpec, PoolResource, PoolSpec, created_pool, created_pool_member,
  deleted_pool_member, is_read, set_default_pool, updated_pool_member,
}
use garden_extension_f5_loca.Exec.{Result, Result-cases, err, ok, ◌>>=◌}
use garden_extension_f5_loca.Exec.Rules.{
  Emits, Emits-bind, Emits-bind-post, Emits-pure, emits_rules,
}
use garden_extension_f5_loca.Members.Calls.{ensure-Emits}
use garden_extension_f5_loca.Model.{Pool}
use garden_extension_f5_loca.Pools.{
  choose_pool, converge, create_pool, ensure, ensure_owned, find_pool, make_default, pool_spec,
  post_pool, reconcile, set_default,
}
use garden_extension_f5_loca.Pools.Choice.{Choice, Chosen, IsRecorded, IsUnused, choose_pool-Chosen}
use garden_extension_f5_loca.Text.{trim_space}

module _ {W : Type 0} (client : PoolClient W) (lb_id vs_id : String) where
  -- The id is the recorded one, or that of a pool which CMP created here.
  abbrev pub IsOurs : String → String → Type 0
  IsOurs id pool_id =
      (trim_space pool_id ≡ id)
      ⊎ ((w : W) × (spec : PoolSpec) × (pool : PoolResource) × ((client.create_pool lb_id vs_id spec
              w).0
            ≡ ok pool)
          × (pool_id ≡ pool.id))

  -- A pool is created only where no listed pool has the name; all other changes are made to a pool
  -- that is ours, and none is deleted.
  abbrev pub StaysOurs : String → String → List PoolResource → Event → Type 0
  StaysOurs id name existing (created_pool lb vs spec r) =
      (lb ≡ lb_id) × (vs ≡ vs_id) × IsUnused name existing
  StaysOurs id name existing (set_default_pool lb vs pool_id r) =
      (lb ≡ lb_id) × (vs ≡ vs_id) × IsOurs id pool_id
  StaysOurs id name existing (created_pool_member lb vs pool_id spec r) =
      (lb ≡ lb_id) × (vs ≡ vs_id) × IsOurs id pool_id
  StaysOurs id name existing (updated_pool_member lb vs pool_id m spec r) =
      (lb ≡ lb_id) × (vs ≡ vs_id) × IsOurs id pool_id
  StaysOurs id name existing (deleted_pool_member lb vs pool_id m r) =
      (lb ≡ lb_id) × (vs ≡ vs_id) × IsOurs id pool_id
  StaysOurs id name existing e = is_read e ≡ true

  module _ (id name : String) (existing : List PoolResource) where
    recorded_has_id : (pool : PoolResource) → IsRecorded id pool → (trim_space pool.id != "") ≡ true
    recorded_has_id pool h = ground (arith, eq_iff (trim_space pool.id) "", h)

    make_default-StaysOurs :
        (pool_id : String)
        → IsOurs id pool_id
        → Emits (StaysOurs id name existing) (make_default client lb_id vs_id pool_id)
    make_default-StaysOurs pool_id o = record { at = λ w. ((refl, refl, o), tt) }

    set_default-StaysOurs :
        (wanted : Bool) (pool : PoolResource)
        → IsOurs id pool.id
        → Emits (StaysOurs id name existing) (set_default client lb_id vs_id wanted pool)
    unfolding set_default
    set_default-StaysOurs wanted pool o =
        search (emits_rules, make_default-StaysOurs pool.id o) depth 8

    converge-StaysOurs :
        (members : List PoolMemberSpec) (wanted : Bool) (pool : PoolResource)
        → IsOurs id pool.id
        → Emits (StaysOurs id name existing) (converge client lb_id vs_id members wanted pool)
    unfolding converge
    converge-StaysOurs members wanted pool o =
        Emits-bind _ _
          (ensure-Emits client lb_id vs_id pool.id (StaysOurs id name existing)
            (λ spec r. (refl, refl, o)) (λ m spec r. (refl, refl, o)) (λ m r. (refl, refl, o))
            pool.members members)
          λ a.
            Emits-bind _ _ (set_default-StaysOurs wanted (record pool { members = a.0 }) o)
              λ b. Emits-pure _

    post_pool-StaysOurs :
        (desired : Pool) (members : List PoolMemberSpec)
        → IsUnused name existing
        → Emits (StaysOurs id name existing) (post_pool client lb_id vs_id desired members)
    post_pool-StaysOurs desired members u = record { at = λ w. ((refl, refl, u), tt) }

    create_pool-StaysOurs :
        (desired : Pool) (members : List PoolMemberSpec)
        → IsUnused name existing
        → Emits (StaysOurs id name existing) (create_pool client lb_id vs_id desired members)
    unfolding create_pool
    create_pool-StaysOurs desired members u =
        search (emits_rules, post_pool-StaysOurs desired members u) depth 8

    create_pool-IsOurs :
        (desired : Pool) (members : List PoolMemberSpec) (w : W) (a : PoolResource × Bool)
        → (create_pool client lb_id vs_id desired members w).reply ≡ ok a
        → IsOurs id a.0.id
    unfolding create_pool ◌>>=◌
    create_pool-IsOurs desired members w a e =
        elim (Result-cases (client.create_pool lb_id vs_id (pool_spec desired members) w).0) [
          | inl (pool, q) ↦ inr (w, pool_spec desired members, pool, q, ground arith)
          | inr (x, q) ↦ absurd (ground arith)
        ]

    find_pool-StaysOurs :
        (desired : Pool) (members : List PoolMemberSpec) (r : Choice)
        → Chosen name id existing false r
        → Emits (StaysOurs id name existing) (find_pool client lb_id vs_id desired members false r)
    unfolding find_pool
    find_pool-StaysOurs desired members none h = record { at = λ w. tt }
    find_pool-StaysOurs desired members (some (none, true)) h = record { at = λ w. tt }
    find_pool-StaysOurs desired members (some (none, false)) h =
        create_pool-StaysOurs desired members (h refl).1
    find_pool-StaysOurs desired members (some (some pool, found)) h = record {
      at = λ w. rw (recorded_has_id pool h) tt;
    }

    find_pool-IsOurs :
        (desired : Pool) (members : List PoolMemberSpec) (r : Choice) (w : W)
        (a : PoolResource × Bool)
        → Chosen name id existing false r
        → (find_pool client lb_id vs_id desired members false r w).reply ≡ ok a
        → IsOurs id a.0.id
    unfolding find_pool
    find_pool-IsOurs desired members none w a h e = absurd h
    find_pool-IsOurs desired members (some (none, true)) w a h e = cc
    find_pool-IsOurs desired members (some (none, false)) w a h e =
        create_pool-IsOurs desired members w a e
    find_pool-IsOurs desired members (some (some pool, found)) w a h e =
        let same : pool.id ≡ a.0.id = ground (arith, recorded_has_id pool h) in
        inl (rw (← same) h.1)

  reconcile-StaysOurs :
      (desired : Pool) (members : List PoolMemberSpec) (wanted : Bool) (observed_id : String)
      (existing : List PoolResource)
      → Emits
          (StaysOurs (trim_space observed_id) desired.name existing)
          (reconcile client lb_id vs_id desired members wanted observed_id false existing)
  unfolding reconcile
  reconcile-StaysOurs desired members wanted observed_id existing =
      let id = trim_space observed_id in
      let name = desired.name in
      let r = choose_pool name id false existing none false in
      let h = choose_pool-Chosen name id existing false in
      Emits-bind-post {Q = λ a. IsOurs id a.0.id}
        (find_pool client lb_id vs_id desired members false r) _
        (find_pool-StaysOurs id name existing desired members r h)
        (λ w a. find_pool-IsOurs id name existing desired members r w a h)
        λ a o.
          Emits-bind _ _ (converge-StaysOurs id name existing members wanted a.0 o)
            λ b. Emits-pure _

-- The pools of a listing.
abbrev pub listed : Result (List PoolResource) → List PoolResource
listed (ok existing) = existing
listed (err e) = []

-- Whatever CMP answers, a run that owns by id makes every change on its virtual server: it creates a
-- pool only where no listed pool has the name, changes only the recorded pool or one that it created,
-- and deletes no pool.
pub ensure_owned-StaysOurs :
    {W : Type 0} (client : PoolClient W) (lb_id vs_id : String) (desired : Pool)
    (members : List PoolMemberSpec) (wanted : Bool) (observed_id : String) (w : W)
    → All
        (StaysOurs client lb_id vs_id
          (trim_space observed_id)
          desired.name
          (listed (client.list_pools lb_id vs_id w).0))
        (ensure_owned client lb_id vs_id desired members wanted observed_id w).trace
unfolding ensure_owned ensure ◌>>=◌
ensure_owned-StaysOurs client lb_id vs_id desired members wanted observed_id w =
    let w' = (client.list_pools lb_id vs_id w).1 in
    elim (Result-cases (client.list_pools lb_id vs_id w).0) [
      | inl (existing, q) ↦ rw q (
          ground (
            arith,
            (reconcile-StaysOurs client lb_id vs_id desired members wanted observed_id existing).at
                w',
          ))
      | inr (e, q) ↦ rw q (ground arith)
    ]
