-- ===== src/Pools.antt =====
-- pkg/deploy/lbaas/pool_manager.go: one pool of a virtual server. The pool that Go returns beside an
-- error is dropped, since no caller reads it.
pub mod Choice
pub mod Ownership
use garden_extension_f5_loca.Members
use garden_extension_f5_loca.Prelude.{
  Bool, List, Option, String, [], false, if◌then◌else◌, int_eq, nat_eq, none, not, some, string_eq,
  true, ◌!=◌, ◌&&◌, ◌==◌, ◌||◌, ◌∷◌,
}
use garden_extension_f5_loca.Cmp.{
  Cmp, PoolClient, PoolMemberSpec, PoolResource, PoolSpec, created_pool, deleted_pool, listed_pools,
  set_default_pool,
}
use garden_extension_f5_loca.Exec.{Done, call, errorf, pure, raise, wrapf, wrapping, ◌>>=◌, ◌>>◌}
use garden_extension_f5_loca.Model.{Pool}
use garden_extension_f5_loca.Text.{equal_fold, trim_space}

abbrev pub has_id : Option PoolResource → Bool
has_id none = false
has_id (some pool) = trim_space pool.id != ""

abbrev pub pool_spec : Pool → List PoolMemberSpec → PoolSpec
pool_spec desired members = record {
  name = desired.name;
  protocol = "";
  routing_algorithm = "";
  monitor = desired.monitor;
  members = members;
}

-- The loop over the listed pools: the pool that is ours so far, and whether another pool carries the
-- name. `none` means two pools of the name where names are adopted.
unfoldable pub choose_pool :
    String
    → String
    → Bool
    → List PoolResource
    → Option PoolResource
    → Bool
    → Option (Option PoolResource × Bool)
choose_pool name observed_id adopt [] pool collision = some (pool, collision)
choose_pool name observed_id adopt (candidate ∷ existing) pool collision =
    let ours = choose_pool name observed_id adopt existing (some candidate) collision in
    let skip = choose_pool name observed_id adopt existing pool collision in
    let foreign = choose_pool name observed_id adopt existing pool true in
    let adopted = choose_pool name observed_id adopt existing (some candidate) true in
    if observed_id != "" && trim_space candidate.id == observed_id
    then ours
    else if not (equal_fold (trim_space candidate.name) (trim_space name))
    then skip
    else if not adopt
    then foreign
    else if has_id pool
    then none
    else adopted

module _ {W : Type 0} (client : PoolClient W) (lb_id vs_id : String) where
  abbrev post_pool : Pool → List PoolMemberSpec → Cmp W PoolResource
  post_pool desired members =
      let spec = pool_spec desired members in
      wrapping (wrapf "creating pool %s on virtual server %s" (desired.name ∷ vs_id ∷ []))
        (call (client.create_pool lb_id vs_id spec) (created_pool lb_id vs_id spec))

  create_pool : Pool → List PoolMemberSpec → Cmp W (PoolResource × Bool)
  create_pool desired members = do
    pool ← post_pool desired members
    if trim_space pool.id == ""
        then raise (errorf "CMP created pool %q without a provider id" (desired.name ∷ []))
        else pure (pool, true)

  -- The pool to reconcile, and whether it is new.
  unfoldable pub find_pool :
      Pool
      → List PoolMemberSpec
      → Bool
      → Option (Option PoolResource × Bool)
      → Cmp W (PoolResource × Bool)
  unfolding create_pool
  find_pool desired members adopt none =
      raise (errorf "ambiguous CMP pools named %q on virtual server %s" (desired.name ∷ vs_id ∷ []))
  find_pool desired members adopt (some (none, collision)) =
      if collision && not adopt
      then raise (
          errorf "pool %q on virtual server %s is owned by another stack"
            (desired.name ∷ vs_id ∷ []))
      else create_pool desired members
  find_pool desired members adopt (some (some pool, collision)) =
      if trim_space pool.id != ""
      then pure (pool, false)
      else if collision && not adopt
      then raise (
          errorf "pool %q on virtual server %s is owned by another stack"
            (desired.name ∷ vs_id ∷ []))
      else create_pool desired members

  abbrev make_default : String → Cmp W Done
  make_default pool_id =
      wrapping (wrapf "setting pool %s as default on virtual server %s" (pool_id ∷ vs_id ∷ []))
        (call (client.set_default_pool lb_id vs_id pool_id) (set_default_pool lb_id vs_id pool_id))

  set_default : Bool → PoolResource → Cmp W (PoolResource × Bool)
  set_default wanted pool =
      if wanted && not pool.is_default
      then (do make_default pool.id; pure (record pool { is_default = true }, true))
      else pure (pool, false)

  -- The members of the pool, and whether it is the default.
  unfoldable pub converge : List PoolMemberSpec → Bool → PoolResource → Cmp W (PoolResource × Bool)
  unfolding set_default
  converge members wanted pool = do
    (converged, members_changed) ← Members.ensure client lb_id vs_id pool.id pool.members members
    (settled, default_changed) ← set_default wanted (record pool { members = converged })
    pure (settled, members_changed || default_changed)

  unfoldable pub reconcile :
      Pool
      → List PoolMemberSpec
      → Bool
      → String
      → Bool
      → List PoolResource
      → Cmp W (PoolResource × Bool)
  reconcile desired members wanted observed_id adopt existing = do
    (pool, created) ←
        find_pool desired members adopt
          (choose_pool desired.name (trim_space observed_id) adopt existing none false)
    (settled, changed) ← converge members wanted pool
    pure (settled, created || changed)

  -- ensure; EnsureOwned adopts no pool by its name, Ensure does.
  unfoldable pub ensure :
      Pool → List PoolMemberSpec → Bool → String → Bool → Cmp W (PoolResource × Bool)
  ensure desired members wanted observed_id adopt =
      if trim_space lb_id == ""
      then raise (errorf "lb service id must not be empty" [])
      else if trim_space vs_id == ""
      then raise (errorf "virtual server id must not be empty" [])
      else if trim_space desired.name == ""
      then raise (errorf "pool name must not be empty" [])
      else do
        existing ←
            wrapping (wrapf "listing pools on virtual server %s" (vs_id ∷ []))
              (call (client.list_pools lb_id vs_id) (listed_pools lb_id vs_id))
        reconcile desired members wanted observed_id adopt existing

  -- EnsureOwned
  unfoldable pub ensure_owned :
      Pool → List PoolMemberSpec → Bool → String → Cmp W (PoolResource × Bool)
  ensure_owned desired members wanted observed_id = ensure desired members wanted observed_id false

  -- Cleanup
  unfoldable pub cleanup : String → Cmp W Done
  cleanup pool_id =
      let lb = trim_space lb_id in
      let vs = trim_space vs_id in
      let pool = trim_space pool_id in
      if lb == "" || (vs == "" || pool == "")
      then pure tt
      else call (client.delete_pool lb vs pool) (deleted_pool lb vs pool)
