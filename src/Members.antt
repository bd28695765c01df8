-- ===== src/Members.antt =====
-- pkg/deploy/lbaas/backend_member_manager.go: the members of one pool. A run that fails drops the
-- members that it had reconciled so far, since no caller reads them.
pub mod Converged
pub mod Again
pub mod Calls
pub mod Deletions
use garden_extension_f5_loca.Prelude.{
  Bool, List, Option, String, [], false, if◌then◌else◌, int_eq, map, nat_eq, none, not, pos, some,
  string_eq, true, ℤ, ◌!=◌, ◌==◌, ◌||◌, ◌∷◌,
}
use garden_extension_f5_loca.Cmp.{
  Cmp, PoolClient, PoolMemberResource, PoolMemberSpec, created_pool_member, deleted_pool_member,
  updated_pool_member,
}
use garden_extension_f5_loca.Dict.{contains, insert, lookup}
use garden_extension_f5_loca.Exec.{Done, call, errorf, pure, raise, wrapf, wrapping, ◌>>=◌, ◌>>◌}
use garden_extension_f5_loca.Text.{trim_space}
use garden_extension_f5_loca.Text.Decimal.{show}
use garden_extension_f5_loca.Text.Join.{join}

-- poolMemberKey
unfoldable pub pool_member_key : String → String → ℤ → ℤ → String
pool_member_key resource_id resource_ip backend_port_id port =
    join "|"
      (trim_space resource_id ∷ trim_space resource_ip ∷ show backend_port_id ∷ show port ∷ [])

abbrev pub member_key : PoolMemberResource → String
member_key m = pool_member_key m.resource_id m.resource_ip m.backend_port_id m.port

-- poolMemberSpecKey
abbrev pub spec_key : PoolMemberSpec → String
spec_key s = pool_member_key s.resource_id s.resource_ip s.backend_port_id s.port

unfoldable pub default_resource_type : String → String
default_resource_type resource_type =
    if trim_space resource_type == "" then "compute" else resource_type

unfoldable pub member_needs_update : PoolMemberResource → PoolMemberSpec → Bool
member_needs_update observed desired =
    (trim_space observed.resource_type != trim_space (default_resource_type desired.resource_type))
    || (observed.weight != desired.weight)

abbrev pub MemberMap : Type 0
MemberMap = List (String × PoolMemberResource)

unfoldable pub add_member : PoolMemberResource → MemberMap → MemberMap
add_member m by_key =
    if trim_space (member_key m) == "" then by_key else insert (member_key m) m by_key

-- byKey: the observed members; a later one takes the place of an earlier one.
unfoldable pub index_members : List PoolMemberResource → MemberMap → MemberMap
index_members [] by_key = by_key
index_members (m ∷ ms) by_key = index_members ms (add_member m by_key)

-- byKey[key], where it holds a member with an id.
unfoldable pub existing_member : String → MemberMap → Option PoolMemberResource
existing_member key by_key = elim (lookup key by_key) [
  | none ↦ none
  | some m ↦ if trim_space m.id == "" then none else some m
]

abbrev pub is_complete : PoolMemberSpec → Bool
is_complete spec = not (
    trim_space spec.resource_id == ""
    || (spec.backend_port_id == pos 0 || (trim_space spec.resource_ip == "" || spec.port == pos 0)))

module _ {W : Type 0} (client : PoolClient W) (lb_id vs_id pool_id : String) where
  update_member : PoolMemberSpec → PoolMemberResource → Cmp W (PoolMemberResource × Bool)
  update_member spec m =
      if member_needs_update m spec
      then (do
        updated ← wrapping (wrapf "updating backend member %s in pool %s" (m.id ∷ pool_id ∷ [])) (
            call (client.update_pool_member lb_id vs_id pool_id m.id spec)
              (updated_pool_member lb_id vs_id pool_id m.id spec))
        pure (updated, true))
      else pure (m, false)

  create_member : PoolMemberSpec → Cmp W (PoolMemberResource × Bool)
  create_member spec = do
    created ←
        wrapping
          (wrapf "creating backend member %s:%d in pool %s"
            (spec.resource_ip ∷ show spec.port ∷ pool_id ∷ []))
          (call (client.create_pool_member lb_id vs_id pool_id spec)
            (created_pool_member lb_id vs_id pool_id spec))
    if trim_space created.id == ""
        then raise (
            errorf "CMP created backend member %s:%d without a provider id"
              (spec.resource_ip ∷ show spec.port ∷ []))
        else pure (created, true)

  settle_member : PoolMemberSpec → Option PoolMemberResource → Cmp W (PoolMemberResource × Bool)
  settle_member spec (some m) = update_member spec m
  settle_member spec none = create_member spec

  -- One round of the loop over the desired members.
  unfoldable pub reconcile_member : MemberMap → PoolMemberSpec → Cmp W (PoolMemberResource × Bool)
  unfolding settle_member update_member create_member
  reconcile_member by_key spec =
      if is_complete spec
      then settle_member spec (existing_member (spec_key spec) by_key)
      else raise
          (errorf "backend member requires resource_id, resource_ip, backend_port_id and port" [])

  unfoldable pub reconcile_members :
      MemberMap → List PoolMemberSpec → Cmp W (List PoolMemberResource × Bool)
  reconcile_members by_key [] = pure ([], false)
  reconcile_members by_key (spec ∷ specs) = do
    (m, touched) ← reconcile_member by_key spec
    (ms, changed) ← reconcile_members by_key specs
    pure (m ∷ ms, touched || changed)

  abbrev pub delete_member : String → Cmp W Done
  delete_member id =
      wrapping (wrapf "deleting obsolete backend member %s from pool %s" (id ∷ pool_id ∷ [])) (
        call (client.delete_pool_member lb_id vs_id pool_id id)
          (deleted_pool_member lb_id vs_id pool_id id))

  -- The loop over byKey: whether a member was deleted.
  unfoldable pub delete_unwanted : List String → MemberMap → Cmp W Bool
  delete_unwanted desired [] = pure false
  delete_unwanted desired ((key, m) ∷ by_key) =
      let rest = delete_unwanted desired by_key in
      if contains key desired || trim_space m.id == ""
      then rest
      else do delete_member m.id; rest; pure true

  -- The two loops of BackendMemberManager.Ensure.
  unfoldable pub reconcile :
      List PoolMemberResource → List PoolMemberSpec → Cmp W (List PoolMemberResource × Bool)
  reconcile observed desired = do
    let by_key = index_members observed []
    (ms, touched) ← reconcile_members by_key desired
    deleted ← delete_unwanted (map spec_key desired) by_key
    pure (ms, touched || deleted)

  unfoldable pub ensure :
      List PoolMemberResource → List PoolMemberSpec → Cmp W (List PoolMemberResource × Bool)
  ensure observed desired =
      if trim_space lb_id == "" || (trim_space vs_id == "" || trim_space pool_id == "")
      then raise (
          errorf
            "lb service id, virtual server id and pool id are required for backend member reconciliation"
            [])
      else reconcile observed desired
