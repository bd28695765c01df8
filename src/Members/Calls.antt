-- ===== src/Members/Calls.antt =====
-- BackendMemberManager.Ensure: the kinds of calls that a run makes.
use garden_extension_f5_loca.Prelude.{List, Option-cases, String, [], arith, inl, inr, ◌∷◌}
use garden_extension_f5_loca.Cmp.{
  Event, PoolClient, PoolMemberResource, PoolMemberSpec, created_pool_member, deleted_pool_member,
  updated_pool_member,
}
use garden_extension_f5_loca.Exec.{Done, Result, ◌>>=◌}
use garden_extension_f5_loca.Exec.Rules.{Emits, Emits-bind, Emits-pure, emits_rules}
use garden_extension_f5_loca.Members.{
  MemberMap, delete_member, delete_unwanted, ensure, existing_member, reconcile, reconcile_member,
  reconcile_members, spec_key,
}

module _ {W : Type 0} (client : PoolClient W) (lb_id vs_id pool_id : String) (P : Event → Type 0)
    (creates : (spec : PoolMemberSpec) (r : Result PoolMemberResource)
      → P (created_pool_member lb_id vs_id pool_id spec r))
    (updates : (id : String) (spec : PoolMemberSpec) (r : Result PoolMemberResource)
      → P (updated_pool_member lb_id vs_id pool_id id spec r))
    (deletes : (id : String) (r : Result Done)
      → P (deleted_pool_member lb_id vs_id pool_id id r)) where
  reconcile_member-Emits :
      (by_key : MemberMap) (spec : PoolMemberSpec)
      → Emits P (reconcile_member client lb_id vs_id pool_id by_key spec)
  unfolding reconcile_member ◌>>=◌
  reconcile_member-Emits by_key spec = record {
    at = λ w. elim (Option-cases (existing_member (spec_key spec) by_key)) [
      | inl missing ↦
          ground (arith, creates spec (client.create_pool_member lb_id vs_id pool_id spec w).0)
      | inr (m, found) ↦
          ground
            (arith, updates m.id spec (client.update_pool_member lb_id vs_id pool_id m.id spec w).0)
    ];
  }

  reconcile_members-Emits :
      (by_key : MemberMap) (specs : List PoolMemberSpec)
      → Emits P (reconcile_members client lb_id vs_id pool_id by_key specs)
  unfolding reconcile_members
  reconcile_members-Emits by_key [] = Emits-pure _
  reconcile_members-Emits by_key (spec ∷ specs) =
      Emits-bind _ _ (reconcile_member-Emits by_key spec)
        λ a. Emits-bind _ _ (reconcile_members-Emits by_key specs) λ b. Emits-pure _

  delete_member-Emits : (id : String) → Emits P (delete_member client lb_id vs_id pool_id id)
  delete_member-Emits id = record { at = λ w. (deletes id _, tt) }

  delete_unwanted-Emits :
      (desired : List String) (by_key : MemberMap)
      → Emits P (delete_unwanted client lb_id vs_id pool_id desired by_key)
  unfolding delete_unwanted
  delete_unwanted-Emits desired [] = Emits-pure _
  delete_unwanted-Emits desired ((key, m) ∷ by_key) =
      let rest = delete_unwanted-Emits desired by_key in
      search (emits_rules, delete_member-Emits m.id, rest) depth 8

  pub ensure-Emits :
      (observed : List PoolMemberResource) (desired : List PoolMemberSpec)
      → Emits P (ensure client lb_id vs_id pool_id observed desired)
  unfolding ensure reconcile
  ensure-Emits observed desired =
      search (emits_rules, reconcile_members-Emits, delete_unwanted-Emits) depth 8
