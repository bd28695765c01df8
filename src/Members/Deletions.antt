-- ===== src/Members/Deletions.antt =====
-- BackendMemberManager.Ensure: which members a run deletes.
use mathlib.Core.List.{append-nil}
use garden_extension_f5_loca.Prelude.{
  Bool, Bool-cases, List, String, [], ap, arith, false, inl, inr, int_eq, map, nat_eq, refl, some,
  string_eq, sym, true, ◌++◌, ◌==◌, ◌||◌, ◌↔◌, ◌∙◌, ◌∷◌, ◌≡◌, ◌≢◌,
}
use garden_extension_f5_loca.Cmp.{
  Event, PoolClient, PoolMemberResource, PoolMemberSpec, deleted_pool_member,
}
use garden_extension_f5_loca.Dict.{contains, lookup, lookup-All}
use garden_extension_f5_loca.Dict.Unwanted.{
  HasDistinctKeys, HasDistinctKeys-insert, contains-unwanted_ids, last_where, last_where-cons,
  or_else, or_else-none, unwanted_ids-contains,
}
use garden_extension_f5_loca.Exec.{ok, pure, ◌>>=◌, ◌>>◌}
use garden_extension_f5_loca.Exec.Rules.{Yields, Yields-if, bind-Steps}
use garden_extension_f5_loca.Members.{
  MemberMap, add_member, delete_member, delete_unwanted, ensure, index_members, member_key,
  reconcile, reconcile_member, reconcile_members, spec_key,
}
use garden_extension_f5_loca.Members.Again.{ensure-reconcile, obsolete_ids}
use garden_extension_f5_loca.Members.Converged.{IsKeyed, index_members-IsKeyed, lookup-add_member}
use garden_extension_f5_loca.Text.{trim_space}

-- The ids of the members that a trace deletes.
abbrev pub deleted_ids : List Event → List String
deleted_ids [] = []
deleted_ids (deleted_pool_member _ _ _ id _ ∷ t) = id ∷ deleted_ids t
deleted_ids (_ ∷ t) = deleted_ids t

deleted_ids-append : (s t : List Event) → deleted_ids (s ++ t) ≡ deleted_ids s ++ deleted_ids t
deleted_ids-append [] t = refl
deleted_ids-append (deleted_pool_member _ _ _ id _ ∷ s) t =
    ap (λ l. id ∷ l) (deleted_ids-append s t)
deleted_ids-append (_ ∷ s) t = deleted_ids-append s t

module _ {W : Type 0} (client : PoolClient W) (lb_id vs_id pool_id : String) where
  reconcile_member-ids :
      (by_key : MemberMap) (spec : PoolMemberSpec) (w : W)
      → deleted_ids (reconcile_member client lb_id vs_id pool_id by_key spec w).trace ≡ []
  unfolding reconcile_member ◌>>=◌
  reconcile_member-ids by_key spec w = ground arith

  reconcile_members-ids :
      (by_key : MemberMap) (specs : List PoolMemberSpec)
      → Yields
          (λ t a. deleted_ids t ≡ [])
          (reconcile_members client lb_id vs_id pool_id by_key specs)
  unfolding reconcile_members
  reconcile_members-ids by_key [] = record { at = λ w a h. refl }
  reconcile_members-ids by_key (spec ∷ specs) = record {
    at = λ w a h.
        let one = bind-Steps (reconcile_member client lb_id vs_id pool_id by_key spec) _ w a h in
        let all =
          bind-Steps (reconcile_members client lb_id vs_id pool_id by_key specs) _ _ a one.rest in
        simp (
          one.trace,
          all.trace,
          deleted_ids-append,
          reconcile_member-ids by_key spec w,
          (reconcile_members-ids by_key specs).at _ _ all.first,
        );
  }

  delete_unwanted-ids :
      (desired : List String) (by_key : MemberMap)
      → Yields
          (λ t a. deleted_ids t ≡ obsolete_ids desired by_key)
          (delete_unwanted client lb_id vs_id pool_id desired by_key)
  unfolding delete_unwanted
  delete_unwanted-ids desired [] = record { at = λ w a h. refl }
  delete_unwanted-ids desired ((key, m) ∷ by_key) =
      let rest = delete_unwanted client lb_id vs_id pool_id desired by_key in
      let ih = delete_unwanted-ids desired by_key in
      let delete = delete_member client lb_id vs_id pool_id m.id in
      Yields-if (contains key desired || trim_space m.id == "") rest (delete >> (rest >> pure true))
        (λ e. rw e ih)
        (λ e. rw e (record {
          at = λ w a h.
              let one = bind-Steps delete (λ _. rest >> pure true) w a h in
              let both = bind-Steps rest (λ _. pure true) _ a one.rest in
              simp (one.trace, both.trace, ih.at _ _ both.first, append-nil);
        }))

ensure-deleted :
    {W : Type 0} (client : PoolClient W) (lb_id vs_id pool_id : String)
    (observed : List PoolMemberResource) (desired : List PoolMemberSpec) (w : W)
    (ms : List PoolMemberResource) (changed : Bool)
    → (ensure client lb_id vs_id pool_id observed desired w).reply ≡ ok (ms, changed)
    → deleted_ids (ensure client lb_id vs_id pool_id observed desired w).trace
      ≡ obsolete_ids (map spec_key desired) (index_members observed [])
unfolding reconcile
ensure-deleted client lb_id vs_id pool_id observed desired w ms changed h =
    let by_key = index_members observed [] in
    let same = ensure-reconcile client lb_id vs_id pool_id observed desired w (ms, changed) h w in
    let one =
      bind-Steps (reconcile_members client lb_id vs_id pool_id by_key desired) _ w (ms, changed)
        (rw same at h) in
    let two =
      bind-Steps (delete_unwanted client lb_id vs_id pool_id (map spec_key desired) by_key) _ _
        (ms, changed) one.rest in
    rw same (
      simp
        (
          one.trace,
          two.trace,
          deleted_ids-append,
          (reconcile_members-ids client lb_id vs_id pool_id by_key desired).at _ _ one.first,
          (delete_unwanted-ids client lb_id vs_id pool_id (map spec_key desired) by_key).at _ _
              two.first,
          append-nil,
        )
        refl)

-- The index of the observed members holds the last one of each key.
lookup-index_last :
    (k : String) (ms : List PoolMemberResource) (by_key : MemberMap)
    → lookup k (index_members ms by_key)
      ≡ or_else (last_where (λ m. member_key m == k) ms) (lookup k by_key)
unfolding index_members
lookup-index_last k [] by_key = refl
lookup-index_last k (m ∷ ms) by_key =
    lookup-index_last k ms (add_member m by_key)
    ∙ (ap (or_else (last_where (λ m. member_key m == k) ms)) (lookup-add_member k m by_key)
        ∙ last_where-cons (λ m. member_key m == k) m ms (lookup k by_key))

index_members-HasDistinctKeys :
    (ms : List PoolMemberResource) (by_key : MemberMap)
    → HasDistinctKeys by_key
    → HasDistinctKeys (index_members ms by_key)
unfolding index_members add_member
index_members-HasDistinctKeys [] by_key h = h
index_members-HasDistinctKeys (m ∷ ms) by_key h =
    index_members-HasDistinctKeys ms (add_member m by_key)
      (elim (Bool-cases (trim_space (member_key m) == "")) [
        | inl e ↦ rw e h
        | inr e ↦ rw e (HasDistinctKeys-insert (member_key m) m by_key h)
      ])

-- The id is that of an observed member whose key is not desired, the last one of this key.
abbrev pub IsObsolete : List PoolMemberResource → List PoolMemberSpec → String → Type 0
IsObsolete observed desired id =
    (m : PoolMemberResource) × (last_where (λ x. member_key x == member_key m) observed ≡ some m)
    × (contains (member_key m) (map spec_key desired) ≡ false)
    × (trim_space m.id ≢ "")
    × (m.id ≡ id)

obsolete_ids-IsObsolete :
    (observed : List PoolMemberResource) (desired : List PoolMemberSpec) (id : String)
    → (contains id (obsolete_ids (map spec_key desired) (index_members observed [])) ≡ true)
      ↔ IsObsolete observed desired id
unfolding lookup
obsolete_ids-IsObsolete observed desired id =
    let table = index_members observed [] in
    let keys = map spec_key desired in
    let last =
      λ (k : String). last_where (λ (x : PoolMemberResource). member_key x == k) observed in
    let at : (k : String) → lookup k table ≡ last k =
      λ k. lookup-index_last k observed [] ∙ or_else-none (last k) in
    (
      λ h.
          let (k, m, found, free, set, same) =
            contains-unwanted_ids (λ (m : PoolMemberResource). m.id) keys table id
              (index_members-HasDistinctKeys observed [] tt) h in
          let key : member_key m ≡ k =
            lookup-All IsKeyed k m table (index_members-IsKeyed observed [] tt) found in
          (m, ap last key ∙ (sym (at k) ∙ found), rw key free, set, same),
      λ (m, is, free, set, same).
          unwanted_ids-contains (λ (m : PoolMemberResource). m.id) keys table id
            (member_key m, m, at (member_key m) ∙ is, free, set, same),
    )

-- The ids that a run that succeeds deletes are exactly those, as far as they are not blank, of the observed
-- members whose key is not desired, where of observed members with one key only the last counts.
pub ensure-deleted_ids :
    {W : Type 0} (client : PoolClient W) (lb_id vs_id pool_id : String)
    (observed : List PoolMemberResource) (desired : List PoolMemberSpec) (w : W)
    (ms : List PoolMemberResource) (changed : Bool)
    → (ensure client lb_id vs_id pool_id observed desired w).reply ≡ ok (ms, changed)
    → (id : String)
    → (contains id (deleted_ids (ensure client lb_id vs_id pool_id observed desired w).trace)
        ≡ true)
      ↔ IsObsolete observed desired id
ensure-deleted_ids client lb_id vs_id pool_id observed desired w ms changed h id =
    rw (ensure-deleted client lb_id vs_id pool_id observed desired w ms changed h)
      (obsolete_ids-IsObsolete observed desired id)
