-- ===== src/Members/Again.antt =====
-- BackendMemberManager.Ensure: a second run over the members that a first one returned.
use garden_extension_f5_loca.Prelude.{
  All, All-imp, Bool, List, String, [], arith, eq_iff, false, map, refl, true, ◌∷◌, ◌≡◌,
}
use garden_extension_f5_loca.Cmp.{PoolClient, PoolMemberResource, PoolMemberSpec}
use garden_extension_f5_loca.Dict.{All-insert, contains}
use garden_extension_f5_loca.Dict.Unwanted.{unwanted_ids, unwanted_ids-nil}
use garden_extension_f5_loca.Exec.{ok, ◌>>=◌}
use garden_extension_f5_loca.Exec.Rules.{bind-Steps}
use garden_extension_f5_loca.Members.{
  MemberMap, add_member, delete_unwanted, ensure, index_members, is_complete, member_key, reconcile,
  reconcile_member, reconcile_members, spec_key,
}
use garden_extension_f5_loca.Members.Converged.{
  AllFit, AllFit-IsAnswered, Distinct, Echoes, IsAnswered, index_members-IsKeyed,
  reconcile_members-AllFit,
}

-- The ids of the recorded members whose key is not desired.
abbrev pub obsolete_ids : List String → MemberMap → List String
obsolete_ids = unwanted_ids (λ (m : PoolMemberResource). m.id)

abbrev HasKeyIn : List String → String × PoolMemberResource → Type 0
HasKeyIn keys (key, m) = contains key keys ≡ true

add_member-HasKeyIn :
    (keys : List String) (m : PoolMemberResource) (by_key : MemberMap)
    → contains (member_key m) keys ≡ true
    → All (HasKeyIn keys) by_key
    → All (HasKeyIn keys) (add_member m by_key)
unfolding add_member
add_member-HasKeyIn keys m by_key e h =
    ground (arith, All-insert (HasKeyIn keys) (member_key m) m by_key e)

index_members-HasKeyIn :
    (keys : List String) (ms : List PoolMemberResource) (by_key : MemberMap)
    → All (λ m. contains (member_key m) keys ≡ true) ms
    → All (HasKeyIn keys) by_key
    → All (HasKeyIn keys) (index_members ms by_key)
unfolding index_members
index_members-HasKeyIn keys [] by_key h k = k
index_members-HasKeyIn keys (m ∷ ms) by_key h k =
    index_members-HasKeyIn keys ms (add_member m by_key) h.1
      (add_member-HasKeyIn keys m by_key h.0 k)

contains-cons :
    (k j : String) (keys : List String) → contains k keys ≡ true → contains k (j ∷ keys) ≡ true
unfolding contains
contains-cons k j keys h = ground arith

AllFit-keys :
    (specs : List PoolMemberSpec) (ms : List PoolMemberResource)
    → AllFit specs ms
    → All (λ m. contains (member_key m) (map spec_key specs) ≡ true) ms
unfolding contains
AllFit-keys [] [] f = tt
AllFit-keys (spec ∷ specs) (m ∷ ms) ((key, _, _), f) = (
  ground (arith, eq_iff (spec_key spec) (member_key m)),
  All-imp (λ (n : PoolMemberResource). contains (member_key n) (map spec_key specs) ≡ true)
      (λ n. contains (member_key n) (map spec_key (spec ∷ specs)) ≡ true) ms
      (λ n. contains-cons (member_key n) (spec_key spec) (map spec_key specs))
      (AllFit-keys specs ms f),
)
AllFit-keys [] (m ∷ ms) f = absurd f
AllFit-keys (spec ∷ specs) [] f = absurd f

module _ {W : Type 0} (client : PoolClient W) (lb_id vs_id pool_id : String) where
  reconcile_members-quiet :
      (by_key : MemberMap) (specs : List PoolMemberSpec) (w : W)
      → All (IsAnswered by_key) specs
      → (ms : List PoolMemberResource) × (reconcile_members client lb_id vs_id pool_id by_key specs
            w
          ≡ record { reply = ok (ms, false); world = w; trace = [] })
  unfolding reconcile_members reconcile_member ◌>>=◌
  reconcile_members-quiet by_key [] w h = ([], refl)
  reconcile_members-quiet by_key (spec ∷ specs) w ((complete, (m, found, same)), h) =
      let (ms, rest) = reconcile_members-quiet by_key specs w h in (m ∷ ms, ground (arith, rest))

  delete_unwanted-quiet :
      (desired : List String) (by_key : MemberMap) (w : W)
      → obsolete_ids desired by_key ≡ []
      → delete_unwanted client lb_id vs_id pool_id desired by_key w
        ≡ record { reply = ok false; world = w; trace = [] }
  unfolding delete_unwanted ◌>>=◌
  delete_unwanted-quiet desired [] w h = refl
  delete_unwanted-quiet desired ((key, m) ∷ by_key) w h =
      ground (arith, delete_unwanted-quiet desired by_key w)

  reconcile-AllFit :
      (observed : List PoolMemberResource) (desired : List PoolMemberSpec) (w : W)
      (a : List PoolMemberResource × Bool)
      → Echoes client
      → (reconcile client lb_id vs_id pool_id observed desired w).reply ≡ ok a
      → AllFit desired a.0 × All (λ s. is_complete s ≡ true) desired
  unfolding reconcile
  reconcile-AllFit observed desired w a echo h =
      let by_key = index_members observed [] in
      let one = bind-Steps (reconcile_members client lb_id vs_id pool_id by_key desired) _ w a h in
      let two =
        bind-Steps (delete_unwanted client lb_id vs_id pool_id (map spec_key desired) by_key) _ _ a
          one.rest in
      let same : one.value.0 ≡ a.0 = ground (arith, two.rest) in
      rw (← same) (
        reconcile_members-AllFit client lb_id vs_id pool_id by_key desired w one.value echo
          (index_members-IsKeyed observed [] tt) one.first)

  pub ensure-reconcile :
      (observed : List PoolMemberResource) (desired : List PoolMemberSpec) (w : W)
      (a : List PoolMemberResource × Bool)
      → (ensure client lb_id vs_id pool_id observed desired w).reply ≡ ok a
      → (v : W)
      → ensure client lb_id vs_id pool_id observed desired v
        ≡ reconcile client lb_id vs_id pool_id observed desired v
  unfolding ensure
  ensure-reconcile observed desired w a h v = ground arith

-- A run that succeeds returns one member for each desired one, in order, with its key, its type (compute
-- where it is blank), its weight and an id. CMP is taken to answer a creation with a member of the key,
-- type and weight that were asked for, and an update with such a member that has an id.
pub ensure-answers :
    {W : Type 0} (client : PoolClient W) (lb_id vs_id pool_id : String)
    (observed : List PoolMemberResource) (desired : List PoolMemberSpec) (w : W)
    (ms : List PoolMemberResource) (changed : Bool)
    → Echoes client
    → (ensure client lb_id vs_id pool_id observed desired w).reply ≡ ok (ms, changed)
    → AllFit desired ms
ensure-answers client lb_id vs_id pool_id observed desired w ms changed echo h =
    (reconcile-AllFit client lb_id vs_id pool_id observed desired w (ms, changed) echo
      (rw (ensure-reconcile client lb_id vs_id pool_id observed desired w (ms, changed) h w) at
        h)).0

-- Once a run has succeeded, a run over the members that it returned makes no call and reports no
-- change, provided that no two of them share a key, and that CMP answers a creation with a member of the
-- key, type and weight that were asked for, and an update with such a member that has an id.
pub ensure_again :
    {W : Type 0} (client : PoolClient W) (lb_id vs_id pool_id : String)
    (observed : List PoolMemberResource) (desired : List PoolMemberSpec) (w w' : W)
    (ms : List PoolMemberResource) (changed : Bool)
    → Echoes client
    → (ensure client lb_id vs_id pool_id observed desired w).reply ≡ ok (ms, changed)
    → Distinct (map member_key ms)
    → (ms' : List PoolMemberResource) × (ensure client lb_id vs_id pool_id ms desired w'
        ≡ record { reply = ok (ms', false); world = w'; trace = [] })
unfolding ensure reconcile ◌>>=◌
ensure_again client lb_id vs_id pool_id observed desired w w' ms changed echo h d =
    let (fit, complete) =
      reconcile-AllFit client lb_id vs_id pool_id observed desired w (ms, changed) echo
        (ground arith) in
    let answered = AllFit-IsAnswered desired ms [] fit complete d in
    let (ms', quiet) =
      reconcile_members-quiet client lb_id vs_id pool_id (index_members ms []) desired w'
        answered in
    let none_obsolete =
      unwanted_ids-nil (λ (m : PoolMemberResource). m.id) (map spec_key desired)
        (index_members ms [])
        (index_members-HasKeyIn (map spec_key desired) ms [] (AllFit-keys desired ms fit) tt) in
    let still =
      delete_unwanted-quiet client lb_id vs_id pool_id (map spec_key desired) (index_members ms [])
        w' none_obsolete in
    (ms', ground (arith, quiet, still, h))
