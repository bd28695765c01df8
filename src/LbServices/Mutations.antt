-- ===== src/LbServices/Mutations.antt =====
-- LBServiceManager.Ensure: which calls a run makes.
use garden_extension_f5_loca.Prelude.{
  All, All-imp, Bool, List, String, [], arith, eq_iff, false, int_eq, nat_eq, string_eq, true, ◌==◌,
  ◌∷◌, ◌≡◌, ◌≢◌,
}
use garden_extension_f5_loca.Cmp.{
  Client, Event, LbService, LbServiceSpec, created_lb_service, deleted_lb_service, got_lb_service,
  is_read, listed_lb_services,
}
use garden_extension_f5_loca.Exec.{Done, Error, Result, err, is_not_found, ok, wrapf, ◌>>=◌}
use garden_extension_f5_loca.Exec.Rules.{Emits, Emits-call, emits_rules}
use garden_extension_f5_loca.LbServices.{
  EnsureRequest, checked, create, created_id, ensure, ensure_created_ready, find_by_name,
  find_or_create, find_unique_by_name, replace_failed, reuse_existing, settle,
}
use garden_extension_f5_loca.Text.{trim_space}

-- Of the LB services, only the one with this id is deleted, and nothing but LB services changes.
abbrev pub OnlyDeletes : String → Event → Type 0
OnlyDeletes id (deleted_lb_service other _) = other ≡ id
OnlyDeletes id (created_lb_service _ _) = Unit
OnlyDeletes id e = is_read e ≡ true

abbrev pub IsRead : Event → Type 0
IsRead e = is_read e ≡ true

module _ {W : Type 0} (client : Client W) where
  find_by_name-reads : (name : String) → Emits IsRead (find_by_name client name)
  unfolding find_by_name ◌>>=◌
  find_by_name-reads name = record { at = λ w. ground arith }

  module _ (P : Event → Type 0) (reads : (e : Event) → IsRead e → P e)
      (creates : (spec : LbServiceSpec) (r : Result LbService)
        → P (created_lb_service spec r)) where
    ensure_created_ready-Emits :
        (id : String) (req : EnsureRequest) → Emits P (ensure_created_ready client id req)
    unfolding ensure_created_ready
    ensure_created_ready-Emits id req = search (emits_rules, Emits-call, reads) depth 8

    find_by_name-Emits : (name : String) → Emits P (find_by_name client name)
    find_by_name-Emits name = record {
      at = λ w. All-imp IsRead P _ reads ((find_by_name-reads name).at w);
    }

    reuse_existing-Emits : (name : String) → Emits P (reuse_existing client name)
    unfolding reuse_existing
    reuse_existing-Emits name = search (emits_rules, find_by_name-Emits) depth 8

    created_id-Emits : (name : String) (r : Result LbService) → Emits P (created_id client name r)
    unfolding created_id
    created_id-Emits name (ok created) = search emits_rules
    created_id-Emits name (err e) = search (emits_rules, reuse_existing-Emits) depth 8

    create-Emits : (own_vpc : String) (req : EnsureRequest) → Emits P (create client own_vpc req)
    unfolding create
    create-Emits own_vpc req = search (emits_rules, Emits-call, creates, created_id-Emits) depth 8

    find_or_create-Emits :
        (own_vpc : String) (req : EnsureRequest) → Emits P (find_or_create client own_vpc req)
    unfolding find_or_create
    find_or_create-Emits own_vpc req =
        search (emits_rules, find_by_name-Emits, create-Emits, ensure_created_ready-Emits) depth 8

  IsRead→OnlyDeletes : (id : String) (e : Event) → IsRead e → OnlyDeletes id e
  IsRead→OnlyDeletes id (deleted_lb_service _ _) h = cc
  IsRead→OnlyDeletes id (created_lb_service _ _) h = tt
  IsRead→OnlyDeletes id e h = h

  replace_failed-Emits :
      (id : String) (strict : Bool) (e : Error)
      → Emits (OnlyDeletes id) (replace_failed client id strict e)
  unfolding replace_failed ◌>>=◌
  replace_failed-Emits id strict e = record { at = λ w. ground arith }

  settle-Emits :
      (id : String) (strict : Bool) (r : Result Done)
      → Emits (OnlyDeletes id) (settle client id strict r)
  unfolding settle
  settle-Emits id strict (ok _) = search emits_rules
  settle-Emits id strict (err e) = replace_failed-Emits id strict e

  checked-Emits :
      (own_vpc : String) (req : EnsureRequest) (id : String) (strict : Bool) (r : Result LbService)
      → Emits (OnlyDeletes id) (checked client own_vpc req id strict r)
  unfolding checked
  checked-Emits own_vpc req id strict (ok svc) = search (emits_rules, settle-Emits)
  checked-Emits own_vpc req id strict (err e) =
      search
        (emits_rules, find_or_create-Emits (OnlyDeletes id) (IsRead→OnlyDeletes id) (λ spec r. tt))
        depth 8

  ensure-Emits :
      (own_vpc : String) (req : EnsureRequest) (current_id : String) (strict : Bool)
      → Emits (OnlyDeletes (trim_space current_id)) (ensure client own_vpc req current_id strict)
  unfolding ensure
  ensure-Emits own_vpc req current_id strict =
      search
        (
          emits_rules,
          Emits-call,
          checked-Emits,
          find_or_create-Emits (OnlyDeletes (trim_space current_id))
              (IsRead→OnlyDeletes (trim_space current_id)) (λ spec r. tt),
        )
        depth 8

-- Whatever CMP answers, a run deletes no LB service but the recorded one, and changes nothing else
-- than by creating an LB service.
pub ensure-OnlyDeletes :
    {W : Type 0} (client : Client W) (own_vpc : String) (req : EnsureRequest) (current_id : String)
    (strict : Bool) (w : W)
    → All
        (OnlyDeletes (trim_space current_id))
        (ensure client own_vpc req current_id strict w).trace
ensure-OnlyDeletes client own_vpc req current_id strict w =
    (ensure-Emits client own_vpc req current_id strict).at w

-- With a supplied id the manager only reads, whatever CMP answers.
pub ensure_strict-IsRead :
    {W : Type 0} (client : Client W) (own_vpc : String) (req : EnsureRequest) (current_id : String)
    (w : W)
    → trim_space current_id ≢ ""
    → All IsRead (ensure client own_vpc req current_id true w).trace
unfolding ensure checked settle replace_failed ◌>>=◌
ensure_strict-IsRead client own_vpc req current_id w n =
    ground (arith, eq_iff (trim_space current_id) "")

abbrev pub is_absent : Result String → Bool
is_absent (ok id) = id == ""
is_absent (err e) = false

-- Every creation stands behind a listing by the name that it gives, in which no service of the name was
-- found, with no other creation in between. The name is that of the last listing, and the flag says
-- whether it found none.
abbrev pub CreatesAbsent : String → Bool → List Event → Type 0
CreatesAbsent last absent [] = Unit
CreatesAbsent last absent (created_lb_service spec _ ∷ t) =
    (spec.name ≡ last) × (absent ≡ true) × CreatesAbsent last false t
CreatesAbsent last absent (listed_lb_services name (ok items) ∷ t) =
    CreatesAbsent name (is_absent (find_unique_by_name items name)) t
CreatesAbsent last absent (listed_lb_services name (err e) ∷ t) = CreatesAbsent name false t
CreatesAbsent last absent (_ ∷ t) = CreatesAbsent last absent t

module _ {W : Type 0} (client : Client W) where
  find_or_create-CreatesAbsent :
      (own_vpc : String) (req : EnsureRequest) (w : W)
      → CreatesAbsent "" false (find_or_create client own_vpc req w).trace
  unfolding find_or_create find_by_name create created_id reuse_existing ensure_created_ready ◌>>=◌
  find_or_create-CreatesAbsent own_vpc req w = ground arith

-- Each creation of an LB service comes after a listing by the name that it gives, which succeeded and found
-- none, with no other listing and no other creation in between. After a listing that failed, or that found one or more, none comes before
-- another listing has found none.
pub ensure-CreatesAbsent :
    {W : Type 0} (client : Client W) (own_vpc : String) (req : EnsureRequest) (current_id : String)
    (strict : Bool) (w : W)
    → CreatesAbsent "" false (ensure client own_vpc req current_id strict w).trace
unfolding ensure checked settle replace_failed ◌>>=◌
ensure-CreatesAbsent client own_vpc req current_id strict w = ground (
  arith,
  find_or_create-CreatesAbsent client own_vpc req w,
  find_or_create-CreatesAbsent client own_vpc req
      (client.get_lb_service (trim_space current_id) w).1,
)

-- A check of the recorded id that fails for another reason than 404 ends the run: the error is
-- wrapped, and no other call is made.
pub ensure_unchecked :
    {W : Type 0} (client : Client W) (own_vpc : String) (req : EnsureRequest) (current_id : String)
    (strict : Bool) (w : W) (e : Error)
    → trim_space current_id ≢ ""
    → (client.get_lb_service (trim_space current_id) w).0 ≡ err e
    → is_not_found e ≡ false
    → (let r = ensure client own_vpc req current_id strict w in
        (r.reply
          ≡ err (wrapf "checking existing LBService %q via CMP" (trim_space current_id ∷ []) e))
        × (r.trace ≡ got_lb_service (trim_space current_id) (err e) ∷ []))
unfolding ensure checked ◌>>=◌
ensure_unchecked client own_vpc req current_id strict w e n h k =
    ground (arith, eq_iff (trim_space current_id) "")
