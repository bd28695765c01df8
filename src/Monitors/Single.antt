-- ===== src/Monitors/Single.antt =====
-- Which monitors of a pool a run of the monitor manager deletes.
use mathlib.Core.List.{append-nil}
use garden_extension_f5_loca.Prelude.{
  Bool, List, String, [], ap, arith, eq_iff, if◌then◌else◌, int_eq, nat_eq, not, refl, string_eq,
  ◌!=◌, ◌&&◌, ◌++◌, ◌==◌, ◌||◌, ◌∷◌, ◌≡◌, ◌≢◌,
}
use garden_extension_f5_loca.Prelude.{Bool-cases, Option, false, inl, inr, none, some, true}
use garden_extension_f5_loca.Cmp.{
  Event, MonitorClient, MonitorResource, MonitorSpec, deleted_monitor,
}
use garden_extension_f5_loca.Exec.{ok, pure, ◌>>=◌, ◌>>◌}
use garden_extension_f5_loca.Exec.Rules.{bind-Steps}
use garden_extension_f5_loca.Model.{Monitor}
use garden_extension_f5_loca.Monitors.{
  blank_monitor, create_missing, delete_all, delete_monitor, ensure, keep_from, keep_one,
  monitor_spec, reconcile,
}
use garden_extension_f5_loca.Text.{trim_space}

-- The ids of the monitors that a trace deletes.
abbrev pub deleted_ids : List Event → List String
deleted_ids [] = []
deleted_ids (deleted_monitor _ _ _ id _ ∷ t) = id ∷ deleted_ids t
deleted_ids (_ ∷ t) = deleted_ids t

deleted_ids-append : (s t : List Event) → deleted_ids (s ++ t) ≡ deleted_ids s ++ deleted_ids t
deleted_ids-append [] t = refl
deleted_ids-append (deleted_monitor _ _ _ id _ ∷ s) t = ap (λ l. id ∷ l) (deleted_ids-append s t)
deleted_ids-append (_ ∷ s) t = deleted_ids-append s t

abbrev pub matches : String → MonitorResource → Bool
matches name m = trim_space m.id != "" && trim_space m.name == trim_space name

-- The ids of all monitors with an id, but for the first of the name unless one is kept already.
abbrev pub surplus_ids : String → Bool → List MonitorResource → List String
surplus_ids name have [] = []
surplus_ids name have (m ∷ ms) =
    let rest = surplus_ids name (have || matches name m) ms in
    if trim_space m.id == "" || (matches name m && not have) then rest else m.id ∷ rest

abbrev pub all_ids : List MonitorResource → List String
all_ids [] = []
all_ids (m ∷ ms) = let rest = all_ids ms in if trim_space m.id == "" then rest else m.id ∷ rest

abbrev pub removed_ids : Option Monitor → List MonitorResource → List String
removed_ids none ms = all_ids ms
removed_ids (some desired) ms = surplus_ids (monitor_spec desired).name false ms

-- CMP answers an update with a monitor that has an id.
abbrev pub KeepsId : {W : Type 0} → MonitorClient W → Type 0
KeepsId {W} client =
    (lb_id vs_id pool_id id : String) (spec : MonitorSpec) (w : W) (m : MonitorResource)
    → (client.update_monitor lb_id vs_id pool_id id spec w).0 ≡ ok m
    → trim_space m.id ≢ ""

abbrev has_id : MonitorResource → Bool
has_id m = trim_space m.id != ""

drop_if :
    (b : Bool) (x : String) (xs : List String)
    → (if b then [] else x ∷ []) ++ xs ≡ (if b then xs else x ∷ xs)
drop_if true x xs = refl
drop_if false x xs = refl

module _ {W : Type 0} (client : MonitorClient W) (lb_id vs_id pool_id : String) where
  keep_one-ids :
      (spec : MonitorSpec) (best m : MonitorResource) (w : W) (a : MonitorResource × Bool)
      → KeepsId client
      → (keep_one client lb_id vs_id pool_id spec best m w).reply ≡ ok a
      → (has_id a.0 ≡ (has_id best || matches spec.name m))
        × (deleted_ids (keep_one client lb_id vs_id pool_id spec best m w).trace ≡ (
            if trim_space m.id == "" || (matches spec.name m && not (has_id best))
            then []
            else m.id ∷ []))
  unfolding keep_one ◌>>=◌
  keep_one-ids spec best m w a keeps h =
      ground (arith, keeps lb_id vs_id pool_id m.id spec w a.0, eq_iff (trim_space a.0.id) "")

  keep_from-ids :
      (spec : MonitorSpec) (ms : List MonitorResource) (best : MonitorResource) (w : W)
      (a : MonitorResource × Bool)
      → KeepsId client
      → (keep_from client lb_id vs_id pool_id spec ms best w).reply ≡ ok a
      → deleted_ids (keep_from client lb_id vs_id pool_id spec ms best w).trace
        ≡ surplus_ids spec.name (has_id best) ms
  unfolding keep_from
  keep_from-ids spec [] best w a keeps h = refl
  keep_from-ids spec (m ∷ ms) best w a keeps h =
      let one = bind-Steps (keep_one client lb_id vs_id pool_id spec best m) _ w a h in
      let all =
        bind-Steps (keep_from client lb_id vs_id pool_id spec ms one.value.0) _ _ a one.rest in
      let (have, ids) = keep_one-ids spec best m w one.value keeps one.first in
      let ih = keep_from-ids spec ms one.value.0 _ all.value keeps all.first in
      simp (one.trace, all.trace, deleted_ids-append, append-nil, ids, ih, have)
        (drop_if _ m.id (surplus_ids spec.name (has_id best || matches spec.name m) ms))

  create_missing-ids :
      (spec : MonitorSpec) (a : MonitorResource × Bool) (w : W)
      → deleted_ids (create_missing client lb_id vs_id pool_id spec a w).trace ≡ []
  unfolding create_missing ◌>>=◌
  create_missing-ids spec a w = ground arith

  delete_all-ids :
      (ms : List MonitorResource) (w : W) (changed : Bool)
      → (delete_all client lb_id vs_id pool_id ms w).reply ≡ ok changed
      → deleted_ids (delete_all client lb_id vs_id pool_id ms w).trace ≡ all_ids ms
  unfolding delete_all
  delete_all-ids [] w changed h = refl
  delete_all-ids (m ∷ ms) w changed h =
      let rest = delete_all client lb_id vs_id pool_id ms in
      let delete =
        delete_monitor client lb_id vs_id pool_id "deleting undesired monitor %s from pool %s"
          m.id in
      elim (Bool-cases (trim_space m.id == "")) [
        | inl e ↦ rw e (delete_all-ids ms w changed (rw e at h))
        | inr e ↦
            let h' : (◌>>=◌ delete (λ _. rest >> pure true) w).reply ≡ ok changed = rw e at h in
            let one = bind-Steps delete (λ _. rest >> pure true) w changed h' in
            let both = bind-Steps rest (λ _. pure true) _ changed one.rest in
            rw e (
              simp (one.trace, both.trace, delete_all-ids ms _ both.value both.first, append-nil)
                refl)
      ]

  reconcile-ids :
      (desired : Option Monitor) (ms : List MonitorResource) (w : W) (a : MonitorResource × Bool)
      → KeepsId client
      → (reconcile client lb_id vs_id pool_id desired ms w).reply ≡ ok a
      → deleted_ids (reconcile client lb_id vs_id pool_id desired ms w).trace
        ≡ removed_ids desired ms
  unfolding reconcile trim_space
  reconcile-ids none ms w a keeps h =
      let all = bind-Steps (delete_all client lb_id vs_id pool_id ms) _ w a h in
      simp (all.trace, append-nil, delete_all-ids ms w all.value all.first)
  reconcile-ids (some desired) ms w a keeps h =
      let spec = monitor_spec desired in
      let kept = bind-Steps (keep_from client lb_id vs_id pool_id spec ms blank_monitor) _ w a h in
      simp (
        kept.trace,
        deleted_ids-append,
        create_missing-ids spec kept.value _,
        append-nil,
        keep_from-ids spec ms blank_monitor w kept.value keeps kept.first,
      )

-- Where CMP answers every update with a monitor that has an id, a run that succeeds deletes exactly
-- these of the listed monitors, in their order: with no monitor desired all that have an id, otherwise
-- all that have an id but the first that has the desired name.
pub ensure-removed_ids :
    {W : Type 0} (client : MonitorClient W) (lb_id vs_id pool_id : String)
    (desired : Option Monitor) (ms : List MonitorResource) (w : W) (a : MonitorResource × Bool)
    → KeepsId client
    → (client.list_monitors lb_id vs_id pool_id w).0 ≡ ok ms
    → (ensure client lb_id vs_id pool_id desired w).reply ≡ ok a
    → deleted_ids (ensure client lb_id vs_id pool_id desired w).trace ≡ removed_ids desired ms
unfolding ensure ◌>>=◌
ensure-removed_ids client lb_id vs_id pool_id desired ms w a keeps l h = ground (
  arith,
  reconcile-ids client lb_id vs_id pool_id desired ms (client.list_monitors lb_id vs_id pool_id w).1
      a keeps,
)
