-- ===== src/Deployer/Saved.antt =====
-- EnsureStack: LBReadyHook and the calls below the LB service.
use mathlib.Core.List.{append_assoc, append-nil}
use mathlib.Core.Path.{subst}
use garden_extension_f5_loca.Prelude.{
  All, Bool, List, Option, String, [], arith, eq_iff, inl, inr, none, refl, some, sym, true, ◌++◌,
  ◌∷◌, ◌≡◌, ◌⊎◌,
}
use garden_extension_f5_loca.Cmp.{Event, created_lb_service, deleted_lb_service, is_read}
use garden_extension_f5_loca.Deployer.{
  ensure_lb, ensure_stack, is_reported, lb_request, record_lb, report, settle_lb,
}
use garden_extension_f5_loca.Dict.{lookup, lookup-insert}
use garden_extension_f5_loca.Exec.{Done, Error, Provisioning, Result, err, ok, raise, resume, ◌>>=◌}
use garden_extension_f5_loca.Exec.Rules.{
  Emits, Emits-attempt, Emits-bind, Emits-if, Emits-imp, Emits-lift, Emits-pure, Emits-via,
}
use garden_extension_f5_loca.LbServices.Mutations.{OnlyDeletes, ensure-OnlyDeletes}
use garden_extension_f5_loca.Listeners.{observe}
use garden_extension_f5_loca.Model.{LoadBalancerStack}
use garden_extension_f5_loca.Observed.{ObservedResource, ObservedState, ensure_graph}
use garden_extension_f5_loca.Placement.{
  Deployer, StackEnsureRequest, StackEvent, StackRun, certificates, check_request,
  effective_network, explicit_network, got_network, provider, save, saved, supplied_network,
}
use garden_extension_f5_loca.Text.{trim_space}

-- The state records its LB service under the name that the stack gives it.
abbrev pub IsRecorded : String → ObservedState → Type 0
IsRecorded name s =
    (r : ObservedResource) × (lookup name s.graph.lb_services ≡ some r)
    × (r.external_id ≡ s.lb_service_id)

-- A call that changes nothing below an LB service.
abbrev pub IsParentEvent : Event → Type 0
IsParentEvent (created_lb_service _ _) = Unit
IsParentEvent (deleted_lb_service _ _) = Unit
IsParentEvent e = is_read e ≡ true

-- A call that needs no saved state: a read, a change of an LB service itself, or the hook's own, which is
-- given a state that records the LB service.
abbrev pub IsParentCall : String → StackEvent → Type 0
IsParentCall name (provider e) = IsParentEvent e
IsParentCall name (got_network _ _) = Unit
IsParentCall name (saved s _) = IsRecorded name s
IsParentCall name (certificates _) = ⊥

abbrev pub IsSuccess : StackEvent → Type 0
IsSuccess (saved s (ok _)) = Unit
IsSuccess _ = ⊥

-- Up to the first successful call of the hook there are only such calls.
abbrev pub SavedFirst : String → List StackEvent → Type 0
SavedFirst name [] = Unit
SavedFirst name (e ∷ calls) = IsParentCall name e × (IsSuccess e ⊎ SavedFirst name calls)

module _ (name : String) where
  SavedFirst-append :
      (xs ys : List StackEvent)
      → All (IsParentCall name) xs
      → SavedFirst name ys
      → SavedFirst name (xs ++ ys)
  SavedFirst-append [] ys h k = k
  SavedFirst-append (e ∷ xs) ys h k = (h.0, inr (SavedFirst-append xs ys h.1 k))

  SavedFirst-of_All : (xs : List StackEvent) → All (IsParentCall name) xs → SavedFirst name xs
  SavedFirst-of_All [] h = tt
  SavedFirst-of_All (e ∷ xs) h = (h.0, inr (SavedFirst-of_All xs h.1))

  -- Calls that end in a saved state: what follows them is free.
  abbrev IsSaving : List StackEvent → Type 0
  IsSaving calls = (more : List StackEvent) → SavedFirst name (calls ++ more)

  abbrev SavesOn : {A : Type 0} → List StackEvent → Result A → Type 0
  SavesOn calls (ok a) = IsSaving calls
  SavesOn calls (err e) = SavedFirst name calls

  record Saves {W A : Type 0} (m : StackRun W A) : Type 0 where
    at : (w : W) → SavesOn (m w).trace (m w).reply

  OnlyDeletes-IsParentEvent : (id : String) (e : Event) → OnlyDeletes id e → IsParentEvent e
  OnlyDeletes-IsParentEvent id (created_lb_service _ _) h = tt
  OnlyDeletes-IsParentEvent id (deleted_lb_service _ _) h = tt
  OnlyDeletes-IsParentEvent id e h = h

  any_reply :
      {A : Type 0} (calls : List StackEvent) (r : Result A) → IsSaving calls → SavesOn calls r
  any_reply calls (ok a) h = h
  any_reply calls (err e) h = subst (SavedFirst name) (append-nil calls) (h [])

  SavesOn-append :
      {A : Type 0} (xs ys : List StackEvent) (r : Result A)
      → All (IsParentCall name) xs
      → SavesOn ys r
      → SavesOn (xs ++ ys) r
  SavesOn-append xs ys (ok a) h k = λ more.
      subst (SavedFirst name) (sym (append_assoc xs ys more))
        (SavedFirst-append xs (ys ++ more) h (k more))
  SavesOn-append xs ys (err e) h k = SavedFirst-append xs ys h k

  SavesOn-resume :
      {W A B : Type 0} (calls : List StackEvent) (r : Result A) (f : A → StackRun W B) (w : W)
      → All (IsParentCall name) calls
      → ((a : A) → Saves (f a))
      → SavesOn (calls ++ (resume r f w).trace) (resume r f w).reply
  SavesOn-resume calls (ok a) f w h k = SavesOn-append calls _ _ h ((k a).at w)
  SavesOn-resume calls (err e) f w h k = SavedFirst-append calls [] h tt

  then-Saves :
      {W A B : Type 0} (m : StackRun W A) (f : A → StackRun W B)
      → Emits (IsParentCall name) m
      → ((a : A) → Saves (f a))
      → Saves (m >>= f)
  unfolding ◌>>=◌
  then-Saves m f h k = record {
    at = λ w. let r = m w in SavesOn-resume r.trace r.reply f r.world (h.at w) k;
  }

  Saves-resume :
      {W A B : Type 0} (calls : List StackEvent) (r : Result A) (f : A → StackRun W B) (w : W)
      → SavesOn calls r
      → SavesOn (calls ++ (resume r f w).trace) (resume r f w).reply
        × SavedFirst name (calls ++ (resume r f w).trace)
  Saves-resume calls (ok a) f w h =
      (any_reply _ _ (λ more. subst (SavedFirst name) (sym (append_assoc calls _ more)) (h _)), h _)
  Saves-resume calls (err e) f w h = (
    subst (SavedFirst name) (sym (append-nil calls)) h,
    subst (SavedFirst name) (sym (append-nil calls)) h,
  )

  Saves-bind :
      {W A B : Type 0} (m : StackRun W A) (f : A → StackRun W B) → Saves m → Saves (m >>= f)
  unfolding ◌>>=◌
  Saves-bind m f h = record {
    at = λ w. let r = m w in (Saves-resume r.trace r.reply f r.world (h.at w)).0;
  }

  Saves-raise : {W A : Type 0} (e : Error) → Saves (raise {W = W} {A = A} e)
  Saves-raise e = record { at = λ w. tt }

  SavedFirst-of_Saves :
      (calls : List StackEvent) {A : Type 0} (r : Result A)
      → SavesOn calls r
      → SavedFirst name calls
  SavedFirst-of_Saves calls (ok a) h = subst (SavedFirst name) (append-nil calls) (h [])
  SavedFirst-of_Saves calls (err e) h = h

record_lb-IsRecorded :
    (stack : LoadBalancerStack) (id : String) (s : ObservedState)
    → IsRecorded stack.lb_service.name (record_lb stack id s)
record_lb-IsRecorded stack id s =
    let lb = stack.lb_service in
    let r = observe lb.name id lb.name "" "" lb.ownership in
    (
      r,
      ground (arith, lookup-insert lb.name lb.name r s.graph.lb_services, eq_iff lb.name lb.name),
      refl,
    )

module _ {W : Type 0} (d : Deployer W) (req : StackEnsureRequest W)
    (hook : ObservedState → W → Result Done × W) (given : req.lb_ready_hook ≡ some hook) where
  abbrev lb_name : String
  lb_name = req.stack.lb_service.name

  saved-SavesOn :
      (s : ObservedState) (r : Result Done)
      → IsRecorded lb_name s
      → SavesOn lb_name (saved s r ∷ []) r
  saved-SavesOn s (ok _) h = λ more. (h, inl tt)
  saved-SavesOn s (err e) h = (h, inr tt)

  save-Saves : (s : ObservedState) → IsRecorded lb_name s → Saves lb_name (save d req s)
  unfolding save
  save-Saves s h = rw given (record { at = λ w. saved-SavesOn s (hook s w).0 h })

  save-Emits :
      (s : ObservedState) → IsRecorded lb_name s → Emits (IsParentCall lb_name) (save d req s)
  unfolding save
  save-Emits s h = rw given (record { at = λ w. (h, tt) })

  report-Emits :
      (p : Option Provisioning) (s : ObservedState)
      → Emits (IsParentCall lb_name) (report d req p s)
  unfolding report
  report-Emits none s = Emits-pure s
  report-Emits (some t) s =
      Emits-if (is_reported t) _ _
        (λ e.
          Emits-bind _ _
            (save-Emits _ (record_lb-IsRecorded req.stack (trim_space t.resource_id) s))
            λ u. Emits-pure _)
        (λ e. Emits-pure s)

  settle_lb-Saves :
      (s : ObservedState) (r : Result (String × Bool)) → Saves lb_name (settle_lb d req s r)
  unfolding settle_lb
  settle_lb-Saves s (ok (id, changed)) =
      Saves-bind lb_name _ _ (save-Saves _ (record_lb-IsRecorded req.stack id s))
  settle_lb-Saves s (err e) =
      then-Saves lb_name _ _ (report-Emits _ s)
        λ t. then-Saves lb_name _ _ (report-Emits _ t) λ u. Saves-raise lb_name e

  ensure_lb-Saves :
      (network_id : String) (s : ObservedState) → Saves lb_name (ensure_lb d req network_id s)
  unfolding ensure_lb
  ensure_lb-Saves network_id s =
      then-Saves lb_name _ _
        (Emits-attempt _ (
          Emits-via provider _ (
            Emits-imp _ (OnlyDeletes-IsParentEvent lb_name (trim_space s.lb_service_id)) (record {
              at =
                  ensure-OnlyDeletes d.clients.client d.own_vpc (lb_request req.stack network_id)
                    s.lb_service_id req.strict_lb_service_id;
            }))))
        (settle_lb-Saves s)

  effective_network-Emits :
      (s : ObservedState) → Emits (IsParentCall lb_name) (effective_network d req s)
  unfolding effective_network explicit_network supplied_network ◌>>=◌
  effective_network-Emits s = record { at = λ w. ground arith }

-- Where the request has an LBReadyHook, EnsureStack changes nothing below the LB service before a call of the
-- hook has succeeded, whatever CMP answers. Every state that the hook is given until then records, under
-- the name of the stack's LB service, the id that is the state's own id of that service.
pub ensure_stack-SavedFirst :
    {W : Type 0} (d : Deployer W) (req : StackEnsureRequest W)
    (hook : ObservedState → W → Result Done × W) (w : W)
    → req.lb_ready_hook ≡ some hook
    → SavedFirst req.stack.lb_service.name (ensure_stack d req w).trace
unfolding ensure_stack
ensure_stack-SavedFirst d req hook w given =
    let name = req.stack.lb_service.name in
    let s = ensure_graph req.current in
    let run = then-Saves name _ _ (Emits-lift (check_request d req)) λ u.
      then-Saves name _ _ (effective_network-Emits d req hook given s)
        λ network_id. Saves-bind name _ _ (ensure_lb-Saves d req hook given network_id s) in
    SavedFirst-of_Saves name _ _ (run.at w)
