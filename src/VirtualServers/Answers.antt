-- ===== src/VirtualServers/Answers.antt =====
-- VirtualServerManager.Ensure: what a run answers where it succeeds.
use mathlib.Core.Path.{subst}
use garden_extension_f5_loca.Prelude.{
  Bool, Bool-cases, List, String, arith, eq_iff, false, inl, inr, int_eq, nat_eq, refl, string_eq,
  sym, true, ◌!=◌, ◌&&◌, ◌==◌, ◌≡◌, ◌≢◌, ◌⊎◌,
}
use garden_extension_f5_loca.Cmp.{Client, Cmp, VirtualServer, listed_virtual_servers}
use garden_extension_f5_loca.Exec.{
  Done, Error, Result, Result-cases, call, err, lift, ok, pure, wrapping, ◌>>=◌,
}
use garden_extension_f5_loca.Exec.Rules.{bind-Steps}
use garden_extension_f5_loca.Text.{trim_space}
use garden_extension_f5_loca.VirtualServers.{
  EnsureRequest, VsAnswer, adopt, backend_nodes, check_frontend, create, create_checked,
  delete_failed, ensure, find_unique_by_name, get_vs, is_listed, keep_or_replace, readable,
  recorded, recover, validate, validated, virtual_server_spec,
}
use garden_extension_f5_loca.VirtualServers.Deletions.{Answered, Created, create-Created}
use garden_extension_f5_loca.VirtualServers.Valid.{IsValid, validate_virtual_server-IsValid}

-- What stands behind an answer: an id that is not blank, the desired name, a listener that CMP answered
-- for the id and that passed the checks; for a change the id is that of a created listener, and
-- otherwise no recorded hash asks for a replacement.
abbrev pub Stands : {W : Type 0} → Client W → EnsureRequest → VsAnswer → Type 0
Stands client req (id, name, changed) =
    (id ≢ "")
    × (name ≡ req.desired.name)
    × ((vs : VirtualServer) × Answered client req.lb_service_id id vs × (IsValid req vs))
    × (changed ≡ true → Created client req.lb_service_id id)
    × (changed ≡ false → (req.current_hash ≡ "") ⊎ (req.current_hash ≡ req.desired_hash))

module _ {W : Type 0} (client : Client W) (own_vpc : String) (req : EnsureRequest) where
  validated-ok :
      (vs : VirtualServer) (r : Result Done) (next : Cmp W VsAnswer) (w : W) (a : VsAnswer)
      → (validated client own_vpc req vs r next w).reply ≡ ok a
      → (r ≡ ok tt) × ((next w).reply ≡ ok a)
  unfolding validated delete_failed ◌>>=◌
  validated-ok vs (ok tt) next w a h = (refl, h)
  validated-ok vs (err e) next w a h = absurd (ground arith)

  -- The rest of the run, after a read that passed the checks.
  abbrev Passed : String → Cmp W VsAnswer → VsAnswer → Type 0
  Passed id next a =
      ((vs : VirtualServer) × Answered client req.lb_service_id id vs × (IsValid req vs))
      × ((w : W) × ((next w).reply ≡ ok a))

  read_then-Passed :
      (f : Error → Error) (id : String) (next : Cmp W VsAnswer) (w : W) (a : VsAnswer)
      → (◌>>=◌
          (wrapping f (get_vs client own_vpc req id))
          (λ vs. validate client own_vpc req vs next)
          w).reply
        ≡ ok a
      → Passed id next a
  unfolding ◌>>=◌
  read_then-Passed f id next w a h =
      elim (Result-cases (client.get_virtual_server req.lb_service_id id w).0) [
        | inl (vs, q) ↦
            let (v, n) =
              validated-ok vs _ next (client.get_virtual_server req.lb_service_id id w).1 a
                (ground arith) in
            ((vs, (w, q), validate_virtual_server-IsValid req vs v), (_, n))
        | inr (x, q) ↦ absurd (ground arith)
      ]

  keep_or_replace-kept :
      (id : String) (adopted : Bool) (w : W) (a : VsAnswer)
      → (keep_or_replace client own_vpc req id adopted w).reply ≡ ok a
      → (a ≡ (id, req.desired.name, false))
        × ((req.current_hash ≡ "") ⊎ (req.current_hash ≡ req.desired_hash))
  unfolding keep_or_replace ◌>>=◌
  keep_or_replace-kept id adopted w a h = (
    ground arith,
    elim (Bool-cases (req.current_hash == "")) [
      | inl e ↦ inl (ground (arith, eq_iff req.current_hash ""))
      | inr e ↦ inr (ground (arith, eq_iff req.current_hash req.desired_hash))
    ],
  )

  managed-Stands :
      (f : Error → Error) (id : String) (adopted : Bool) (w : W) (a : VsAnswer)
      → id ≢ ""
      → (◌>>=◌
          (wrapping f (get_vs client own_vpc req id))
          (λ vs. validate client own_vpc req vs (keep_or_replace client own_vpc req id adopted))
          w).reply
        ≡ ok a
      → Stands client req a
  managed-Stands f id adopted w a n h =
      let (p, (w', k)) =
        read_then-Passed f id (keep_or_replace client own_vpc req id adopted) w a h in
      let (same, hash) = keep_or_replace-kept id adopted w' a k in
      subst (Stands client req) (sym same) (n, refl, p, (λ c. cc), λ c. hash)

  create-nonblank : (w : W) (id : String) → (create client own_vpc req w).reply ≡ ok id → id ≢ ""
  unfolding create ◌>>=◌
  create-nonblank w id h =
      let nodes = bind-Steps (backend_nodes client own_vpc req.backends req.region) _ w id h in
      let spec = virtual_server_spec own_vpc req.vip_port_id req.desired nodes.value in
      let w' = (backend_nodes client own_vpc req.backends req.region w).world in
      let q = nodes.rest in
      elim (Result-cases (client.create_virtual_server req.lb_service_id spec w').0) [
        | inl (vs, c) ↦ ground (arith, eq_iff (trim_space vs.id) "")
        | inr (e, c) ↦ absurd (ground arith)
      ]

  create_checked-Stands :
      (w : W) (a : VsAnswer)
      → (create_checked client own_vpc req w).reply ≡ ok a
      → Stands client req a
  unfolding create_checked readable ◌>>=◌
  create_checked-Stands w a h =
      let made = bind-Steps (create client own_vpc req) _ w a h in
      let id = made.value in
      let w' = (create client own_vpc req w).world in
      let c = create-Created client own_vpc req (λ x. Unit) w id made.first in
      let q' = made.rest in
      elim (Result-cases (client.get_virtual_server req.lb_service_id id w').0) [
        | inl (vs, q) ↦
            let (v, n) =
              validated-ok vs _ (pure (id, req.desired.name, true))
                (client.get_virtual_server req.lb_service_id id w').1 a (ground arith) in
            let same : a ≡ (id, req.desired.name, true) = ground arith in
            subst (Stands client req) (sym same) (
              create-nonblank w id made.first,
              refl,
              (vs, (w', q), validate_virtual_server-IsValid req vs v),
              (λ t. c),
              λ t. cc,
            )
        | inr (x, q) ↦ absurd (ground arith)
      ]

  adopt-Stands :
      (id : String) (w : W) (a : VsAnswer)
      → (adopt client own_vpc req id w).reply ≡ ok a
      → Stands client req a
  unfolding adopt
  adopt-Stands id w a h = elim (Bool-cases (id == "")) [
    | inl e ↦ create_checked-Stands w a (rw e at h)
    | inr e ↦ managed-Stands _ id true w a (ground (arith, eq_iff id "")) (rw e at h)
  ]

  recover-Stands :
      (ls : List VirtualServer) (w : W) (a : VsAnswer)
      → (recover client own_vpc req ls w).reply ≡ ok a
      → Stands client req a
  unfolding recover adopt create_checked keep_or_replace create validated delete_failed
  recover-Stands ls w a h = elim (Bool-cases req.recover_by_name) [
    | inl e ↦
        let h' : (◌>>=◌ (lift (find_unique_by_name ls req.desired.name)) (adopt client own_vpc req)
              w).reply
            ≡ ok a =
          rw e at h in
        let found = bind-Steps (lift (find_unique_by_name ls req.desired.name)) _ w a h' in
        adopt-Stands found.value w a found.rest
    | inr e ↦ create_checked-Stands w a (rw e at h)
  ]

  recorded-Stands :
      (ls : List VirtualServer) (w : W) (a : VsAnswer)
      → (recorded client own_vpc req (trim_space req.current_id) ls w).reply ≡ ok a
      → Stands client req a
  unfolding recorded
  recorded-Stands ls w a h =
      let id = trim_space req.current_id in
      elim (Bool-cases (id != "" && is_listed id ls)) [
        | inl e ↦ managed-Stands _ id false w a (ground (arith, eq_iff id "")) (rw e at h)
        | inr e ↦ recover-Stands ls w a (rw e at h)
      ]

-- A run that succeeds answers an id that is not blank, with the desired name. CMP answered a read of
-- the id with a listener whose VIP, port and protocol, where it gives them, are the desired ones, and whose
-- status is active, created, ready, available or online. If a change is reported, the id is that of a
-- created listener; if none is, no hash is recorded or the recorded one is the desired one.
pub ensure-Stands :
    {W : Type 0} (client : Client W) (own_vpc : String) (req : EnsureRequest) (w : W) (a : VsAnswer)
    → (ensure client own_vpc req w).reply ≡ ok a
    → Stands client req a
unfolding ensure
ensure-Stands client own_vpc req w a h =
    let ls =
      bind-Steps
        (call (client.list_virtual_servers req.lb_service_id)
          (listed_virtual_servers req.lb_service_id))
        _ w a h in
    let checked =
      bind-Steps (check_frontend client own_vpc req (trim_space req.current_id) ls.value) _ _ a
        ls.rest in
    recorded-Stands client own_vpc req ls.value _ a checked.rest
