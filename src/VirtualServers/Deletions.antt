-- ===== src/VirtualServers/Deletions.antt =====
-- VirtualServerManager.Ensure: which listeners a run deletes and which it keeps.
use garden_extension_f5_loca.Prelude.{
  All, All-imp, Bool, List, String, [], arith, inl, inr, int_eq, nat_eq, refl, string_eq, true,
  ◌!=◌, ◌∷◌, ◌≡◌,
}
use garden_extension_f5_loca.Prelude.{
  eq_iff, false, int_eq, nat_eq, string_eq, ◌&&◌, ◌==◌, ◌≢◌, ◌⊎◌,
}
use garden_extension_f5_loca.Cmp.{
  Client, Cmp, Event, VirtualServer, VirtualServerSpec, created_virtual_server,
  deleted_virtual_server, is_read,
}
use garden_extension_f5_loca.Exec.{
  Done, Error, Result, Result-cases, err, ok, pure, resume, wrapping, ◌>>=◌, ◌>>◌,
}
use garden_extension_f5_loca.Exec.Rules.{
  Emits, Emits-bind, Emits-bind-lift, Emits-bind-post, Emits-if, Emits-pure, Emits-raise,
  bind-Steps, emits_rules,
}
use garden_extension_f5_loca.Model.{BackendMember}
use garden_extension_f5_loca.Text.{trim_space}
use garden_extension_f5_loca.VirtualServers.{
  EnsureRequest, VsAnswer, adopt, backend_nodes, check_frontend, create, create_checked,
  delete_failed, ensure, find_unique_by_name, get_vs, is_listed, keep_or_replace, post_vs, readable,
  recorded, recover, resolve_backend_port, validate, validated, virtual_server_spec,
}

-- A listener is deleted only on the LB service, and only for a reason.
abbrev pub Changes : (String → Type 0) → String → Event → Type 0
Changes P lb (deleted_virtual_server on id _) = (on ≡ lb) × P id
Changes P lb (created_virtual_server on _ _) = on ≡ lb
Changes P lb e = is_read e ≡ true

-- CMP answered the read of `id` with this listener.
abbrev pub Answered : {W : Type 0} → Client W → String → String → VirtualServer → Type 0
Answered {W} client lb id vs = (w : W) × ((client.get_virtual_server lb id w).0 ≡ ok vs)

-- CMP answered a creation with this id.
abbrev pub Created : {W : Type 0} → Client W → String → String → Type 0
Created {W} client lb id =
    (w : W) × (spec : VirtualServerSpec) × (vs : VirtualServer) × ((client.create_virtual_server lb
        spec w).0
      ≡ ok vs)
    × (id ≡ trim_space vs.id)

module _ {W : Type 0} (client : Client W) (own_vpc : String) (req : EnsureRequest)
    (P : String → Type 0) where
  abbrev Q : Event → Type 0
  Q = Changes P req.lb_service_id

  delete_failed-Changes :
      (vs : VirtualServer) → P vs.id → Emits Q (delete_failed client own_vpc req vs)
  unfolding delete_failed ◌>>=◌
  delete_failed-Changes vs p = record { at = λ w. ground arith }

  validated-Changes :
      (vs : VirtualServer) (r : Result Done) (next : Cmp W VsAnswer)
      → P vs.id
      → Emits Q next
      → Emits Q (validated client own_vpc req vs r next)
  unfolding validated
  validated-Changes vs (ok _) next p n = n
  validated-Changes vs (err e) next p n = record {
    at = λ w. ground (arith, n.at w, (delete_failed-Changes vs p).at w);
  }

  keep_or_replace-Changes :
      (id : String) (adopted : Bool)
      → P id
      → Emits Q (keep_or_replace client own_vpc req id adopted)
  unfolding keep_or_replace ◌>>=◌
  keep_or_replace-Changes id adopted p = record { at = λ w. ground arith }

  resolve_backend_port-reads :
      (b : BackendMember)
      → Emits (λ e. is_read e ≡ true) (resolve_backend_port client own_vpc b req.region)
  unfolding resolve_backend_port ◌>>=◌
  resolve_backend_port-reads b = record { at = λ w. ground arith }

  backend_nodes-reads :
      (bs : List BackendMember)
      → Emits (λ e. is_read e ≡ true) (backend_nodes client own_vpc bs req.region)
  unfolding backend_nodes
  backend_nodes-reads [] = Emits-pure []
  backend_nodes-reads (b ∷ bs) =
      search (emits_rules, backend_nodes-reads bs, resolve_backend_port-reads b) depth 8

  read-Q : (e : Event) → is_read e ≡ true → Q e
  read-Q (deleted_virtual_server _ _ _) h = cc
  read-Q (created_virtual_server _ _ _) h = cc
  read-Q _ h = h

  pub check_frontend-reads :
      (id : String) (ls : List VirtualServer)
      → Emits (λ e. is_read e ≡ true) (check_frontend client own_vpc req id ls)
  unfolding check_frontend ◌>>=◌
  check_frontend-reads id [] = record { at = λ w. tt }
  check_frontend-reads id (vs ∷ ls) =
      let rest = check_frontend-reads id ls in
      record {
        at = λ w.
            let w' = (client.get_virtual_server req.lb_service_id vs.id w).1 in
            ground (arith, rest.at w, rest.at w');
      }

  Emits-Q : {A : Type 0} (m : Cmp W A) → Emits (λ e. is_read e ≡ true) m → Emits Q m
  Emits-Q m h = record { at = λ w. All-imp _ Q (m w).trace read-Q (h.at w) }

  post_vs-Changes : (spec : VirtualServerSpec) → Emits Q (post_vs client own_vpc req spec)
  post_vs-Changes spec = record { at = λ w. (refl, tt) }

  create-Changes : Emits Q (create client own_vpc req)
  unfolding create
  create-Changes = Emits-bind _ _ (Emits-Q _ (backend_nodes-reads req.backends)) λ nodes.
      Emits-bind _ _ (post_vs-Changes _)
        λ c. Emits-if (trim_space c.id != "") _ _ (λ e. Emits-pure _) (λ e. Emits-raise _)

  pub create-Created :
      (w : W) (id : String)
      → (create client own_vpc req w).reply ≡ ok id
      → Created client req.lb_service_id id
  unfolding create ◌>>=◌
  create-Created w id h =
      let nodes = bind-Steps (backend_nodes client own_vpc req.backends req.region) _ w id h in
      let spec = virtual_server_spec own_vpc req.vip_port_id req.desired nodes.value in
      let w' = (backend_nodes client own_vpc req.backends req.region w).world in
      let q = nodes.rest in
      elim (Result-cases (client.create_virtual_server req.lb_service_id spec w').0) [
        | inl (vs, c) ↦ (w', spec, vs, c, ground arith)
        | inr (e, c) ↦ absurd (ground arith)
      ]

  read_then-Changes :
      (f : Error → Error) (id : String) (next : Cmp W VsAnswer)
      → ((vs : VirtualServer) → Answered client req.lb_service_id id vs → P vs.id)
      → Emits Q next
      → Emits Q
          (do vs ← wrapping f (get_vs client own_vpc req id); validate client own_vpc req vs next)
  unfolding ◌>>=◌
  read_then-Changes f id next k n = record {
    at = λ w. elim (Result-cases (client.get_virtual_server req.lb_service_id id w).0) [
      | inl (vs, q) ↦ rw q (refl, (validated-Changes vs _ next (k vs (w, q)) n).at _)
      | inr (e, q) ↦ rw q (refl, tt)
    ];
  }

  create_checked-Changes :
      ((id : String) (vs : VirtualServer)
        → Created client req.lb_service_id id
        → Answered client req.lb_service_id id vs
        → P vs.id)
      → Emits Q (create_checked client own_vpc req)
  unfolding create_checked readable ◌>>=◌
  create_checked-Changes k =
      Emits-bind-post {Q = Created client req.lb_service_id} _ _ create-Changes create-Created
        λ id c. record {
          at = λ w. elim (Result-cases (client.get_virtual_server req.lb_service_id id w).0) [
            | inl (vs, q) ↦ rw q (
              refl,
              (validated-Changes vs _ (pure (id, req.desired.name, true)) (k id vs c (w, q))
                    (Emits-pure _)).at
                  _,
            )
            | inr (e, q) ↦ rw q (refl, ground arith)
          ];
        }

-- A listener is the controller's by its recorded id, which is listed, or, where recovery is asked for,
-- as the only one listed with its name.
abbrev pub IsManaged : EnsureRequest → List VirtualServer → String → Type 0
IsManaged req listeners id =
    ((id ≢ "") × (id ≡ trim_space req.current_id) × (is_listed id listeners ≡ true))
    ⊎ ((id ≢ "")
        × (find_unique_by_name listeners req.desired.name ≡ ok id)
        × (req.recover_by_name ≡ true))

-- A reason to delete the listener: it is managed, or CMP gave its id in the answer to a read of a
-- managed listener or of one that it created for this request.
abbrev pub IsOurs : {W : Type 0} → Client W → EnsureRequest → List VirtualServer → String → Type 0
IsOurs client req listeners id =
    IsManaged req listeners id
    ⊎ ((read : String) × (vs : VirtualServer) × (IsManaged req listeners read
          ⊎ Created client req.lb_service_id read)
        × Answered client req.lb_service_id read vs
        × (id ≡ vs.id))

module _ {W : Type 0} (client : Client W) (own_vpc : String) (req : EnsureRequest)
    (listeners : List VirtualServer) where
  abbrev R : Event → Type 0
  R = Changes (IsOurs client req listeners) req.lb_service_id

  managed-Changes :
      (f : Error → Error) (id : String) (adopted : Bool)
      → IsManaged req listeners id
      → Emits R (do
        vs ← wrapping f (get_vs client own_vpc req id)
        validate client own_vpc req vs (keep_or_replace client own_vpc req id adopted))
  managed-Changes f id adopted m =
      read_then-Changes client own_vpc req _ f id _ (λ vs r. inr (id, vs, inl m, r, refl))
        (keep_or_replace-Changes client own_vpc req _ id adopted (inl m))

  created-Changes : Emits R (create_checked client own_vpc req)
  created-Changes =
      create_checked-Changes client own_vpc req _ λ id vs c r. inr (id, vs, inr c, r, refl)

  adopt-Changes :
      (id : String) → (id ≢ "" → IsManaged req listeners id) → Emits R (adopt client own_vpc req id)
  unfolding adopt
  adopt-Changes id m =
      Emits-if (id == "") _ _ (λ e. created-Changes)
        λ e. managed-Changes _ id true (m (ground (arith, eq_iff id "")))

  recover-Changes : Emits R (recover client own_vpc req listeners)
  unfolding recover
  recover-Changes =
      Emits-if req.recover_by_name _ _
        (λ e. Emits-bind-lift _ _ (λ id q. adopt-Changes id λ n. inr (n, q, e)))
        (λ e. created-Changes)

  recorded-Changes : Emits R (recorded client own_vpc req (trim_space req.current_id) listeners)
  unfolding recorded
  recorded-Changes =
      let id = trim_space req.current_id in
      Emits-if (id != "" && is_listed id listeners) _ _
        (λ e. managed-Changes _ id false (inl (ground (arith, eq_iff id ""), refl, ground arith)))
        (λ e. recover-Changes)

-- The listing of a run.
abbrev pub listed : Result (List VirtualServer) → List VirtualServer
listed (ok listeners) = listeners
listed (err e) = []

listed-Changes :
    {W : Type 0} (client : Client W) (own_vpc : String) (req : EnsureRequest)
    (r : Result (List VirtualServer)) (w : W)
    → All
        (Changes (IsOurs client req (listed r)) req.lb_service_id)
        (resume r
          (λ ls.
            check_frontend client own_vpc req (trim_space req.current_id) ls
            >> recorded client own_vpc req (trim_space req.current_id) ls)
          w).trace
listed-Changes client own_vpc req (ok ls) w =
    (Emits-bind _ _
        (Emits-Q client own_vpc req (IsOurs client req ls) _ (
          check_frontend-reads client own_vpc req (IsOurs client req ls) (trim_space req.current_id)
            ls))
        λ a. recorded-Changes client own_vpc req ls).at
      w
listed-Changes client own_vpc req (err e) w = tt

-- Whatever CMP answers, a run changes nothing but listeners of its LB service, and deletes one only
-- for a reason: its id is the recorded one and listed, or recovery is on and it alone is listed with
-- the desired name, or CMP answered it to a read of such a listener or of one that it created here.
pub ensure-Changes :
    {W : Type 0} (client : Client W) (own_vpc : String) (req : EnsureRequest) (w : W)
    → All
        (Changes
          (IsOurs client req (listed (client.list_virtual_servers req.lb_service_id w).0))
          req.lb_service_id)
        (ensure client own_vpc req w).trace
unfolding ensure ◌>>=◌
ensure-Changes client own_vpc req w =
    let (r, w') = client.list_virtual_servers req.lb_service_id w in
    (refl, listed-Changes client own_vpc req r w')
