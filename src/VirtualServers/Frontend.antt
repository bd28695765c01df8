-- ===== src/VirtualServers/Frontend.antt =====
-- VirtualServerManager.Ensure: the check of the frontend tuple of VIP, port and protocol.
use garden_extension_f5_loca.Prelude.{
  All, Bool-cases, List, String, [], arith, eq_iff, false, inl, inr, int_beq_iff, pos, true, refl,
  ◌∷◌, ◌≡◌, ◌≢◌, ◌⊎◌,
}
use garden_extension_f5_loca.Cmp.{Client, Event, VirtualServer, is_read, listed_virtual_servers}
use garden_extension_f5_loca.Exec.{Result, Result-cases, err, ok, resume, ◌>>=◌, ◌>>◌}
use garden_extension_f5_loca.Exec.Rules.{Emits-bind-post, Emits-imp}
use garden_extension_f5_loca.Text.{equal_fold, trim_space}
use garden_extension_f5_loca.VirtualServers.{
  EnsureRequest, check_frontend, ensure, may_conflict, recorded, takes_frontend,
}
use garden_extension_f5_loca.VirtualServers.Deletions.{Answered, check_frontend-reads}

-- A listener that may compete for the frontend: it is neither the current one nor of the desired name, and
-- the port and the protocol that it is listed with, where they are given, are the desired ones.
abbrev pub IsRival : EnsureRequest → VirtualServer → Type 0
IsRival req vs =
    (trim_space vs.id ≢ trim_space req.current_id)
    × (trim_space vs.name ≢ trim_space req.desired.name)
    × ((vs.port ≡ pos 0) ⊎ (vs.port ≡ req.desired.frontend_port))
    × ((trim_space vs.protocol ≡ "") ⊎ (equal_fold vs.protocol req.desired.protocol ≡ true))

-- The listener has the desired VIP, port and protocol.
abbrev pub Takes : EnsureRequest → VirtualServer → Type 0
Takes req detail =
    (trim_space detail.vip_port_id ≡ trim_space req.vip_port_id)
    × (detail.port ≡ req.desired.frontend_port)
    × (equal_fold detail.protocol req.desired.protocol ≡ true)

IsRival-may_conflict :
    (req : EnsureRequest) (vs : VirtualServer)
    → IsRival req vs
    → may_conflict (trim_space req.current_id) req.desired vs ≡ true
unfolding may_conflict
IsRival-may_conflict req vs (other, name, port, protocol) = ground (
  arith,
  eq_iff (trim_space vs.id) (trim_space req.current_id),
  eq_iff (trim_space vs.name) (trim_space req.desired.name),
  int_beq_iff vs.port (pos 0),
  int_beq_iff vs.port req.desired.frontend_port,
  eq_iff (trim_space vs.protocol) "",
)

Takes-takes_frontend :
    (req : EnsureRequest) (detail : VirtualServer)
    → Takes req detail
    → takes_frontend req.vip_port_id req.desired detail ≡ true
unfolding takes_frontend
Takes-takes_frontend req detail (vip, port, protocol) = ground (
  arith,
  eq_iff (trim_space detail.vip_port_id) (trim_space req.vip_port_id),
  int_beq_iff detail.port req.desired.frontend_port,
)

-- Each rival was read, and its detail does not take the frontend.
abbrev pub IsFree : {W : Type 0} → Client W → EnsureRequest → List VirtualServer → Type 0
IsFree client req = All λ vs.
    IsRival req vs
    → (detail : VirtualServer) × Answered client req.lb_service_id vs.id detail × ¬ Takes req detail

module _ {W : Type 0} (client : Client W) (own_vpc : String) (req : EnsureRequest) where
  check_frontend-IsFree :
      (ls : List VirtualServer) (w : W)
      → (check_frontend client own_vpc req (trim_space req.current_id) ls w).reply ≡ ok tt
      → IsFree client req ls
  unfolding check_frontend ◌>>=◌
  check_frontend-IsFree [] w h = tt
  check_frontend-IsFree (vs ∷ ls) w h =
      elim (Bool-cases (may_conflict (trim_space req.current_id) req.desired vs)) [
        | inl e ↦ elim (Result-cases (client.get_virtual_server req.lb_service_id vs.id w).0) [
          | inl (detail, q) ↦ (
            λ c. (detail, (w, q), λ takes. ground (arith, Takes-takes_frontend req detail takes)),
            check_frontend-IsFree ls (client.get_virtual_server req.lb_service_id vs.id w).1
                (ground arith),
          )
          | inr (x, q) ↦ absurd (ground arith)
        ]
        | inr e ↦ (
          (λ c. absurd (ground (arith, IsRival-may_conflict req vs c))),
          check_frontend-IsFree ls w (ground arith),
        )
      ]

no_read : {A : Type 0} (e : Event) → is_read e ≡ true → is_read e ≡ false → A
no_read e h k = cc

All-given : {E : Type 0} (P : E → Type 0) → ((e : E) → P e) → (t : List E) → All P t
All-given P h [] = tt
All-given P h (e ∷ t) = (h e, All-given P h t)

-- A change is made only after a listing that succeeded and where the frontend is free.
abbrev pub IsSafe :
    {W : Type 0} → Client W → EnsureRequest → Result (List VirtualServer) → Event → Type 0
IsSafe client req (err x) e = is_read e ≡ true
IsSafe client req (ok ls) e = is_read e ≡ false → IsFree client req ls

listing-IsSafe :
    {W : Type 0} (client : Client W) (req : EnsureRequest) (r s : Result (List VirtualServer))
    → IsSafe client req r (listed_virtual_servers req.lb_service_id s)
listing-IsSafe client req (ok ls) s = λ n. absurd (ground arith)
listing-IsSafe client req (err e) s = refl

listed-IsSafe :
    {W : Type 0} (client : Client W) (own_vpc : String) (req : EnsureRequest)
    (r : Result (List VirtualServer)) (w : W)
    → All
        (IsSafe client req r)
        (resume r
          (λ ls.
            check_frontend client own_vpc req (trim_space req.current_id) ls
            >> recorded client own_vpc req (trim_space req.current_id) ls)
          w).trace
listed-IsSafe client own_vpc req (ok ls) w =
    (Emits-bind-post {Q = λ a. IsFree client req ls} _ _
        (Emits-imp _ (λ e h k. no_read e h k)
          (check_frontend-reads client own_vpc req (λ id. Unit) (trim_space req.current_id) ls))
        (λ w a h. check_frontend-IsFree client own_vpc req ls w h)
        λ a f. record { at = λ w. All-given (IsSafe client req (ok ls)) (λ e n. f) _ }).at
      w
listed-IsSafe client own_vpc req (err e) w = tt

-- Whatever CMP answers, a run makes a change, a creation or a deletion, only where each listed rival was read
-- and answered with a VIP, port and protocol that are not all the desired ones. A rival is a listener
-- that has neither the current id nor the desired name, and that is listed with the desired port or
-- none and with the desired protocol or none. Where the listing fails the run only reads.
pub ensure-IsSafe :
    {W : Type 0} (client : Client W) (own_vpc : String) (req : EnsureRequest) (w : W)
    → All
        (IsSafe client req (client.list_virtual_servers req.lb_service_id w).0)
        (ensure client own_vpc req w).trace
unfolding ensure ◌>>=◌
ensure-IsSafe client own_vpc req w =
    let (r, w') = client.list_virtual_servers req.lb_service_id w in
    (listing-IsSafe client req r r, listed-IsSafe client own_vpc req r w')
