-- ===== src/LbServices/Verified.antt =====
-- What an accepted LB service has been checked for.
use mathlib.Core.List.{append_assoc}
use garden_extension_f5_loca.Prelude.{
  Bool, List, String, [], arith, eq_iff, inl, inr, int_eq, nat_eq, string_eq, sym, true, ◌!=◌, ◌++◌,
  ◌==◌, ◌∷◌, ◌≡◌, ◌≢◌,
}
use garden_extension_f5_loca.Prelude.{Bool-cases, false, ◌⊎◌}
use garden_extension_f5_loca.Cmp.{Client, Cmp, Event, LbService, got_lb_service}
use garden_extension_f5_loca.Dict.{contains}
use garden_extension_f5_loca.Exec.{Result, Result-cases, err, is_not_found, ok, ◌>>=◌}
use garden_extension_f5_loca.Exec.Rules.{Yields, Yields-bind, Yields-if, Yields-raise}
use garden_extension_f5_loca.LbServices.{
  EnsureRequest, checked, create, ensure, ensure_created_ready, find_or_create, is_failed_status,
  is_ready_status, replace_failed, settle, validate_placement, validate_readiness,
}
use garden_extension_f5_loca.Text.{equal_fold, to_lower, trim_space}

-- Placed as asked: each expectation that is not empty agrees with the answer.
pub record IsPlaced (svc : LbService) (req : EnsureRequest) : Type 0 where
  pub vpc : trim_space req.vpc_id ≢ "" → trim_space svc.vpc_id ≡ trim_space req.vpc_id
  pub network :
      trim_space req.network_id ≢ "" → trim_space svc.network_id ≡ trim_space req.network_id
  pub region :
      trim_space req.region ≢ "" → equal_fold (trim_space svc.region) (trim_space req.region) ≡ true

pub validate_placement-IsPlaced :
    (svc : LbService) (req : EnsureRequest) → validate_placement svc req ≡ ok tt → IsPlaced svc req
unfolding validate_placement
validate_placement-IsPlaced svc req h = record {
  vpc = λ n. ground (
    arith,
    eq_iff (trim_space req.vpc_id) "",
    eq_iff (trim_space svc.vpc_id) (trim_space req.vpc_id),
  );
  network = λ n. ground (
    arith,
    eq_iff (trim_space req.network_id) "",
    eq_iff (trim_space svc.network_id) (trim_space req.network_id),
  );
  region = λ n. ground (arith, eq_iff (trim_space req.region) "");
}

abbrev failures : List String
failures = "failed" ∷ "error" ∷ "errored" ∷ "degraded" ∷ "unavailable" ∷ []

abbrev successes : List String
successes = "created" ∷ "active" ∷ "ready" ∷ "available" ∷ "online" ∷ "success" ∷ "ok" ∷ []

abbrev normal : String → String
normal status = to_lower (trim_space status)

-- The service has an id, neither of its two statuses is a failure, and one is a success. The code
-- normalizes a status twice.
abbrev pub IsReady : LbService → Type 0
IsReady svc =
    let status = normal (normal svc.status) in
    let op_status = normal (normal svc.operating_status) in
    (trim_space svc.id ≢ "")
    × (contains status failures ≡ false)
    × (contains op_status failures ≡ false)
    × ((contains status successes ≡ true) ⊎ (contains op_status successes ≡ true))

eq_comm : (a b : String) → (a == b) ≡ (b == a)
eq_comm a b = elim (Bool-cases (a == b)) [
  | inl e ↦ rw e (sym ((eq_iff b a).1 (sym ((eq_iff a b).0 e))))
  | inr e ↦ ground (arith, eq_iff a b, eq_iff b a)
]

is_failed_status-contains :
    (status : String) → is_failed_status status ≡ contains (normal status) failures
unfolding is_failed_status contains
is_failed_status-contains status =
    let eq = eq_comm (normal status) in
    ground (arith, eq "failed", eq "error", eq "errored", eq "degraded", eq "unavailable")

is_ready_status-contains :
    (status : String) → is_ready_status status ≡ contains (normal status) successes
unfolding is_ready_status contains
is_ready_status-contains status =
    let eq = eq_comm (normal status) in
    ground (
      arith,
      eq "created",
      eq "active",
      eq "ready",
      eq "available",
      eq "online",
      eq "success",
      eq "ok",
    )

validate_readiness-IsReady : (svc : LbService) → validate_readiness svc ≡ ok tt → IsReady svc
unfolding validate_readiness
validate_readiness-IsReady svc h =
    rw
      (
        ← is_failed_status-contains (normal svc.status),
        ← is_failed_status-contains (normal svc.operating_status),
        ← is_ready_status-contains (normal svc.status),
        ← is_ready_status-contains (normal svc.operating_status),
      )
      (ground (arith, eq_iff (trim_space svc.id) ""))

-- The trace ends in a read of `id` that answered with a ready service, placed as asked.
pub record EndsVerified (req : EnsureRequest) (id : String) (t : List Event) : Type 0 where
  pub before : List Event
  pub svc : LbService
  pub ends : t ≡ before ++ got_lb_service id (ok svc) ∷ []
  pub ready : IsReady svc
  pub placed : IsPlaced svc req

EndsVerified-append :
    {req : EnsureRequest} {id : String} {t : List Event} (calls : List Event)
    → EndsVerified req id t
    → EndsVerified req id (calls ++ t)
EndsVerified-append calls v = record {
  before = calls ++ v.before;
  svc = v.svc;
  ends = rw v.ends (sym (append_assoc calls v.before _));
  ready = v.ready;
  placed = v.placed;
}

module _ {W : Type 0} (client : Client W) where
  abbrev Verifies : EnsureRequest → Cmp W (String × Bool) → Type 0
  Verifies req m = Yields (λ t a. EndsVerified req a.0 t) m

  ensure_created_ready-Verifies :
      (id : String) (req : EnsureRequest) → Verifies req (ensure_created_ready client id req)
  unfolding ensure_created_ready ◌>>=◌
  ensure_created_ready-Verifies id req = record {
    at = λ w a h. elim (Result-cases (client.get_lb_service id w).0) [
      | inl (svc, q) ↦ record {
        before = [];
        svc = svc;
        ends = ground arith;
        ready = validate_readiness-IsReady svc (ground arith);
        placed = validate_placement-IsPlaced svc req (ground arith);
      }
      | inr (e, q) ↦ absurd (ground arith)
    ];
  }

  find_or_create-Verifies :
      (own_vpc : String) (req : EnsureRequest) → Verifies req (find_or_create client own_vpc req)
  unfolding find_or_create
  find_or_create-Verifies own_vpc req =
      Yields-bind _ _ (λ calls t a. EndsVerified-append calls)
        λ recovered.
          Yields-if (recovered != "") (ensure_created_ready client recovered req)
            (create client own_vpc req >>= λ id. ensure_created_ready client id req)
            (λ _. ensure_created_ready-Verifies recovered req)
            (λ _.
              Yields-bind (create client own_vpc req) _ (λ calls t a. EndsVerified-append calls)
                λ id. ensure_created_ready-Verifies id req)

  checked-Verifies :
      (own_vpc : String) (req : EnsureRequest) (id : String) (strict : Bool) (r : Result LbService)
      → Yields
          (λ t a. EndsVerified req a.0 (got_lb_service id r ∷ t))
          (checked client own_vpc req id strict r)
  unfolding checked settle replace_failed ◌>>=◌
  checked-Verifies own_vpc req id strict (ok svc) = record {
    at = λ w a h. record {
      before = [];
      svc = svc;
      ends = ground arith;
      ready = validate_readiness-IsReady svc (ground arith);
      placed = validate_placement-IsPlaced svc req (ground arith);
    };
  }
  checked-Verifies own_vpc req id strict (err e) = record {
    at = λ w a h. EndsVerified-append (got_lb_service id (err e) ∷ []) (
        (Yields-if (is_not_found e) _ _
            (λ _.
              Yields-if strict _ _ (λ _. Yields-raise _) λ _. find_or_create-Verifies own_vpc req)
            λ _. Yields-raise _).at
          w a h);
  }

  ensure-Verifies :
      (own_vpc : String) (req : EnsureRequest) (current_id : String) (strict : Bool)
      → Verifies req (ensure client own_vpc req current_id strict)
  unfolding ensure ◌>>=◌
  ensure-Verifies own_vpc req current_id strict =
      let id = trim_space current_id in
      Yields-if (id == "") _ _ (λ _. find_or_create-Verifies own_vpc req)
        λ _. record {
          at = λ w a h.
              let (r, w') = client.get_lb_service id w in
              (checked-Verifies own_vpc req id strict r).at w' a h;
        }

-- A returned id was read at the end of the run, and the answer was a ready service whose VPC, subnet
-- and region agree with every expectation of the request that is not blank. A ready service has an id;
-- neither its status nor its operating status is failed, error, errored, degraded or unavailable, and
-- one of the two is created, active, ready, available, online, success or ok.
pub ensure-verified :
    {W : Type 0} (client : Client W) (own_vpc : String) (req : EnsureRequest) (current_id : String)
    (strict : Bool) (w : W) (id : String) (changed : Bool)
    → (ensure client own_vpc req current_id strict w).reply ≡ ok (id, changed)
    → EndsVerified req id (ensure client own_vpc req current_id strict w).trace
ensure-verified client own_vpc req current_id strict w id changed h =
    (ensure-Verifies client own_vpc req current_id strict).at w (id, changed) h
