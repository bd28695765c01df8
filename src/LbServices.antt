-- ===== src/LbServices.antt =====
-- pkg/deploy/lbaas/lb_service_manager.go: the parent LB service is verified, adopted by its name or
-- created. Values that Go returns beside an error are dropped, since no caller reads them.
pub mod Readiness
pub mod Verified
pub mod Mutations
use garden_extension_f5_loca.Prelude.{
  Bool, List, String, [], false, if◌then◌else◌, int_eq, nat_eq, none, some, string_eq, true, ℤ,
  ◌!=◌, ◌&&◌, ◌==◌, ◌||◌, ◌∷◌,
}
use garden_extension_f5_loca.Cmp.{
  Client, Cmp, LbService, LbServiceSpec, created_lb_service, deleted_lb_service, got_lb_service,
  listed_lb_services,
}
use garden_extension_f5_loca.Exec.{
  Done, Error, Provisioning, Result, attempt, call, err, errorf, is_already_exists, is_not_found,
  is_terminal_provisioning, lift, ok, pending, pure, raise, terminal, unless_missing, wrapf,
  wrapping, ◌>>=◌, ◌>>◌,
}
use garden_extension_f5_loca.Text.{equal_fold, to_lower, trim_space}

-- EnsureRequest, as far as this manager reads it.
pub record EnsureRequest : Type 0 where
  pub lb_name : String
  pub lb_description : String
  pub flavor_id : ℤ
  pub network_id : String
  pub vpc_id : String
  pub vpc_name : String
  pub region : String

unfoldable pub is_ready_status : String → Bool
is_ready_status status =
    let s = to_lower (trim_space status) in
    s == "created"
    || (s == "active"
        || (s == "ready" || (s == "available" || (s == "online" || (s == "success" || s == "ok")))))

unfoldable pub is_failed_status : String → Bool
is_failed_status status =
    let s = to_lower (trim_space status) in
    s == "failed" || (s == "error" || (s == "errored" || (s == "degraded" || s == "unavailable")))

abbrev lb_provisioning : String → String → String → Provisioning
lb_provisioning id status detail = record {
  resource_type = "LBService";
  resource_id = id;
  status = status;
  detail = detail;
}

-- validateLBServiceReadiness
unfoldable pub validate_readiness : LbService → Result Done
validate_readiness svc =
    let id = trim_space svc.id in
    let status = to_lower (trim_space svc.status) in
    let op_status = to_lower (trim_space svc.operating_status) in
    let reported = lb_provisioning id (trim_space svc.status) (trim_space svc.operating_status) in
    if id == ""
    then err (errorf "CMP returned LBService without an ID while validating readiness" [])
    else if is_failed_status status || is_failed_status op_status
    then err (terminal reported)
    else if is_ready_status status || is_ready_status op_status
    then ok tt
    else if status == "" && op_status == ""
    then err (
        pending (
          lb_provisioning id "unknown"
            "CMP LBService response omitted status and operating_status"))
    else err (pending reported)

-- One of the three checks of validateLBServicePlacement: nothing is expected, or the answer is not
-- empty and agrees. The formats are those of its two errors.
unfoldable pub check_placed :
    (String → String → Bool) → String → String → String → String → String → Result Done
check_placed same missing elsewhere id expected actual =
    if expected == ""
    then ok tt
    else if trim_space actual == ""
    then err (errorf missing (id ∷ []))
    else if same (trim_space actual) expected
    then ok tt
    else err (errorf elsewhere (id ∷ actual ∷ expected ∷ []))

abbrev pub seq : Result Done → Result Done → Result Done
seq (ok _) r = r
seq (err e) r = err e

-- validateLBServicePlacement
unfoldable pub validate_placement : LbService → EnsureRequest → Result Done
unfolding check_placed
validate_placement svc req =
    seq
      (check_placed (λ a b. a == b) "supplied LBService %q response has no VPC identity"
        "supplied LBService %q belongs to VPC %q, expected %q" svc.id (trim_space req.vpc_id)
        svc.vpc_id)
      (seq
        (check_placed (λ a b. a == b) "supplied LBService %q response has no subnet identity"
          "supplied LBService %q belongs to subnet %q, expected %q" svc.id
          (trim_space req.network_id) svc.network_id)
        (check_placed equal_fold "supplied LBService %q response has no region"
          "supplied LBService %q belongs to region %q, expected %q" svc.id (trim_space req.region)
          svc.region))

-- The loop of findUniqueLBServiceByName, from what was found so far.
find_from : String → String → List LbService → Result String
find_from name found [] = ok found
find_from name found (svc ∷ items) =
    let rest = find_from name (trim_space svc.id) items in
    let skip = find_from name found items in
    if trim_space svc.name != name || trim_space svc.id == ""
    then skip
    else if found != ""
    then err (errorf "multiple LB services named %q found; refusing ambiguous adoption" (name ∷ []))
    else rest

-- findUniqueLBServiceByName
unfoldable pub find_unique_by_name : List LbService → String → Result String
unfolding find_from
find_unique_by_name items name = find_from (trim_space name) "" items

module _ {W : Type 0} (client : Client W) where
  abbrev pub get_lb_service : String → Cmp W LbService
  get_lb_service id = call (client.get_lb_service id) (got_lb_service id)

  abbrev pub delete_lb_service : String → Cmp W Done
  delete_lb_service id = call (client.delete_lb_service id) (deleted_lb_service id)

  -- findByName
  unfoldable pub find_by_name : String → Cmp W String
  find_by_name name = do
    let name' = trim_space name
    items ← call (client.list_lb_services name') (listed_lb_services name')
    lift (find_unique_by_name items name')

  abbrev pub lb_service_spec : String → EnsureRequest → LbServiceSpec
  lb_service_spec own_vpc req =
      let vpc = trim_space req.vpc_id in
      record {
        name = trim_space req.lb_name;
        description = req.lb_description;
        flavor_id = req.flavor_id;
        network_id = req.network_id;
        vpc_id = if vpc == "" then own_vpc else vpc;
        vpc_name = req.vpc_name;
      }

  -- After a 409: the service that already has the name.
  reuse_existing : String → Cmp W String
  reuse_existing lb_name = do
    found ←
        wrapping (wrapf "LBService %q returned 409 but lookup failed" (lb_name ∷ []))
          (find_by_name lb_name)
    let id = trim_space found
    if id == ""
        then raise (
            errorf "LBService %q returned 409 but was not present in ListLBServices response"
              (lb_name ∷ []))
        else pure id

  created_id : String → Result LbService → Cmp W String
  created_id lb_name (ok created) =
      let id = trim_space created.id in
      if id == ""
      then raise (errorf "CMP created LBService %q but returned an empty ID" (lb_name ∷ []))
      else pure id
  created_id lb_name (err e) =
      if is_already_exists e
      then reuse_existing lb_name
      else raise (wrapf "creating LB service via CMP" [] e)

  -- create; `own_vpc` is the manager's VPC.
  unfoldable pub create : String → EnsureRequest → Cmp W String
  unfolding created_id reuse_existing
  create own_vpc req = do
    let spec = lb_service_spec own_vpc req
    created ← attempt (call (client.create_lb_service spec) (created_lb_service spec))
    created_id spec.name created

  readable : String → Result LbService → Result LbService
  readable id (ok svc) = ok svc
  readable id (err e) =
      if is_not_found e
      then err
          (pending (lb_provisioning id "creating" "LBService accepted by CMP but not yet readable"))
      else err (wrapf "checking LBService %q readiness via CMP" (id ∷ []) e)

  -- ensureCreatedReady
  unfoldable pub ensure_created_ready : String → EnsureRequest → Cmp W (String × Bool)
  unfolding readable
  ensure_created_ready id req = do
    answer ← attempt (get_lb_service id)
    created ← lift (readable id answer)
    lift (validate_readiness created)
    lift (validate_placement created req)
    pure (id, true)

  find_or_create : String → EnsureRequest → Cmp W (String × Bool)
  find_or_create own_vpc req = do
    recovered ←
        wrapping (wrapf "looking up deterministic LBService %q before create" (req.lb_name ∷ []))
          (find_by_name req.lb_name)
    if recovered != ""
        then ensure_created_ready recovered req
        else do id ← create own_vpc req; ensure_created_ready id req

  -- A managed service that failed is deleted, so that a later reconcile replaces it.
  unfoldable pub replace_failed : String → Bool → Error → Cmp W (String × Bool)
  replace_failed id strict e = elim (is_terminal_provisioning e) [
    | none ↦ raise e
    | some t ↦ if strict then raise (terminal t) else do
      unless_missing (wrapf "deleting failed LBService %q before recreate" (id ∷ []))
          (delete_lb_service id)
      raise (
          pending (
            lb_provisioning id "deleting"
              "failed managed LBService deleted; waiting for CMP deletion before replacement"))
  ]

  settle : String → Bool → Result Done → Cmp W (String × Bool)
  settle id strict (ok _) = pure (id, false)
  settle id strict (err e) = replace_failed id strict e

  checked : String → EnsureRequest → String → Bool → Result LbService → Cmp W (String × Bool)
  checked own_vpc req id strict (ok svc) = do
    lift (validate_placement svc req)
    settle id strict (validate_readiness svc)
  checked own_vpc req id strict (err e) =
      if is_not_found e
      then (if strict
          then raise (errorf "supplied LBService %q was not found in CMP" (id ∷ []))
          else find_or_create own_vpc req)
      else raise (wrapf "checking existing LBService %q via CMP" (id ∷ []) e)

  -- LBServiceManager.Ensure: the id, and whether it is new to the caller.
  unfoldable pub ensure : String → EnsureRequest → String → Bool → Cmp W (String × Bool)
  unfolding checked settle find_or_create
  ensure own_vpc req current_id strict =
      let id = trim_space current_id in
      if id == ""
      then find_or_create own_vpc req
      else do answer ← attempt (get_lb_service id); checked own_vpc req id strict answer
