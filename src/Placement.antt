-- ===== src/Placement.antt =====
-- pkg/deploy/lbaas/deployer.go: the stack deployer's managers, its request, and the checks of EnsureStack
-- that come before the first resource is made. crypto/sha256 with the hexadecimal print and the CMP
-- clients are parameters.
use garden_extension_f5_loca.LbServices
use garden_extension_f5_loca.Prelude.{
  Bool, List, Option, String, [], false, if◌then◌else◌, int_eq, nat_eq, none, not, pos, some,
  string_eq, true, ◌!=◌, ◌&&◌, ◌==◌, ◌||◌, ◌∷◌,
}
use garden_extension_f5_loca.Certificates.{CertificateClient, CertificateEvent}
use garden_extension_f5_loca.Cleanup.{Clients}
use garden_extension_f5_loca.Cmp.{Event}
use garden_extension_f5_loca.Exec.{
  Done, Exec, Result, call, err, errorf, lift, ok, pure, raise, via, wrapf, wrapping, ◌>>=◌, ◌>>◌,
}
use garden_extension_f5_loca.LbServices.{EnsureRequest, get_lb_service, validate_placement}
use garden_extension_f5_loca.Model.{LoadBalancerStack}
use garden_extension_f5_loca.Observed.{ObservedState}
use garden_extension_f5_loca.Text.{to_lower, trim_space}

pub record Network : Type 0 where
  pub id : String
  pub vpc_id : String
  pub status : String

-- NetworkClient
pub record NetworkClient (W : Type 0) : Type 0 where
  pub get_network : String → W → Result Network × W

-- A call of the deployer and its answer: one of the CMP client, one for certificates, the lookup of a
-- network, or that of LBReadyHook with the state to save.
pub data StackEvent : Type 0 where
  provider : Event → StackEvent
  certificates : CertificateEvent → StackEvent
  got_network : String → Result Network → StackEvent
  saved : ObservedState → Result Done → StackEvent

abbrev pub StackRun : Type 0 → Type 0 → Type 0
StackRun W A = Exec StackEvent W A

-- Deployer
pub record Deployer (W : Type 0) : Type 0 where
  pub clients : Clients W
  pub networks : Option (NetworkClient W)
  pub certificate_client : Option (CertificateClient W)
  pub own_vpc : String
  pub sha256_hex : String → String

-- StackEnsureRequest, with a stack that is not nil.
pub record StackEnsureRequest (W : Type 0) : Type 0 where
  pub stack : LoadBalancerStack
  pub current : ObservedState
  pub strict_lb_service_id : Bool
  pub strict_vip_port_id : Bool
  pub recover_by_name : Bool
  pub lb_ready_hook : Option (ObservedState → W → Result Done × W)
  pub network_id_explicit : Bool
  pub aggregate : Bool

abbrev is_nil : {A : Type 0} → List A → Bool
is_nil [] = true
is_nil (_ ∷ _) = false

abbrev pub is_missing : {A : Type 0} → Option A → Bool
is_missing none = true
is_missing (some _) = false

module _ {W : Type 0} (d : Deployer W) (req : StackEnsureRequest W) where
  -- The guards at the head of EnsureStack.
  unfoldable pub check_request : Result Done
  check_request =
      let stack = req.stack in
      if is_nil stack.virtual_servers
      then err (errorf "load-balancer stack has no virtual servers" [])
      else if not (is_nil stack.pools) && (is_missing d.clients.pools && not req.aggregate)
      then err (errorf "pool reconciliation requires a PoolManager" [])
      else if not (is_nil stack.routing_rules) && is_missing d.clients.routing_rules
      then err (errorf "routing-rule reconciliation requires a RoutingRuleManager" [])
      else if not (is_nil stack.certificates) && is_missing d.certificate_client
      then err (errorf "certificate reconciliation requires a CertificateManager" [])
      else ok tt

  -- What an explicit subnet is checked for.
  unfoldable pub check_network : String → Network → Result Done
  check_network id network =
      let vpc = req.stack.lb_service.vpc_id in
      let status = to_lower (trim_space network.status) in
      if trim_space network.vpc_id == ""
      then err (errorf "explicit subnet %q response has no VPC identity" (id ∷ []))
      else if trim_space network.vpc_id != trim_space vpc
      then err (
          errorf "explicit subnet %q belongs to VPC %q, expected %q"
            (id ∷ network.vpc_id ∷ vpc ∷ []))
      else if status == "active"
          || (status == "allocated"
              || (status == "available" || (status == "created" || status == "ready")))
      then ok tt
      else if status == ""
      then err (errorf "explicit subnet %q response has no status" (id ∷ []))
      else err (errorf "explicit subnet %q is not usable: status %q" (id ∷ network.status ∷ []))

  unfoldable pub explicit_network : String → StackRun W String
  explicit_network id = elim d.networks [
    | none ↦ raise (
        errorf "validating explicit subnet %q: CMP network lookup capability is unavailable"
          (id ∷ []))
    | some client ↦ do
      network ←
          wrapping (wrapf "validating explicit subnet %q" (id ∷ []))
            (call (client.get_network id) (got_network id))
      lift (check_network id network)
      pure id
  ]

  -- The request that a supplied LB service is checked against.
  abbrev placement_request : LbServices.EnsureRequest
  placement_request = record {
    lb_name = "";
    lb_description = "";
    flavor_id = pos 0;
    network_id = "";
    vpc_id = req.stack.lb_service.vpc_id;
    vpc_name = "";
    region = req.stack.lb_service.region;
  }

  -- The subnet of a supplied LB service.
  unfoldable pub supplied_network : String → StackRun W String
  supplied_network lb_id = do
    supplied ←
        wrapping (wrapf "checking supplied LBService %q placement" (lb_id ∷ []))
          (via provider (LbServices.get_lb_service d.clients.client lb_id))
    lift (validate_placement supplied placement_request)
    if trim_space supplied.network_id == ""
        then raise
            (errorf "supplied LBService %q response has no subnet identity" (supplied.id ∷ []))
        else pure (trim_space supplied.network_id)

  -- effectiveNetworkID, from the state with its graph.
  unfoldable pub effective_network : ObservedState → StackRun W String
  unfolding explicit_network supplied_network
  effective_network observed =
      let given = trim_space req.stack.lb_service.network_id in
      if req.network_id_explicit
      then explicit_network given
      else if req.strict_lb_service_id && trim_space observed.lb_service_id != ""
      then supplied_network observed.lb_service_id
      else pure given

  -- The call of LBReadyHook, where there is one.
  unfoldable pub save : ObservedState → StackRun W Done
  save observed = elim req.lb_ready_hook [
    | none ↦ pure tt
    | some hook ↦ call (hook observed) (saved observed)
  ]
