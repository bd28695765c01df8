-- ===== src/VirtualServers.antt =====
-- pkg/deploy/lbaas/virtual_server_manager.go: one listener of an LB service, with the pool, monitor and
-- members that CMP creates with it. Values that Go returns beside an error are dropped, since no
-- caller reads them.
pub mod Computes
pub mod Deletions
pub mod Frontend
pub mod Valid
pub mod Answers
use garden_extension_f5_loca.Model
use garden_extension_f5_loca.Prelude.{
  Bool, List, Option, String, [], false, if◌then◌else◌, int_eq, nat_eq, none, not, pos, some,
  string_eq, true, ℤ, ◌!=◌, ◌&&◌, ◌==◌, ◌||◌, ◌∷◌,
}
use garden_extension_f5_loca.Cmp.{
  BackendNodeSpec, Client, Cmp, Compute, ComputePort, NetworkPort, PoolMemberSpec, VirtualServer,
  VirtualServerSpec, created_virtual_server, deleted_virtual_server, got_compute,
  got_virtual_server, listed_virtual_servers,
}
use garden_extension_f5_loca.Exec.{
  Done, Provisioning, Result, attempt, call, err, errorf, is_not_found, is_terminal_provisioning,
  lift, ok, pending, pure, raise, terminal, unless_missing, wrapf, wrapping, ◌>>=◌, ◌>>◌,
}
use garden_extension_f5_loca.Model.{BackendMember, Monitor}
use garden_extension_f5_loca.Text.{equal_fold, to_lower, to_upper, trim_space}
use garden_extension_f5_loca.Text.Decimal.{show}

abbrev vs_provisioning : String → String → String → Provisioning
vs_provisioning id status detail = record {
  resource_type = "VirtualServer";
  resource_id = id;
  status = status;
  detail = detail;
}

-- validateVirtualServer
unfoldable pub validate_virtual_server : VirtualServer → String → Model.VirtualServer → Result Done
validate_virtual_server vs vip_port_id desired =
    let status = to_lower (trim_space vs.status) in
    if trim_space vs.vip_port_id != "" && (trim_space vs.vip_port_id != trim_space vip_port_id)
    then err (
        errorf "virtual server %s uses VIP %q, expected %q"
          (vs.id ∷ vs.vip_port_id ∷ vip_port_id ∷ []))
    else if (vs.port != pos 0) && (vs.port != desired.frontend_port)
    then err (
        errorf "virtual server %s uses frontend port %d, expected %d"
          (vs.id ∷ show vs.port ∷ show desired.frontend_port ∷ []))
    else if trim_space vs.protocol != "" && not (equal_fold vs.protocol desired.protocol)
    then err (
        errorf "virtual server %s uses protocol %q, expected %q"
          (vs.id ∷ vs.protocol ∷ desired.protocol ∷ []))
    else if status == "active"
        || (status == "created"
            || (status == "ready" || (status == "available" || status == "online")))
    then ok tt
    else if status == "failed" || (status == "error" || status == "errored")
    then err (terminal (vs_provisioning vs.id vs.status ""))
    else err (pending (vs_provisioning vs.id vs.status "waiting for CMP virtual server readiness"))

-- The loop of findUniqueVirtualServerByName, from what was found so far.
find_from : String → String → List VirtualServer → Result String
find_from name found [] = ok found
find_from name found (vs ∷ items) =
    let rest = find_from name (trim_space vs.id) items in
    let skip = find_from name found items in
    if trim_space vs.name != name || trim_space vs.id == ""
    then skip
    else if found != ""
    then err
        (errorf "multiple virtual servers named %q found; refusing ambiguous adoption" (name ∷ []))
    else rest

-- findUniqueVirtualServerByName
unfoldable pub find_unique_by_name : List VirtualServer → String → Result String
unfolding find_from
find_unique_by_name items name =
    if trim_space name == "" then ok "" else find_from (trim_space name) "" items

-- containsString
unfoldable pub contains_string : String → List String → Bool
contains_string wanted [] = false
contains_string wanted (value ∷ values) =
    trim_space value == trim_space wanted || contains_string wanted values

-- The loop over a compute's ports, with the match so far.
unfoldable pub match_port :
    String → String → List ComputePort → Option ComputePort → Result (Option ComputePort)
match_port compute_id ip [] found = ok found
match_port compute_id ip (port ∷ ports) found =
    let skip = match_port compute_id ip ports found in
    let taken = match_port compute_id ip ports (some port) in
    if not (contains_string ip port.fixed_ips) || port.id == pos 0
    then skip
    else if trim_space port.device_id != "" && (trim_space port.device_id != compute_id)
    then err (
        errorf "CMP compute %s port %d has device_id %q"
          (compute_id ∷ show port.id ∷ port.device_id ∷ []))
    else if trim_space port.device_type != ""
        && not (equal_fold (trim_space port.device_type) "compute")
    then err (
        errorf "CMP compute %s port %d has device_type %q"
          (compute_id ∷ show port.id ∷ port.device_type ∷ []))
    else elim found [
      | none ↦ taken
      | some _ ↦ err (
          errorf "multiple CMP compute ports match backend IP %s on compute %s"
            (ip ∷ compute_id ∷ []))
    ]

network_port : Compute → String → String → Option ComputePort → Result NetworkPort
network_port compute compute_id ip none =
    err (errorf "backend IP %s is absent from CMP compute %s ports" (ip ∷ compute_id ∷ []))
network_port compute compute_id ip (some port) = ok (record {
  id = port.id;
  resource_id = compute_id;
  resource_type = "compute";
  ip = ip;
  network_id = port.network_id;
  device_id = port.device_id;
  device_type = port.device_type;
  instance_name = compute.name;
})

abbrev and_then : {A B : Type 0} → Result A → (A → Result B) → Result B
and_then (ok a) f = f a
and_then (err e) f = err e

-- The checks of resolveComputeBackendPort, once the compute is read; `own_vpc` is the manager's VPC.
unfoldable pub select_port : String → String → String → String → Compute → Result NetworkPort
unfolding network_port match_port
select_port own_vpc region compute_id ip compute =
    if trim_space own_vpc != "" && trim_space compute.vpc_id == ""
    then err (errorf "CMP compute %s response has no VPC identity" (compute_id ∷ []))
    else if trim_space own_vpc != "" && (trim_space compute.vpc_id != trim_space own_vpc)
    then err (
        errorf "CMP compute %s belongs to VPC %q, expected %q"
          (compute_id ∷ compute.vpc_id ∷ own_vpc ∷ []))
    else if trim_space region != "" && trim_space compute.region == ""
    then err (errorf "CMP compute %s response has no region" (compute_id ∷ []))
    else if trim_space region != ""
        && not (equal_fold (trim_space compute.region) (trim_space region))
    then err (
        errorf "CMP compute %s belongs to region %q, expected %q"
          (compute_id ∷ compute.region ∷ region ∷ []))
    else and_then (match_port compute_id ip compute.ports none) (network_port compute compute_id ip)

-- VirtualServerEnsureRequest, without the pool, which `create` is given and does not use.
pub record EnsureRequest : Type 0 where
  pub lb_service_id : String
  pub vip_port_id : String
  pub network_id : String
  pub region : String
  pub desired : Model.VirtualServer
  pub backends : List BackendMember
  pub current_id : String
  pub current_hash : String
  pub desired_hash : String
  pub recreate_when_hash_missing : Bool
  pub recover_by_name : Bool

abbrev monitor_part : Option Monitor → ℤ → (String × String × String × ℤ × ℤ × ℤ)
monitor_part none node_port = ("", "", "", pos 0, pos 0, pos 0)
monitor_part (some m) node_port =
    (m.name, m.type, m.path, m.interval, (if m.port == pos 0 then node_port else m.port), m.timeout)

abbrev backend_node : BackendMember → NetworkPort → BackendNodeSpec
backend_node backend port = record {
  resource_id = port.resource_id;
  resource_type = port.resource_type;
  resource_ip = port.ip;
  backend_port_id = port.id;
  port = backend.port;
  weight = backend.weight;
  max_connections = pos 100;
  instance_name = port.instance_name;
  source_type = "vm";
}

unfoldable pub virtual_server_spec :
    String → String → Model.VirtualServer → List BackendNodeSpec → VirtualServerSpec
virtual_server_spec own_vpc vip_port_id vs nodes =
    let m = monitor_part vs.monitor vs.backend_node_port in
    record {
      name = vs.name;
      vip_port_id = vip_port_id;
      protocol = vs.protocol;
      routing_algorithm = vs.routing_algorithm;
      port = vs.frontend_port;
      pool_name = vs.default_pool_name;
      monitor_name = m.0;
      monitor_protocol = m.1;
      monitor_path = m.2;
      monitor_interval = m.3;
      monitor_port = m.4;
      monitor_timeout = m.5;
      persistence_type = vs.persistence_type;
      persistence_enabled = trim_space vs.persistence_type != "";
      x_forwarded_for = true;
      draining_timeout = vs.draining_timeout;
      vpc_id = own_vpc;
      allowed_cidrs = vs.source_ranges;
      nodes = nodes;
    }

-- A listener that may take the desired frontend: another one, whose listed port and protocol, where
-- they are given, agree.
unfoldable pub may_conflict : String → Model.VirtualServer → VirtualServer → Bool
may_conflict current_id desired vs =
    not (trim_space vs.id == current_id || trim_space vs.name == trim_space desired.name)
    && (not ((vs.port != pos 0) && (vs.port != desired.frontend_port))
        && not (trim_space vs.protocol != "" && not (equal_fold vs.protocol desired.protocol)))

unfoldable pub takes_frontend : String → Model.VirtualServer → VirtualServer → Bool
takes_frontend vip_port_id desired detail =
    trim_space detail.vip_port_id == trim_space vip_port_id
    && (detail.port == desired.frontend_port && equal_fold detail.protocol desired.protocol)

-- The first listener with this id.
unfoldable pub is_listed : String → List VirtualServer → Bool
is_listed id [] = false
is_listed id (vs ∷ listeners) = trim_space vs.id == id || is_listed id listeners

-- The id, the name, and whether something changed.
abbrev pub VsAnswer : Type 0
VsAnswer = String × String × Bool

module _ {W : Type 0} (client : Client W) (own_vpc : String) where
  -- resolveBackendPort and resolveComputeBackendPort
  unfoldable pub resolve_backend_port : BackendMember → String → Cmp W NetworkPort
  unfolding select_port
  resolve_backend_port backend region =
      let id = trim_space backend.compute_id in
      if id == ""
      then raise (
          errorf "node %q has no CMP compute identity; expected spec.providerID=cmp://<uuid>"
            (backend.node_name ∷ []))
      else do
        compute ←
            wrapping (wrapf "fetching CMP compute %s" (id ∷ []))
              (call (client.get_compute id) (got_compute id))
        lift (select_port own_vpc region id (trim_space backend.ip) compute)

  unfoldable pub backend_nodes : List BackendMember → String → Cmp W (List BackendNodeSpec)
  backend_nodes [] region = pure []
  backend_nodes (backend ∷ backends) region = do
    port ← resolve_backend_port backend region
    nodes ← backend_nodes backends region
    pure (backend_node backend port ∷ nodes)

  -- poolMemberSpecs
  unfoldable pub pool_member_specs : List BackendMember → Cmp W (List PoolMemberSpec)
  pool_member_specs [] = pure []
  pool_member_specs (backend ∷ backends) = do
    port ← resolve_backend_port backend ""
    specs ← pool_member_specs backends
    pure (
        record {
          resource_id = port.resource_id;
          resource_type = port.resource_type;
          resource_ip = port.ip;
          backend_port_id = port.id;
          port = backend.port;
          weight = backend.weight;
        }
        ∷ specs)

  module _ (req : EnsureRequest) where
    abbrev get_vs : String → Cmp W VirtualServer
    get_vs id =
        call (client.get_virtual_server req.lb_service_id id)
          (got_virtual_server req.lb_service_id id)

    abbrev delete_vs : String → Cmp W Done
    delete_vs id =
        call (client.delete_virtual_server req.lb_service_id id)
          (deleted_virtual_server req.lb_service_id id)

    abbrev post_vs : VirtualServerSpec → Cmp W VirtualServer
    post_vs spec = wrapping (wrapf "creating virtual server via CMP" []) (
        call (client.create_virtual_server req.lb_service_id spec)
          (created_virtual_server req.lb_service_id spec))

    -- create
    unfoldable pub create : Cmp W String
    create = do
      nodes ← backend_nodes req.backends req.region
      created ← post_vs (virtual_server_spec own_vpc req.vip_port_id req.desired nodes)
      if trim_space created.id != ""
          then pure (trim_space created.id)
          else raise
              (errorf "CMP created virtual server %q without a provider id" (req.desired.name ∷ []))

    -- deleteFailed
    unfoldable pub delete_failed : VirtualServer → Cmp W VsAnswer
    delete_failed vs = do
      unless_missing (wrapf "deleting failed virtual server %s" (vs.id ∷ [])) (delete_vs vs.id)
      raise (
          pending (
            vs_provisioning vs.id "deleting"
              "failed managed virtual server deleted; waiting for CMP deletion before replacement"))

    -- What a listener read from CMP is checked for, and the block that follows where it passes.
    unfoldable pub validated : VirtualServer → Result Done → Cmp W VsAnswer → Cmp W VsAnswer
    validated vs (ok _) next = next
    validated vs (err e) next = elim (is_terminal_provisioning e) [
      | some _ ↦ delete_failed vs
      | none ↦ raise e
    ]

    abbrev validate : VirtualServer → Cmp W VsAnswer → Cmp W VsAnswer
    validate vs next = validated vs (validate_virtual_server vs req.vip_port_id req.desired) next

    -- The loop over the listeners that looks for another owner of the frontend tuple.
    unfoldable pub check_frontend : String → List VirtualServer → Cmp W Done
    check_frontend current_id [] = pure tt
    check_frontend current_id (vs ∷ listeners) =
        let rest = check_frontend current_id listeners in
        if may_conflict current_id req.desired vs
        then (do
          detail ←
              wrapping (wrapf "checking virtual-server frontend conflict %s" (vs.id ∷ []))
                (get_vs vs.id)
          if takes_frontend req.vip_port_id req.desired detail
              then raise (
                  errorf
                    "frontend tuple conflict: VIP %s %s/%d is already used by virtual server %s"
                    (req.vip_port_id
                      ∷ to_upper req.desired.protocol
                      ∷ show req.desired.frontend_port
                      ∷ detail.id
                      ∷ []))
              else rest)
        else rest

    -- Keep the listener where the hashes allow it; otherwise delete it, for a later reconcile to
    -- create it anew.
    unfoldable pub keep_or_replace : String → Bool → Cmp W VsAnswer
    keep_or_replace id adopted =
        let keep = pure (id, req.desired.name, false) in
        let replace = (do
          unless_missing (wrapf "deleting virtual server %s on LB %s" (id ∷ req.lb_service_id ∷ []))
              (delete_vs id)
          raise (
              pending
                (vs_provisioning id "deleting" "waiting for CMP deletion before replacement"))) in
        if req.current_hash != ""
        then (if req.current_hash == req.desired_hash then keep else replace)
        else if not req.recreate_when_hash_missing || adopted
        then keep
        else replace

    readable : String → Result VirtualServer → Result VirtualServer
    readable id (ok vs) = ok vs
    readable id (err e) =
        if is_not_found e
        then err (pending (vs_provisioning id "creating" "accepted by CMP but not yet readable"))
        else err (wrapf "checking created virtual server %s" (id ∷ []) e)

    unfoldable pub create_checked : Cmp W VsAnswer
    unfolding readable
    create_checked = do
      id ← create
      answer ← attempt (get_vs id)
      created ← lift (readable id answer)
      validate created (pure (id, req.desired.name, true))

    unfoldable pub adopt : String → Cmp W VsAnswer
    adopt id = if id == "" then create_checked else do
      candidate ← wrapping (wrapf "checking recovered virtual server %s" (id ∷ [])) (get_vs id)
      validate candidate (keep_or_replace id true)

    unfoldable pub recover : List VirtualServer → Cmp W VsAnswer
    recover listeners =
        if req.recover_by_name
        then (do id ← lift (find_unique_by_name listeners req.desired.name); adopt id)
        else create_checked

    -- The recorded listener, where it is still listed.
    unfoldable pub recorded : String → List VirtualServer → Cmp W VsAnswer
    recorded id listeners =
        if id != "" && is_listed id listeners
        then (do
          detail ← wrapping (wrapf "checking recorded virtual server %s" (id ∷ [])) (get_vs id)
          validate detail (keep_or_replace id false))
        else recover listeners

    -- VirtualServerManager.Ensure
    unfoldable pub ensure : Cmp W VsAnswer
    ensure = do
      listeners ←
          call (client.list_virtual_servers req.lb_service_id)
            (listed_virtual_servers req.lb_service_id)
      check_frontend (trim_space req.current_id) listeners
      recorded (trim_space req.current_id) listeners
