-- ===== src/Single.antt =====
-- pkg/deploy/lbaas/deployer.go, Deployer.Ensure: the reconcile of one listener with its LB service and VIP,
-- and of no pools or rules.
use garden_extension_f5_loca.VirtualServers
use garden_extension_f5_loca.LbServices
use garden_extension_f5_loca.Vips
use Prim.Native.String.{◌++◌}
use garden_extension_f5_loca.Prelude.{Bool, List, String, ◌||◌}
use garden_extension_f5_loca.Cmp.{Cmp}
use garden_extension_f5_loca.Dict.{insert}
use garden_extension_f5_loca.Exec.{pure, ◌>>=◌}
use garden_extension_f5_loca.Listeners.{observe}
use garden_extension_f5_loca.Model.{BackendMember, Ownership, VirtualServer}
use garden_extension_f5_loca.Observed.{ObservedState, ensure_graph}
use garden_extension_f5_loca.Placement.{Deployer}
use garden_extension_f5_loca.Stacks.{desired_backend_hash}

-- EnsureRequest
record SingleRequest : Type 0 where
  lb : LbServices.EnsureRequest
  virtual_server : VirtualServer
  backends : List BackendMember
  current : ObservedState
  current_hash : String
  recreate_when_hash_missing : Bool
  strict_lb_service_id : Bool
  strict_vip_port_id : Bool
  recover_virtual_server_by_name : Bool

-- EnsureResult
record EnsureResult : Type 0 where
  observed : ObservedState
  backend_hash : String
  changed : Bool

module _ {W : Type 0} (d : Deployer W) (req : SingleRequest) where
  abbrev listener_owner : Ownership
  listener_owner = req.virtual_server.ownership

  unfoldable record_service : String → ObservedState → ObservedState
  record_service id s =
      let g = s.graph in
      let name = req.lb.lb_name in
      record s {
        lb_service_id = id;
        graph = record g {
          lb_services = insert name (observe name id name "" "" listener_owner) g.lb_services;
        };
      }

  unfoldable record_address : String → String → ObservedState → ObservedState
  record_address id address s =
      let g = s.graph in
      let key = "vip/" ++ id in
      record s {
        vip_port_id = id;
        vip_address = address;
        graph = record g { vips = insert key (observe key id "" address "" listener_owner) g.vips };
      }

  unfoldable record_single : String → String → ObservedState → ObservedState
  record_single id name s =
      let g = s.graph in
      let key = req.virtual_server.name in
      record s {
        virtual_server_id = id;
        virtual_server_name = name;
        graph = record g {
          virtual_servers = insert key (observe key id name "" "" listener_owner) g.virtual_servers;
        };
      }

  abbrev single_request : String → ObservedState → VirtualServers.EnsureRequest
  single_request backend_hash s = record {
    lb_service_id = s.lb_service_id;
    vip_port_id = s.vip_port_id;
    network_id = req.lb.network_id;
    region = req.lb.region;
    desired = req.virtual_server;
    backends = req.backends;
    current_id = s.virtual_server_id;
    current_hash = req.current_hash;
    desired_hash = backend_hash;
    recreate_when_hash_missing = req.recreate_when_hash_missing;
    recover_by_name = req.recover_virtual_server_by_name;
  }

  -- Deployer.Ensure
  unfoldable ensure_single : Cmp W EnsureResult
  ensure_single = do
    let client = d.clients.client
    let vs = req.virtual_server
    let start = ensure_graph req.current
    let hash = desired_backend_hash d.sha256_hex vs.frontend_port vs.backend_node_port req.backends
    (lb_id, lb_changed) ←
        LbServices.ensure client d.own_vpc req.lb start.lb_service_id req.strict_lb_service_id
    let s = record_service lb_id start
    (vip_id, address, vip_changed) ←
        Vips.ensure client s.lb_service_id req.lb.network_id s.vip_port_id s.vip_address
          req.strict_vip_port_id
    let t = record_address vip_id address s
    (id, name, vs_changed) ← VirtualServers.ensure client d.own_vpc (single_request hash t)
    pure (record {
      observed = record_single id name t;
      backend_hash = hash;
      changed = (lb_changed || vip_changed) || vs_changed;
    })
