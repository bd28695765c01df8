-- ===== src/Lib.antt =====
-- A model of how this extension reconciles load balancers at the CMP service.
--
-- For each Kubernetes Service or Ingress the extension keeps a stack of provider resources: an LB
-- service, a VIP, virtual servers (listeners), pools, their members and monitors, and routing rules. One
-- manager for each kind compares what is recorded and what CMP lists with what is desired, and creates,
-- updates, deletes or refuses. The managers of pkg/deploy/lbaas are the core of the program: they decide
-- what belongs to the stack. The stack deployer calls them in turn, and the cleanup deletes what the
-- observed graph recorded.
--
-- Files and what they model:
--   Prelude     tests on numbers and texts, Go's int32 and int as ℤ, list predicates
--   Text        Go's strings package as far as it is used: TrimSpace, ToLower, EqualFold, Join, Cut, %d
--   Dict        Go's maps with text keys, as lists of entries; sets of texts;
--               Dict/Unwanted is on sweeps over an index of which the last of each key counts
--   Exec        a run: the answer or error, the provider's next state, the trace of calls; errors and
--               their tests (pkg/deploy/lbaas/types.go, pkg/f5/client.go); Exec/Rules reasons on runs
--   Model       pkg/model/model.go and ownership.go, the desired resources
--   Observed    pkg/model/model.go, the observed graph and EnsureGraph
--   Cmp         pkg/deploy/lbaas/types.go and the client interfaces, the provider's answers and calls
--   LbServices  pkg/deploy/lbaas/lb_service_manager.go
--   Vips        pkg/deploy/lbaas/vip_manager.go
--   RoutingRules  pkg/deploy/lbaas/routing_rule_manager.go
--   Members     pkg/deploy/lbaas/backend_member_manager.go
--   Pools       pkg/deploy/lbaas/pool_manager.go, which calls Members
--   Monitors    pkg/deploy/lbaas/monitor_manager.go
--   VirtualServers  pkg/deploy/lbaas/virtual_server_manager.go
--   Certificates  pkg/deploy/lbaas/certificate_manager.go, with a client and events of its own
--   Cleanup     pkg/deploy/lbaas/cleanup.go, which calls the cleanups of the managers
--   Stacks      pkg/deploy/lbaas/deployer.go: hashes of the desired state, keys of the graph, the stack's pools
--   Obsolete    deployer.go: the removal of migrated aliases, of obsolete pools and of obsolete listeners
--   Recovery    deployer.go: recoverVirtualServersByName
--   Placement   deployer.go: the deployer, its request, the checks before the first resource
--   Listeners   deployer.go: what the loop over the listeners reads from the graph and records in it
--   Deployer    deployer.go: EnsureStack, which calls the managers and the files above in their order
--   Single      deployer.go: Ensure, the reconcile of one listener
--   Annotations  pkg/annotations/lb.go
--   Nodes       pkg/backend/nodes.go
--   Ingress, Groups  pkg/ingress/validation.go and group.go
--   Names, Services  pkg/service/builder.go and protocol.go, the stack of a Service, which Deployer takes
--   Tests       concrete services, and each result at a concrete input
--
-- How the code is read:
--   - CMP is not modelled. It is a parameter, a record of functions (Client, PoolClient, MonitorClient,
--     RoutingRuleClient, CertificateClient, NetworkClient) that answer from a state of any type. A
--     result that holds for every client holds whatever CMP answers, errors and changing listings
--     included. Where a result relies on an answer, the hypothesis has a name (Echoes, KeepsId).
--   - The digest of crypto/sha256 in hexadecimal, the Kubernetes client's lists of nodes and EndpointSlices
--     and the caller's LBReadyHook are parameters as well; no result assumes anything of the digest.
--   - EnsureStack updates the maps of the request's graph in place. The model passes the state on from
--     step to step; the hook's call carries the state as it is then.
--   - A Go method is a run: from the provider's state to the reply, the next state and the list of calls
--     made, each with its answer. `if err != nil { return ... }` is the bind of a do block; a block that
--     inspects `err` binds the attempt. The context argument is left out.
--   - Values that Go returns beside an error are dropped: no caller reads them.
--   - Errors keep their format and arguments, what they wrap, and the two provisioning errors and the
--     HTTP status, which the code tests for. An error's own text inside another (%v) is left out.
--   - Texts are native strings; letters beyond ASCII are taken as having no case.
--   - int32 and int are integers. The managers only compare and print them, so no bound is needed; the
--     annotations convert numbers to int32, and there the wrap-around is written out (to_int32).
--   - Go ranges over a map in any order. The model takes the order in which keys were first set, except
--     where the code sorts the keys.
--   - find and index loops are recursion on the list; the decimal printer recurses on fuel n + 1, which
--     is enough since each step divides by ten.
--
-- Not modelled: the constructors of the deployer and its managers, which fill fields and trim the VPC id; the decoding
-- of JSON (pkg/deploy/lbaas/raw_adapter.go); HTTP (pkg/f5/client.go, pkg/cmp/lbaas/client.go); the other
-- files of pkg/ingress, which build the stack of a group; network policies, statuses and finalizers
-- (pkg/networkpolicy, pkg/status, pkg/finalizers); the controllers (pkg/controller, cmd) and the
-- declarations of pkg/apis.
pub mod Prelude
pub mod Text
pub mod Dict
pub mod Exec
pub mod Model
pub mod Cmp
pub mod LbServices
pub mod Vips
pub mod RoutingRules
pub mod Members
pub mod Pools
pub mod Monitors
pub mod VirtualServers
pub mod Observed
pub mod Stacks
pub mod Obsolete
pub mod Recovery
pub mod Placement
pub mod Listeners
pub mod Deployer
pub mod Single
pub mod Annotations
pub mod Names
pub mod Groups
pub mod Ingress
pub mod Nodes
pub mod Services
pub mod Cleanup
pub mod Certificates
pub mod Tests
