-- ===== src/Deployer/Recorded.antt =====
-- EnsureStack: what a successful run records.
use garden_extension_f5_loca.Prelude.{
  All, Bool, List, String, [], ap, arith, eq_iff, false, refl, some, true, ◌&&◌, ◌||◌, ◌∙◌, ◌∷◌,
  ◌≡◌, ◌≢◌,
}
use garden_extension_f5_loca.Cmp.{MonitorResource, PoolResource}
use garden_extension_f5_loca.Deployer.{
  any_of, ensure_below, ensure_certificates, ensure_children, ensure_listener, ensure_listeners,
  ensure_pool, ensure_pools, ensure_rules, ensure_stack, listener_request, remove_obsolete,
}
use garden_extension_f5_loca.Dict.{contains, insert, lookup, lookup-insert}
use garden_extension_f5_loca.Exec.{ok}
use garden_extension_f5_loca.Exec.Ensures.{
  All-any, Ensures, Ensures-any, Ensures-bind, Ensures-free, Ensures-if, Ensures-imp,
  Ensures-of_reply, Ensures-pure, Ensures-reply, Ensures-via, if_given-Ensures,
}
use garden_extension_f5_loca.Listeners.{
  Place, Progress, observe, record_listener, record_monitor, record_pool,
}
use garden_extension_f5_loca.Model.{LoadBalancerStack, Pool, VirtualServer}
use garden_extension_f5_loca.Observed.{Bucket, ObservedGraph, ObservedResource, ObservedState}
use garden_extension_f5_loca.Obsolete.{desired_listeners, drop_migrated_legacy_aliases}
use garden_extension_f5_loca.Obsolete.Aliases.{lookup-drop_alias}
use garden_extension_f5_loca.Obsolete.ListenerCalls.{delete_obsolete_virtual_servers-sweep, sweep}
use garden_extension_f5_loca.Obsolete.PoolCalls.{delete_obsolete_pools-Within}
use garden_extension_f5_loca.Obsolete.Swept.{sweep-wanted}
use garden_extension_f5_loca.Placement.{Deployer, StackEnsureRequest, StackRun, provider}
use garden_extension_f5_loca.Stacks.{desired_virtual_server_hash, stack_backends}
use garden_extension_f5_loca.Text.{equal_fold}
use garden_extension_f5_loca.VirtualServers.{VsAnswer}
use garden_extension_f5_loca.VirtualServers.Answers.{ensure-Stands}

-- The bucket records the listener under its name, with an id, the hash of what is desired and its owner.
abbrev pub Holds : (String → String) → LoadBalancerStack → Bucket → VirtualServer → Type 0
Holds sha256_hex stack bucket vs =
    (r : ObservedResource) × (lookup vs.name bucket ≡ some r)
    × (r.external_id ≢ "")
    × (r.desired_hash ≡ desired_virtual_server_hash sha256_hex vs (stack_backends stack vs))
    × (r.ownership ≡ vs.ownership)

-- No two listeners have one name.
abbrev pub IsDistinct : List VirtualServer → Type 0
IsDistinct [] = Unit
IsDistinct (vs ∷ vss) = (contains vs.name (desired_listeners vss) ≡ false) × IsDistinct vss

record_listener-virtual_servers :
    (stack : LoadBalancerStack) (vs : VirtualServer) (id name hash : String) (s : ObservedState)
    → (record_listener stack vs id name hash s).graph.virtual_servers
      ≡ insert vs.name (observe vs.name id name "" hash vs.ownership) s.graph.virtual_servers
unfolding record_listener
record_listener-virtual_servers stack vs id name hash s = ground arith

lookup_self : (k : String) (r : ObservedResource) (b : Bucket) → lookup k (insert k r b) ≡ some r
lookup_self k r b = ground (arith, lookup-insert k k r b, eq_iff k k)

lookup-other :
    (k j : String) (r : ObservedResource) (b : Bucket)
    → k ≢ j
    → lookup j (insert k r b) ≡ lookup j b
lookup-other k j r b n = ground (arith, lookup-insert k j r b, eq_iff k j)

module _ {W : Type 0} (d : Deployer W) (req : StackEnsureRequest W) where
  -- A step after which the graph records these listeners.
  abbrev Listens : Bucket → StackRun W Progress → Type 0
  Listens b m = Ensures (λ e. Unit) (λ (t : Progress). t.0.graph.virtual_servers ≡ b) m

  abbrev PoolsListen : Bucket → StackRun W (Progress × List (String × String)) → Type 0
  PoolsListen b m =
      Ensures (λ e. Unit)
        (λ (t : Progress × List (String × String)). t.0.0.graph.virtual_servers ≡ b) m

  record_monitor-same :
      (vs : VirtualServer) (pool : Pool) (m : MonitorResource) (g : ObservedGraph)
      → (record_monitor vs pool m g).virtual_servers ≡ g.virtual_servers
  record_monitor-same vs pool m g = ground arith

  record_pool-same :
      (vs : VirtualServer) (pool : Pool) (r : PoolResource) (g : ObservedGraph)
      → (record_pool vs pool r g).virtual_servers ≡ g.virtual_servers
  unfolding record_pool
  record_pool-same vs pool r g = refl

  ensure_pool-Listens :
      (place : Place) (vs : VirtualServer) (vs_id : String) (pool : Pool)
      (s : Progress × List (String × String))
      → PoolsListen s.0.0.graph.virtual_servers (ensure_pool d req place vs vs_id pool s)
  unfolding ensure_pool
  ensure_pool-Listens place vs vs_id pool ((o, changed), ids) =
      Ensures-bind _ _ (Ensures-any _) λ specs _.
        Ensures-bind _ _ (Ensures-any _) λ (resource, pool_changed) _.
          let g = record_pool vs pool resource o.graph in
          let same = record_pool-same vs pool resource o.graph in
          Ensures-bind
            {Q = λ (h : ObservedGraph × Bool). h.0.virtual_servers ≡ o.graph.virtual_servers} _ _
            (if_given-Ensures d.clients.monitors _ _ (Ensures-pure (g, false) same) λ client.
              Ensures-bind _ _ (Ensures-any _) λ (monitor, touched) _.
                Ensures-pure (record_monitor vs pool monitor g, touched)
                  (record_monitor-same vs pool monitor g ∙ same))
            λ (h, monitor_changed) q. Ensures-pure _ q

  ensure_pools-Listens :
      (place : Place) (vs : VirtualServer) (vs_id : String) (pools : List Pool)
      (s : Progress × List (String × String))
      → PoolsListen s.0.0.graph.virtual_servers (ensure_pools d req place vs vs_id pools s)
  unfolding ensure_pools
  ensure_pools-Listens place vs vs_id [] s = Ensures-pure s refl
  ensure_pools-Listens place vs vs_id (pool ∷ pools) s =
      Ensures-bind _ _ (ensure_pool-Listens place vs vs_id pool s)
        λ t q. Ensures-imp _ (λ u e. e ∙ q) (ensure_pools-Listens place vs vs_id pools t)

  ensure_rules-Listens :
      (place : Place) (vs : VirtualServer) (vs_id : String) (ids : List (String × String))
      (s : Progress)
      → Listens s.0.graph.virtual_servers (ensure_rules d req place vs vs_id ids s)
  unfolding ensure_rules
  ensure_rules-Listens place vs vs_id ids (o, changed) =
      if_given-Ensures d.clients.routing_rules _ _ (Ensures-pure (o, changed) refl) λ client.
        Ensures-bind _ _ (Ensures-any _)
          λ desired _. Ensures-bind _ _ (Ensures-any _) λ (rules, touched) _. Ensures-pure _ refl

  ensure_certificates-Listens :
      (place : Place) (vs : VirtualServer) (vs_id : String) (s : Progress)
      → Listens s.0.graph.virtual_servers (ensure_certificates d req place vs vs_id s)
  unfolding ensure_certificates
  ensure_certificates-Listens place vs vs_id (o, changed) =
      Ensures-if (any_of req.stack.certificates && equal_fold vs.protocol "HTTPS") _ _
        (λ e. Ensures-bind _ _ (Ensures-any _) λ (resources, touched) _. Ensures-pure _ refl)
        (λ e. Ensures-pure _ refl)

  ensure_children-Listens :
      (place : Place) (vs : VirtualServer) (vs_id : String) (s : Progress)
      → Listens s.0.graph.virtual_servers (ensure_children d req place vs vs_id s)
  unfolding ensure_children
  ensure_children-Listens place vs vs_id s =
      Ensures-if req.aggregate _ _ (λ e. Ensures-pure s refl)
        λ e.
          Ensures-bind _ _ (ensure_pools-Listens place vs vs_id _ (s, []))
            λ (t, ids) q. Ensures-imp _ (λ u r. r ∙ q) (ensure_rules-Listens place vs vs_id ids t)

  -- What stands in the graph after the round of a listener.
  abbrev Adds : VirtualServer → Bucket → Progress → Type 0
  Adds vs b t =
      (r : ObservedResource) × (t.0.graph.virtual_servers ≡ insert vs.name r b)
      × (r.external_id ≢ "")
      × (r.desired_hash ≡ desired_virtual_server_hash d.sha256_hex vs (stack_backends req.stack vs))
      × (r.ownership ≡ vs.ownership)

  ensure_listener-Adds :
      (place : Place) (vs : VirtualServer) (s : Progress)
      → Ensures (λ e. Unit) (Adds vs s.0.graph.virtual_servers) (ensure_listener d req place vs s)
  unfolding ensure_listener
  ensure_listener-Adds place vs (o, changed) =
      let r = listener_request d req place vs o in
      Ensures-bind _ _ (Ensures-any _) λ u _.
        Ensures-bind {Q = λ (a : VsAnswer). a.0 ≢ ""} _ _
          (Ensures-via provider _ (
            Ensures-of_reply _ (λ w a h. (ensure-Stands d.clients.client d.own_vpc r w a h).0)
              (record { at = λ w. All-any _ })))
          λ (id, name, touched) n.
            let recorded = record_listener req.stack vs id name r.desired_hash o in
            Ensures-bind _ _
              (ensure_certificates-Listens place vs id (recorded, changed || touched))
              λ t q.
                Ensures-imp _
                  (λ u e. (
                    observe vs.name id name "" r.desired_hash vs.ownership,
                    e ∙ q ∙ record_listener-virtual_servers req.stack vs id name r.desired_hash o,
                    n,
                    refl,
                    refl,
                  ))
                  (ensure_children-Listens place vs id t)

  -- After the loop: the listeners are recorded, and other names as before.
  abbrev Added : List VirtualServer → Bucket → Progress → Type 0
  Added vss b t =
      All (Holds d.sha256_hex req.stack t.0.graph.virtual_servers) vss
      × ((k : String)
          → contains k (desired_listeners vss) ≡ false
          → lookup k t.0.graph.virtual_servers ≡ lookup k b)

  ensure_listeners-Added :
      (place : Place) (vss : List VirtualServer) (s : Progress)
      → IsDistinct vss
      → Ensures
          (λ e. Unit)
          (Added vss s.0.graph.virtual_servers)
          (ensure_listeners d req place vss s)
  unfolding ensure_listeners contains desired_listeners
  ensure_listeners-Added place [] s i = Ensures-pure s (tt, λ k c. refl)
  ensure_listeners-Added place (vs ∷ vss) s i =
      Ensures-bind _ _ (ensure_listener-Adds place vs s) λ t (r, q, n, h, o).
        Ensures-imp _
          (λ u (rest, others). (
            (
              (r, others vs.name i.0 ∙ ap (lookup vs.name) q ∙ lookup_self vs.name r _, n, h, o),
              rest,
            ),
            λ k c.
                others k (ground arith)
                ∙ ap (lookup k) q
                ∙ lookup-other vs.name k r _ (ground (arith, eq_iff vs.name k)),
          ))
          (ensure_listeners-Added place vss t i.1)

  -- A desired name keeps its record when what is obsolete goes.
  abbrev Keeps : Bucket → Progress → Type 0
  Keeps b t =
      (k : String)
      → "legacy/virtual-server" ≢ k
      → contains k (desired_listeners req.stack.virtual_servers) ≡ true
      → lookup k t.0.graph.virtual_servers ≡ lookup k b

  remove_obsolete-Keeps :
      (lb : String) (s : Progress)
      → Ensures (λ e. Unit) (Keeps s.0.graph.virtual_servers) (remove_obsolete d req lb s)
  unfolding remove_obsolete drop_migrated_legacy_aliases
  remove_obsolete-Keeps lb (o, changed) =
      let g = drop_migrated_legacy_aliases o.graph in
      let desired = desired_listeners req.stack.virtual_servers in
      Ensures-bind {Q = λ (t : ObservedGraph × Bool). t.0.virtual_servers ≡ g.virtual_servers} _ _
        (Ensures-if req.aggregate _ _ (λ e. Ensures-pure (g, changed) refl)
          (λ e. Ensures-via provider _ (
            Ensures-free _ (λ t i. i.virtual_servers)
              (delete_obsolete_pools-Within d.clients lb req.stack (g, changed)))))
        λ t q.
          Ensures-bind
            {Q = λ (u : ObservedGraph × Bool).
              u.0.virtual_servers ≡ sweep desired t.0.virtual_servers t.0.virtual_servers}
            _ _
            (Ensures-via provider _ (
              Ensures-free _ (λ u i. i.virtual_servers)
                (delete_obsolete_virtual_servers-sweep d.clients lb req.stack t)))
            λ (h, touched) i. Ensures-pure _ λ k n c.
              ap (lookup k) i
              ∙ sweep-wanted desired k t.0.virtual_servers t.0.virtual_servers c
              ∙ ap (lookup k) q
              ∙ lookup-drop_alias "legacy/virtual-server" k o.graph.virtual_servers n

  -- Every listener of the list is desired, so that its record stays.
  keep-Holds :
      (vss : List VirtualServer) (b c : Bucket)
      → ((k : String)
          → "legacy/virtual-server" ≢ k
          → contains k (desired_listeners vss) ≡ true
          → lookup k c ≡ lookup k b)
      → contains "legacy/virtual-server" (desired_listeners vss) ≡ false
      → All (Holds d.sha256_hex req.stack b) vss
      → All (Holds d.sha256_hex req.stack c) vss
  unfolding contains desired_listeners
  keep-Holds [] b c h n a = tt
  keep-Holds (vs ∷ vss) b c h n ((r, q, set, hash, owner), a) = (
    (
      r,
      h vs.name (ground (arith, eq_iff vs.name "legacy/virtual-server"))
            (ground (arith, eq_iff vs.name vs.name))
          ∙ q,
      set,
      hash,
      owner,
    ),
    keep-Holds vss b c (λ k m i. h k m (ground arith)) (ground arith) a,
  )

  abbrev Recorded : Progress → Type 0
  Recorded t =
      All (Holds d.sha256_hex req.stack t.0.graph.virtual_servers) req.stack.virtual_servers

  ensure_below-Recorded :
      (network_id : String) (s : Progress)
      → IsDistinct req.stack.virtual_servers
      → contains "legacy/virtual-server" (desired_listeners req.stack.virtual_servers) ≡ false
      → Ensures (λ e. Unit) Recorded (ensure_below d req network_id s)
  unfolding ensure_below
  ensure_below-Recorded network_id (o, lb_changed) i n =
      let vss = req.stack.virtual_servers in
      Ensures-bind _ _ (Ensures-any _) λ recovered _.
        Ensures-bind _ _ (Ensures-any _) λ (placed, vip_changed) _.
          Ensures-bind _ _ (ensure_listeners-Added _ vss (placed, lb_changed || vip_changed) i)
            λ t (all, others).
              Ensures-imp _ (λ u k. keep-Holds vss _ _ k n all)
                (remove_obsolete-Keeps o.lb_service_id t)

-- After a successful EnsureStack the graph records every listener of the stack under its name, with an id, the hash
-- of its desired state and its owner. The
-- names of the listeners must differ, and none may be that of the legacy alias.
pub ensure_stack-Recorded :
    {W : Type 0} (d : Deployer W) (req : StackEnsureRequest W) (w : W) (s : ObservedState)
    (changed : Bool)
    → IsDistinct req.stack.virtual_servers
    → contains "legacy/virtual-server" (desired_listeners req.stack.virtual_servers) ≡ false
    → (ensure_stack d req w).reply ≡ ok (s, changed)
    → All (Holds d.sha256_hex req.stack s.graph.virtual_servers) req.stack.virtual_servers
unfolding ensure_stack
ensure_stack-Recorded d req w s changed i n h =
    Ensures-reply {P = λ e. Unit} {Q = Recorded d req} _ w (s, changed)
      (Ensures-bind _ _ (Ensures-any _) λ u _. Ensures-bind _ _ (Ensures-any _) λ network_id _.
        Ensures-bind _ _ (Ensures-any _) λ t _. ensure_below-Recorded d req network_id t i n)
      h
