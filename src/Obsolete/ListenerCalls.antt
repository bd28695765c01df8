-- ===== src/Obsolete/ListenerCalls.antt =====
-- deleteObsoleteVirtualServers: the calls that it makes.
use garden_extension_f5_loca.RoutingRules
use garden_extension_f5_loca.Prelude.{
  List, String, arith, eq_iff, false, int_eq, nat_eq, refl, string_eq, ◌!=◌, ◌==◌, ◌||◌, ◌≡◌, ◌≢◌,
}
use mathlib.Core.Path.{subst}
use garden_extension_f5_loca.Prelude.{
  All, Bool, Bool-cases, [], if◌then◌else◌, inl, inr, sym, true, ◌∷◌,
}
use garden_extension_f5_loca.Cleanup.{Clients}
use garden_extension_f5_loca.Cmp.{
  Cmp, Event, deleted_monitor, deleted_pool, deleted_pool_member, deleted_routing_rule,
  deleted_virtual_server,
}
use garden_extension_f5_loca.Dict.{contains, delete}
use garden_extension_f5_loca.Exec.{Done, Result}
use garden_extension_f5_loca.Exec.Ensures.{
  Ensures, Ensures-Emits, Ensures-bind, Ensures-if, Ensures-pure, with_manager-Ensures,
}
use garden_extension_f5_loca.Exec.Rules.{Emits-call, Emits-if, Emits-pure}
use garden_extension_f5_loca.Model.{LoadBalancerStack}
use garden_extension_f5_loca.Observed.{Bucket, ObservedGraph, ObservedResource}
use garden_extension_f5_loca.Obsolete.{
  delete_obsolete_virtual_servers, desired_listeners, each_entry, obsolete_listener,
  remove_listener, remove_listener_pool, remove_listener_rule, remove_obsolete_listener,
}
use garden_extension_f5_loca.Obsolete.Within.{
  IsEntry, IsSub, Keeps, Within, Within-refl, drop_listener, drop_routing_rules, each_of-Keeps,
  remove_pool-Keeps,
}
use garden_extension_f5_loca.Stacks.{graph_pool_key, graph_virtual_server_name}
use garden_extension_f5_loca.Text.{trim_space}

-- The listeners that are left when the undesired ones of a snapshot go.
abbrev pub sweep_one : List String → String → ObservedResource → Bucket → Bucket
sweep_one desired name r listeners =
    if contains name desired || r.external_id == "" then listeners else delete name listeners

unfoldable pub sweep : List String → Bucket → Bucket → Bucket
sweep desired [] listeners = listeners
sweep desired ((name, r) ∷ b) listeners = sweep desired b (sweep_one desired name r listeners)

module _ {W : Type 0} (d : Clients W) (lb : String) (all : ObservedGraph)
    (desired : List String) where
  -- A listener of the graph that is not desired, by its name and its id.
  abbrev pub IsObsolete : String → String → Type 0
  IsObsolete name id =
      (r : ObservedResource) × IsEntry name r all.virtual_servers
      × (contains name desired ≡ false)
      × (r.external_id ≢ "")
      × (id ≡ r.external_id)

  -- A call of deleteObsoleteVirtualServers: the deletion of such a listener, or of what the graph records below
  -- its name.
  abbrev pub RemovesListeners : Event → Type 0
  RemovesListeners (deleted_virtual_server on id _) =
      (name : String) × IsObsolete name id × (on ≡ lb)
  RemovesListeners (deleted_routing_rule on vs id _) =
      (name : String) × IsObsolete name vs
      × (on ≡ lb)
      × ((k : String) × (r : ObservedResource) × IsEntry k r all.routing_rules
          × (graph_virtual_server_name k ≡ name)
          × (id ≡ r.external_id))
  RemovesListeners (deleted_pool on vs id _) =
      (name : String) × (v : String) × IsObsolete name v
      × (on ≡ trim_space lb)
      × (vs ≡ trim_space v)
      × ((k : String) × (r : ObservedResource) × IsEntry k r all.pools
          × (graph_virtual_server_name k ≡ name)
          × (id ≡ trim_space r.external_id))
  RemovesListeners (deleted_pool_member on vs pool id _) =
      (name : String) × IsObsolete name vs
      × (on ≡ lb)
      × ((k : String) × (r : ObservedResource) × IsEntry k r all.pools
          × (graph_virtual_server_name k ≡ name)
          × (pool ≡ r.external_id)
          × ((m : String) × (s : ObservedResource) × IsEntry m s all.members
              × (graph_pool_key m ≡ k)
              × (id ≡ s.external_id)))
  RemovesListeners (deleted_monitor on vs pool id _) =
      (name : String) × IsObsolete name vs
      × (on ≡ lb)
      × ((k : String) × (r : ObservedResource) × IsEntry k r all.pools
          × (graph_virtual_server_name k ≡ name)
          × (pool ≡ r.external_id)
          × ((s : ObservedResource) × IsEntry k s all.monitors × (id ≡ s.external_id)))
  RemovesListeners _ = ⊥

  abbrev P : Event → Type 0
  P = RemovesListeners

  module _ (name vs : String) (o : IsObsolete name vs) (listeners : Bucket) where
    abbrev Inv : ObservedGraph → Type 0
    Inv g = Within all listeners g

    remove_listener_rule-Keeps :
        (k : String) (r : ObservedResource)
        → IsEntry k r all.routing_rules
        → Keeps P Inv (remove_listener_rule d lb name vs k r)
    unfolding remove_listener_rule RoutingRules.cleanup
    remove_listener_rule-Keeps k r e (g, c) i =
        Ensures-if (graph_virtual_server_name k != name) _ _ (λ q. Ensures-pure (g, c) i)
          λ q.
            let below : graph_virtual_server_name k ≡ name =
              ground (arith, eq_iff (graph_virtual_server_name k) name) in
            let allowed : (x : Result Done) → P (deleted_routing_rule lb vs r.external_id x) =
              λ x. (name, o, refl, (k, r, e, below, refl)) in
            with_manager-Ensures _ d.routing_rules _ λ client.
              Ensures-bind _ _
                (Ensures-Emits _ (
                  Emits-if
                    (trim_space lb == "" || (trim_space vs == "" || trim_space r.external_id == ""))
                    _ _ (λ n. Emits-pure tt)
                    (λ n. Emits-call _ (deleted_routing_rule lb vs r.external_id) allowed)))
                λ u _. Ensures-pure _ (drop_routing_rules k all listeners g i)

    remove_listener_pool-Keeps :
        (k : String) (r : ObservedResource)
        → IsEntry k r all.pools
        → Keeps P Inv (remove_listener_pool d lb name vs k r)
    unfolding remove_listener_pool
    remove_listener_pool-Keeps k r e (g, c) i =
        Ensures-if (graph_virtual_server_name k != name) _ _ (λ q. Ensures-pure (g, c) i)
          λ q.
            let below : graph_virtual_server_name k ≡ name =
              ground (arith, eq_iff (graph_virtual_server_name k) name) in
            with_manager-Ensures _ d.pools _ λ pools.
              remove_pool-Keeps d lb all listeners P obsolete_listener pools vs k r.external_id
                (λ m s x h p. (name, o, refl, (k, r, e, below, refl, (m, s, h, p, refl))))
                (λ s x h. (name, o, refl, (k, r, e, below, refl, (s, h, refl))))
                (λ x. (name, vs, o, refl, refl, (k, r, e, below, refl))) (g, c) i

  -- A step after which the listeners of the graph are these.
  abbrev Leaves : Bucket → Cmp W (ObservedGraph × Bool) → Type 0
  Leaves listeners m = Ensures P (λ (t : ObservedGraph × Bool). Within all listeners t.0) m

  remove_listener-Leaves :
      (name vs : String) (s : ObservedGraph × Bool)
      → IsObsolete name vs
      → Within all s.0.virtual_servers s.0
      → Leaves (delete name s.0.virtual_servers) (remove_listener d lb name vs s)
  unfolding remove_listener
  remove_listener-Leaves name vs s o i =
      let listeners = s.0.virtual_servers in
      Ensures-bind _ _
        (each_of-Keeps P (Inv name vs o listeners) _ s.0.routing_rules all.routing_rules
          i.routing_rules (remove_listener_rule-Keeps name vs o listeners) s i)
        λ t j.
          Ensures-bind _ _
            (each_of-Keeps P (Inv name vs o listeners) _ t.0.pools all.pools j.pools
              (remove_listener_pool-Keeps name vs o listeners) (t.0, t.1) j)
            λ u k.
              Ensures-bind _ _
                (Ensures-Emits _ (Emits-call _ (deleted_virtual_server lb vs) λ x. (name, o, refl)))
                λ v _.
                  let h = u.0 in
                  let left : ObservedGraph = record h {
                    virtual_servers = delete name h.virtual_servers;
                  } in
                  Ensures-pure (left, true)
                    (subst (λ b. Within all (delete name b) left) k.virtual_servers
                      (drop_listener name all listeners h k))

  remove_obsolete_listener-Leaves :
      (name : String) (r : ObservedResource) (s : ObservedGraph × Bool)
      → IsEntry name r all.virtual_servers
      → Within all s.0.virtual_servers s.0
      → Leaves
          (sweep_one desired name r s.0.virtual_servers)
          (remove_obsolete_listener d lb desired name r s)
  unfolding remove_obsolete_listener
  remove_obsolete_listener-Leaves name r s e i =
      elim (Bool-cases (contains name desired || r.external_id == "")) [
        | inl q ↦ rw q (Ensures-pure s i)
        | inr q ↦ rw q (
            remove_listener-Leaves name r.external_id s
              (r, e, ground arith, ground (arith, eq_iff r.external_id ""), refl) i)
      ]

  pub each-Leaves :
      (b : Bucket) (s : ObservedGraph × Bool)
      → IsSub b all.virtual_servers
      → Within all s.0.virtual_servers s.0
      → Leaves
          (sweep desired b s.0.virtual_servers)
          (each_entry (remove_obsolete_listener d lb desired) b s)
  unfolding each_entry sweep
  each-Leaves [] s h i = Ensures-pure s i
  each-Leaves ((name, r) ∷ b) s h i =
      Ensures-bind _ _ (remove_obsolete_listener-Leaves name r s (h name r (inl (refl, refl))) i)
        λ t j.
          subst
            (λ x.
              Leaves (sweep desired b x) (each_entry (remove_obsolete_listener d lb desired) b t))
            j.virtual_servers
            (each-Leaves b t (λ k x e. h k x (inr e))
              (subst (λ x. Within all x t.0) (sym j.virtual_servers) j))

-- Whatever CMP answers, deleteObsoleteVirtualServers makes no call but deletions, and deletes only virtual servers
-- that the graph records with an id under a name that the stack does not want, and rules, pools, members and monitors that
-- the graph records below such a name, on that virtual server.
pub delete_obsolete_virtual_servers-RemovesListeners :
    {W : Type 0} (d : Clients W) (lb : String) (stack : LoadBalancerStack) (g : ObservedGraph)
    (changed : Bool) (w : W)
    → All
        (RemovesListeners d lb g (desired_listeners stack.virtual_servers))
        (delete_obsolete_virtual_servers d lb stack (g, changed) w).trace
unfolding delete_obsolete_virtual_servers
delete_obsolete_virtual_servers-RemovesListeners d lb stack g changed w =
    let desired = desired_listeners stack.virtual_servers in
    ((each-Leaves d lb g desired g.virtual_servers (g, changed) (λ k r e. e) (Within-refl g)).at
      w).0

-- What is left of the listeners after a successful run: those of the names that the stack wants.
pub delete_obsolete_virtual_servers-sweep :
    {W : Type 0} (d : Clients W) (lb : String) (stack : LoadBalancerStack)
    (s : ObservedGraph × Bool)
    → Ensures
        (RemovesListeners d lb s.0 (desired_listeners stack.virtual_servers))
        (λ (t : ObservedGraph × Bool).
          Within s.0
            (sweep
              (desired_listeners stack.virtual_servers)
              s.0.virtual_servers
              s.0.virtual_servers)
            t.0)
        (delete_obsolete_virtual_servers d lb stack s)
unfolding delete_obsolete_virtual_servers
delete_obsolete_virtual_servers-sweep d lb stack s =
    each-Leaves d lb s.0 (desired_listeners stack.virtual_servers) s.0.virtual_servers s
      (λ k r e. e) (Within-refl s.0)
