-- ===== src/Obsolete/PoolCalls.antt =====
-- deleteObsoletePools: the calls that it makes.
use garden_extension_f5_loca.Prelude.{
  All, Bool, List, String, ap, arith, eq_iff, false, int_eq, nat_eq, refl, string_eq, ◌==◌, ◌||◌,
  ◌≡◌, ◌≢◌,
}
use garden_extension_f5_loca.Cleanup.{Clients, external_id_of, virtual_server_id_for_graph_key}
use garden_extension_f5_loca.Cmp.{Event, deleted_monitor, deleted_pool, deleted_pool_member}
use garden_extension_f5_loca.Dict.{contains}
use garden_extension_f5_loca.Exec.Ensures.{
  Ensures, Ensures-if, Ensures-pure, Ensures-raise, with_manager-Ensures,
}
use garden_extension_f5_loca.Model.{LoadBalancerStack}
use garden_extension_f5_loca.Observed.{ObservedGraph, ObservedResource}
use garden_extension_f5_loca.Obsolete.{
  delete_obsolete_pools, desired_pools, obsolete_pool, remove_obsolete_pool,
}
use garden_extension_f5_loca.Obsolete.Within.{
  IsEntry, Keeps, Within, Within-refl, each_of-Keeps, remove_pool-Keeps,
}
use garden_extension_f5_loca.Stacks.{graph_pool_key}
use garden_extension_f5_loca.Text.{trim_space}
use garden_extension_f5_loca.Text.Cut.{cut}

module _ {W : Type 0} (d : Clients W) (lb : String) (all : ObservedGraph) where
  -- An obsolete pool of the graph, by its key and its id.
  abbrev pub IsObsoletePool : List String → String → String → Type 0
  IsObsoletePool desired key id =
      (r : ObservedResource) × IsEntry key r all.pools
      × (contains key desired ≡ false)
      × (r.external_id ≢ "")
      × (id ≡ r.external_id)

  -- A call of deleteObsoletePools: the deletion of an obsolete pool, of a member recorded below its key, or of
  -- the monitor recorded under its key, each below the virtual server that the graph records for the key.
  abbrev pub RemovesPools : List String → Event → Type 0
  RemovesPools desired (deleted_pool on vs id _) =
      (key : String) × (pool : String) × IsObsoletePool desired key pool
      × (on ≡ trim_space lb)
      × (vs ≡ trim_space (virtual_server_id_for_graph_key all key))
      × (id ≡ trim_space pool)
  RemovesPools desired (deleted_pool_member on vs pool id _) =
      (key : String) × IsObsoletePool desired key pool
      × (on ≡ lb)
      × (vs ≡ virtual_server_id_for_graph_key all key)
      × ((k : String) × (r : ObservedResource) × IsEntry k r all.members
          × (graph_pool_key k ≡ key)
          × (id ≡ r.external_id))
  RemovesPools desired (deleted_monitor on vs pool id _) =
      (key : String) × IsObsoletePool desired key pool
      × (on ≡ lb)
      × (vs ≡ virtual_server_id_for_graph_key all key)
      × ((r : ObservedResource) × IsEntry key r all.monitors × (id ≡ r.external_id))
  RemovesPools desired _ = ⊥

  remove_obsolete_pool-Keeps :
      (desired : List String) (key : String) (r : ObservedResource)
      → IsEntry key r all.pools
      → Keeps
          (RemovesPools desired)
          (Within all all.virtual_servers)
          (remove_obsolete_pool d lb desired key r)
  unfolding remove_obsolete_pool virtual_server_id_for_graph_key
  remove_obsolete_pool-Keeps desired key r e (g, c) i =
      Ensures-if (contains key desired || r.external_id == "") _ _ (λ q. Ensures-pure (g, c) i)
        λ q.
          let vs_id = virtual_server_id_for_graph_key g key in
          let same : vs_id ≡ virtual_server_id_for_graph_key all key =
            ap (λ b. external_id_of (cut key).0 b) i.virtual_servers in
          let pool : IsObsoletePool desired key r.external_id =
            (r, e, ground arith, ground (arith, eq_iff r.external_id ""), refl) in
          Ensures-if (vs_id == "") _ _ (λ n. Ensures-raise _)
            λ n. with_manager-Ensures _ d.pools _ λ pools.
              remove_pool-Keeps d lb all all.virtual_servers (RemovesPools desired) obsolete_pool
                pools vs_id key r.external_id
                (λ k m x h p. (key, pool, refl, same, (k, m, h, p, refl)))
                (λ m x h. (key, pool, refl, same, (m, h, refl)))
                (λ x. (key, r.external_id, pool, refl, ap trim_space same, refl)) (g, c) i

-- Its calls, and that it leaves the listeners of the graph alone.
pub delete_obsolete_pools-Within :
    {W : Type 0} (d : Clients W) (lb : String) (stack : LoadBalancerStack)
    (s : ObservedGraph × Bool)
    → Ensures
        (RemovesPools d lb s.0 (desired_pools stack stack.virtual_servers))
        (λ (t : ObservedGraph × Bool). Within s.0 s.0.virtual_servers t.0)
        (delete_obsolete_pools d lb stack s)
unfolding delete_obsolete_pools
delete_obsolete_pools-Within d lb stack s =
    let desired = desired_pools stack stack.virtual_servers in
    let g = s.0 in
    each_of-Keeps (RemovesPools d lb g desired) (Within g g.virtual_servers) _ g.pools g.pools
      (λ k r e. e) (λ k r e. remove_obsolete_pool-Keeps d lb g desired k r e) s (Within-refl g)

-- Whatever CMP answers, deleteObsoletePools makes no call but deletions, and deletes only pools that the graph
-- records with an id under a key that the stack does not want, members recorded below such a key and
-- the monitor recorded under it, all below the virtual server that the graph records for the key.
pub delete_obsolete_pools-RemovesPools :
    {W : Type 0} (d : Clients W) (lb : String) (stack : LoadBalancerStack) (g : ObservedGraph)
    (changed : Bool) (w : W)
    → All
        (RemovesPools d lb g (desired_pools stack stack.virtual_servers))
        (delete_obsolete_pools d lb stack (g, changed) w).trace
delete_obsolete_pools-RemovesPools d lb stack g changed w =
    ((delete_obsolete_pools-Within d lb stack (g, changed)).at w).0
