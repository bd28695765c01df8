-- ===== src/Obsolete/Within.antt =====
-- deleteObsoletePools and deleteObsoleteVirtualServers: each round deletes entries that the graph holds.
use garden_extension_f5_loca.Pools
use garden_extension_f5_loca.Monitors
use mathlib.Core.Path.{subst}
use garden_extension_f5_loca.Prelude.{
  All, All-imp, Bool, String, [], arith, eq_iff, inl, inr, int_eq, nat_eq, refl, string_eq, true,
  ◌!=◌, ◌||◌, ◌∷◌, ◌≡◌, ◌⊎◌,
}
use garden_extension_f5_loca.Prelude.{int_eq, nat_eq, string_eq, ◌==◌}
use garden_extension_f5_loca.Cleanup.{Clients}
use garden_extension_f5_loca.Cmp.{
  Cmp, Event, MonitorClient, PoolClient, deleted_monitor, deleted_pool, deleted_pool_member,
}
use garden_extension_f5_loca.Dict.{delete}
use garden_extension_f5_loca.Exec.{Done, Error, Result, pure, wrapping, ◌>>=◌}
use garden_extension_f5_loca.Exec.Ensures.{
  Ensures, Ensures-Emits, Ensures-bind, Ensures-if, Ensures-pure, with_manager-Ensures,
}
use garden_extension_f5_loca.Exec.Rules.{Emits, Emits-call, Emits-if, Emits-pure, Emits-wrapping}
use garden_extension_f5_loca.Observed.{Bucket, ObservedGraph, ObservedResource}
use garden_extension_f5_loca.Obsolete.{
  GraphStep, Removal, each_entry, is_skipped, remove_member, remove_monitor, remove_pool,
}
use garden_extension_f5_loca.Pools.{cleanup}
use garden_extension_f5_loca.Stacks.{graph_pool_key}
use garden_extension_f5_loca.Text.{trim_space}

-- The bucket holds the resource under the key.
abbrev pub IsEntry : String → ObservedResource → Bucket → Type 0
IsEntry key r [] = ⊥
IsEntry key r ((k, s) ∷ bucket) = ((key ≡ k) × (r ≡ s)) ⊎ IsEntry key r bucket

abbrev pub IsSub : Bucket → Bucket → Type 0
IsSub b c = (key : String) (r : ObservedResource) → IsEntry key r b → IsEntry key r c

IsSub-delete : (gone : String) (b : Bucket) → IsSub (delete gone b) b
unfolding delete
IsSub-delete gone [] key r h = h
IsSub-delete gone ((k, s) ∷ b) key r h = ground (arith, IsSub-delete gone b key r)

-- A graph from which entries of another may be missing.
pub record Within (all : ObservedGraph) (listeners : Bucket) (g : ObservedGraph) : Type 0 where
  pub pools : IsSub g.pools all.pools
  pub members : IsSub g.members all.members
  pub monitors : IsSub g.monitors all.monitors
  pub routing_rules : IsSub g.routing_rules all.routing_rules
  pub virtual_servers : g.virtual_servers ≡ listeners

pub Within-refl : (g : ObservedGraph) → Within g g.virtual_servers g
Within-refl g = record {
  pools = λ key r h. h;
  members = λ key r h. h;
  monitors = λ key r h. h;
  routing_rules = λ key r h. h;
  virtual_servers = refl;
}

-- Entries may go.
pub drop_pools :
    (k : String) (all : ObservedGraph) (listeners : Bucket) (g : ObservedGraph)
    → Within all listeners g
    → Within all listeners (record g { pools = delete k g.pools })
drop_pools k all listeners g i = record {
  pools = λ j x e. i.pools j x (IsSub-delete k g.pools j x e);
  members = i.members;
  monitors = i.monitors;
  routing_rules = i.routing_rules;
  virtual_servers = i.virtual_servers;
}

pub drop_members :
    (k : String) (all : ObservedGraph) (listeners : Bucket) (g : ObservedGraph)
    → Within all listeners g
    → Within all listeners (record g { members = delete k g.members })
drop_members k all listeners g i = record {
  pools = i.pools;
  members = λ j x e. i.members j x (IsSub-delete k g.members j x e);
  monitors = i.monitors;
  routing_rules = i.routing_rules;
  virtual_servers = i.virtual_servers;
}

pub drop_monitors :
    (k : String) (all : ObservedGraph) (listeners : Bucket) (g : ObservedGraph)
    → Within all listeners g
    → Within all listeners (record g { monitors = delete k g.monitors })
drop_monitors k all listeners g i = record {
  pools = i.pools;
  members = i.members;
  monitors = λ j x e. i.monitors j x (IsSub-delete k g.monitors j x e);
  routing_rules = i.routing_rules;
  virtual_servers = i.virtual_servers;
}

pub drop_routing_rules :
    (k : String) (all : ObservedGraph) (listeners : Bucket) (g : ObservedGraph)
    → Within all listeners g
    → Within all listeners (record g { routing_rules = delete k g.routing_rules })
drop_routing_rules k all listeners g i = record {
  pools = i.pools;
  members = i.members;
  monitors = i.monitors;
  routing_rules = λ j x e. i.routing_rules j x (IsSub-delete k g.routing_rules j x e);
  virtual_servers = i.virtual_servers;
}

pub drop_listener :
    (name : String) (all : ObservedGraph) (listeners : Bucket) (g : ObservedGraph)
    → Within all listeners g
    → Within all
        (delete name g.virtual_servers)
        (record g { virtual_servers = delete name g.virtual_servers })
drop_listener name all listeners g i = record {
  pools = i.pools;
  members = i.members;
  monitors = i.monitors;
  routing_rules = i.routing_rules;
  virtual_servers = refl;
}

entries-IsEntry : (b c : Bucket) → IsSub b c → All (λ e. IsEntry e.0 e.1 c) b
entries-IsEntry [] c h = tt
entries-IsEntry ((k, r) ∷ b) c h =
    (h k r (inl (refl, refl)), entries-IsEntry b c (λ key s i. h key s (inr i)))

module _ {W : Type 0} (P : Event → Type 0) (Inv : ObservedGraph → Type 0) where
  -- A step that keeps `Inv` and makes calls in `P` only.
  abbrev pub Keeps : (ObservedGraph × Bool → Cmp W (ObservedGraph × Bool)) → Type 0
  Keeps step = (s : ObservedGraph × Bool) → Inv s.0 → Ensures P (λ t. Inv t.0) (step s)

  each_entry-Keeps :
      (f : String → ObservedResource → GraphStep W) (b : Bucket)
      → All (λ e. Keeps (f e.0 e.1)) b
      → Keeps (each_entry f b)
  unfolding each_entry
  each_entry-Keeps f [] h s i = Ensures-pure s i
  each_entry-Keeps f ((key, r) ∷ b) h s i =
      Ensures-bind _ _ (h.0 s i) λ t j. each_entry-Keeps f b h.1 t j

  pub each_of-Keeps :
      (f : String → ObservedResource → GraphStep W) (b c : Bucket)
      → IsSub b c
      → ((key : String) (r : ObservedResource) → IsEntry key r c → Keeps (f key r))
      → Keeps (each_entry f b)
  each_of-Keeps f b c h k = each_entry-Keeps f b (
      All-imp (λ e. IsEntry e.0 e.1 c) (λ e. Keeps (f e.0 e.1)) b (λ e i. k e.0 e.1 i)
        (entries-IsEntry b c h))

module _ {W : Type 0} (d : Clients W) (lb : String) (all : ObservedGraph) (listeners : Bucket)
    (P : Event → Type 0) where
  abbrev pub Inside : ObservedGraph → Type 0
  Inside g = Within all listeners g

  module _ (how : Removal) (pools : PoolClient W) (vs key pool : String) where
    remove_member-Keeps :
        (k : String) (r : ObservedResource)
        → ((x : Result Done)
            → graph_pool_key k ≡ key
            → P (deleted_pool_member lb vs pool r.external_id x))
        → Keeps P Inside (remove_member d lb how pools vs key pool k r)
    unfolding remove_member
    remove_member-Keeps k r h (g, c) i =
        Ensures-if (graph_pool_key k != key || is_skipped how r) _ _ (λ e. Ensures-pure (g, c) i)
          (λ e.
            Ensures-bind _ _
              (Ensures-Emits _ (
                Emits-wrapping _ _
                  (Emits-call _ _ λ x. h x (ground (arith, eq_iff (graph_pool_key k) key)))))
              λ u _. Ensures-pure _ (drop_members k all listeners g i))

    monitor_cleanup-Emits :
        (client : MonitorClient W) (id : String) (wrap : Error → Error)
        → ((x : Result Done) → P (deleted_monitor lb vs pool id x))
        → Emits P (wrapping wrap (Monitors.cleanup client lb vs pool id))
    unfolding Monitors.cleanup
    monitor_cleanup-Emits client id wrap h = Emits-wrapping _ _ (
        Emits-if
          (trim_space lb == ""
            || (trim_space vs == "" || (trim_space pool == "" || trim_space id == "")))
          _ _ (λ e. Emits-pure tt) (λ e. Emits-call _ _ h))

    remove_monitor-Keeps :
        (k : String) (r : ObservedResource)
        → ((x : Result Done) → k ≡ key → P (deleted_monitor lb vs pool r.external_id x))
        → Keeps P Inside (remove_monitor d lb how pools vs key pool k r)
    unfolding remove_monitor
    remove_monitor-Keeps k r h (g, c) i =
        Ensures-if (k != key || is_skipped how r) _ _ (λ e. Ensures-pure (g, c) i)
          (λ e. with_manager-Ensures _ d.monitors _ λ client.
            Ensures-bind _ _
              (Ensures-Emits _ (
                monitor_cleanup-Emits client r.external_id _
                  (λ x. h x (ground (arith, eq_iff k key)))))
              λ u _. Ensures-pure _ (drop_monitors k all listeners g i))

    delete_pool-Keeps :
        ((x : Result Done) → P (deleted_pool (trim_space lb) (trim_space vs) (trim_space pool) x))
        → (g : ObservedGraph) → Within all listeners g
        → Ensures P
            (λ (t : ObservedGraph × Bool). Within all listeners t.0)
            (wrapping (how.pool_failed pool) (Pools.cleanup pools lb vs pool) >>= λ u.
              pure (record g { pools = delete key g.pools }, true))
    unfolding Pools.cleanup
    delete_pool-Keeps h g i =
        Ensures-bind _ _
          (Ensures-Emits _ (
            Emits-wrapping _ _ (
              Emits-if (trim_space lb == "" || (trim_space vs == "" || trim_space pool == "")) _ _
                (λ e. Emits-pure tt) (λ e. Emits-call _ _ h))))
          λ u _. Ensures-pure _ (drop_pools key all listeners g i)

    -- The deletion of a pool and its children stays within what the hypotheses allow.
    pub remove_pool-Keeps :
        ((k : String) (r : ObservedResource) (x : Result Done)
          → IsEntry k r all.members
          → graph_pool_key k ≡ key
          → P (deleted_pool_member lb vs pool r.external_id x))
        → ((r : ObservedResource) (x : Result Done)
            → IsEntry key r all.monitors
            → P (deleted_monitor lb vs pool r.external_id x))
        → ((x : Result Done) → P (deleted_pool (trim_space lb) (trim_space vs) (trim_space pool) x))
        → Keeps P Inside (remove_pool d lb how pools vs key pool)
    unfolding remove_pool
    remove_pool-Keeps hm hn hp s i =
        Ensures-bind _ _
          (each_of-Keeps P Inside _ s.0.members all.members i.members
            (λ k r e. remove_member-Keeps k r (λ x q. hm k r x e q)) s i)
          λ t j.
            Ensures-bind _ _
              (each_of-Keeps P Inside _ t.0.monitors all.monitors j.monitors
                (λ k r e.
                  remove_monitor-Keeps k r
                    (λ x q. hn r x (subst (λ y. IsEntry y r all.monitors) q e)))
                (t.0, t.1) j)
              λ u l. delete_pool-Keeps hp u.0 l
