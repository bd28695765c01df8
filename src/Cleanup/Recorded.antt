-- ===== src/Cleanup/Recorded.antt =====
-- CleanupStack: the calls that a cleanup makes.
use garden_extension_f5_loca.Pools
use garden_extension_f5_loca.Monitors
use garden_extension_f5_loca.RoutingRules
use garden_extension_f5_loca.Prelude.{
  All, All-imp, Bool-cases, List, String, [], arith, false, inl, inr, int_eq, nat_eq, not, refl,
  string_eq, true, ◌==◌, ◌∷◌, ◌≡◌, ◌⊎◌,
}
use garden_extension_f5_loca.Cleanup.{
  CleanupRequest, Clients, cleanup_lb_service_id, cleanup_stack, delete_all, delete_children,
  delete_lb_service, delete_member, delete_monitor, delete_pool, delete_rule, delete_vip,
  delete_virtual_server, each, gone, insert_sorted, sort_keys, sorted_resources, with_id,
}
use garden_extension_f5_loca.Cmp.{
  Cmp, Event, deleted_lb_service, deleted_monitor, deleted_pool, deleted_pool_member,
  deleted_routing_rule, deleted_vip, deleted_virtual_server, is_read,
}
use garden_extension_f5_loca.Exec.{with_manager, Done, Result, Result-cases, err, ok, ◌>>=◌}
use garden_extension_f5_loca.Exec.Rules.{Emits, Emits-bind, Emits-if, Emits-pure}
use garden_extension_f5_loca.Observed.{Bucket, ObservedGraph, ObservedResource, ensure_graph}
use garden_extension_f5_loca.Pools.{cleanup}
use garden_extension_f5_loca.Text.{trim_space}

-- Some entry of the bucket has this id.
abbrev pub IsIn : String → Bucket → Type 0
IsIn id [] = ⊥
IsIn id ((key, r) ∷ bucket) = (id ≡ r.external_id) ⊎ IsIn id bucket

-- A call of a cleanup: a read, or the deletion of a recorded resource of the service; that of a VIP or
-- of the service itself only on request, and that of a child not where virtual servers go as a whole.
abbrev pub Permits : CleanupRequest → ObservedGraph → String → Event → Type 0
Permits req g lb (deleted_lb_service id _) = (id ≡ lb) × (req.delete_lb_service ≡ true)
Permits req g lb (deleted_vip on id _) = (on ≡ lb) × IsIn id g.vips × (req.delete_vip ≡ true)
Permits req g lb (deleted_virtual_server on id _) = (on ≡ lb) × IsIn id g.virtual_servers
Permits req g lb (deleted_pool on vs id _) =
    (on ≡ trim_space lb)
    × ((x : String) × IsIn x g.pools × (id ≡ trim_space x))
    × (req.aggregate_virtual_servers ≡ false)
Permits req g lb (deleted_pool_member on vs pool id _) =
    (on ≡ lb) × IsIn id g.members × (req.aggregate_virtual_servers ≡ false)
Permits req g lb (deleted_monitor on vs pool id _) =
    (on ≡ lb) × IsIn id g.monitors × (req.aggregate_virtual_servers ≡ false)
Permits req g lb (deleted_routing_rule on vs id _) =
    (on ≡ lb) × IsIn id g.routing_rules × (req.aggregate_virtual_servers ≡ false)
Permits req g lb e = is_read e ≡ true

-- Sorting and dropping entries keeps what holds of every entry.
module _ (P : ObservedResource → Type 0) where
  abbrev Entry : String × ObservedResource → Type 0
  Entry (key, r) = P r

  All-insert_sorted :
      (key : String) (r : ObservedResource) (bucket : Bucket)
      → P r
      → All Entry bucket
      → All Entry (insert_sorted key r bucket)
  unfolding insert_sorted
  All-insert_sorted key r [] p h = (p, tt)
  All-insert_sorted key r ((k, s) ∷ bucket) p h =
      ground (arith, All-insert_sorted key r bucket p h.1)

  All-sort_keys : (bucket : Bucket) → All Entry bucket → All Entry (sort_keys bucket)
  unfolding sort_keys
  All-sort_keys [] h = tt
  All-sort_keys ((key, r) ∷ bucket) h =
      All-insert_sorted key r (sort_keys bucket) h.0 (All-sort_keys bucket h.1)

  All-with_id : (bucket : Bucket) → All Entry bucket → All P (with_id bucket)
  unfolding with_id
  All-with_id [] h = tt
  All-with_id ((key, r) ∷ bucket) h = ground (arith, All-with_id bucket h.1)

  All-sorted_resources : (bucket : Bucket) → All Entry bucket → All P (sorted_resources bucket)
  unfolding sorted_resources
  All-sorted_resources bucket h = All-with_id (sort_keys bucket) (All-sort_keys bucket h)

IsIn-self :
    (all bucket : Bucket)
    → ((id : String) → IsIn id bucket → IsIn id all)
    → All (Entry (λ r. IsIn r.external_id all)) bucket
IsIn-self all [] h = tt
IsIn-self all ((key, r) ∷ bucket) h =
    (h r.external_id (inl refl), IsIn-self all bucket (λ id i. h id (inr i)))

recorded-IsIn : (bucket : Bucket) → All (λ r. IsIn r.external_id bucket) (sorted_resources bucket)
recorded-IsIn bucket =
    All-sorted_resources (λ r. IsIn r.external_id bucket) bucket
      (IsIn-self bucket bucket (λ id i. i))

each-Emits :
    {W A : Type 0} (P : Event → Type 0) (f : A → Cmp W Done) (xs : List A)
    → All (λ a. Emits P (f a)) xs
    → Emits P (each f xs)
unfolding each
each-Emits P f [] h = Emits-pure tt
each-Emits P f (a ∷ xs) h = Emits-bind _ _ h.0 (λ u. each-Emits P f xs h.1)

module _ {W : Type 0} (d : Clients W) (req : CleanupRequest) (g : ObservedGraph) (lb : String) where
  abbrev P : Event → Type 0
  P = Permits req g lb

  delete_rule-Permits :
      (r : ObservedResource)
      → req.aggregate_virtual_servers ≡ false
      → IsIn r.external_id g.routing_rules
      → Emits P (delete_rule d g lb r)
  unfolding delete_rule with_manager RoutingRules.cleanup
  delete_rule-Permits r n i = record { at = λ w. ground arith }

  delete_member-Permits :
      (r : ObservedResource)
      → req.aggregate_virtual_servers ≡ false
      → IsIn r.external_id g.members
      → Emits P (delete_member d g lb r)
  unfolding delete_member with_manager
  delete_member-Permits r n i = record { at = λ w. ground arith }

  delete_monitor-Permits :
      (r : ObservedResource)
      → req.aggregate_virtual_servers ≡ false
      → IsIn r.external_id g.monitors
      → Emits P (delete_monitor d g lb r)
  unfolding delete_monitor with_manager Monitors.cleanup
  delete_monitor-Permits r n i = record { at = λ w. ground arith }

  delete_pool-Permits :
      (r : ObservedResource)
      → req.aggregate_virtual_servers ≡ false
      → IsIn r.external_id g.pools
      → Emits P (delete_pool d g lb r)
  unfolding delete_pool with_manager Pools.cleanup
  delete_pool-Permits r n i =
      let found : (x : String) × IsIn x g.pools × (trim_space r.external_id ≡ trim_space x) =
        (r.external_id, i, refl) in
      record { at = λ w. ground arith }

  delete_virtual_server-Permits :
      (r : ObservedResource)
      → IsIn r.external_id g.virtual_servers
      → Emits P (delete_virtual_server d g lb r)
  unfolding delete_virtual_server gone ◌>>=◌
  delete_virtual_server-Permits r i = record { at = λ w. ground arith }

  delete_vip-Permits :
      (r : ObservedResource)
      → req.delete_vip ≡ true
      → IsIn r.external_id g.vips
      → Emits P (delete_vip d g lb r)
  unfolding delete_vip
  delete_vip-Permits r v i = record { at = λ w. ground arith }

  delete_lb_service-Permits : req.delete_lb_service ≡ true → Emits P (delete_lb_service d g lb)
  unfolding delete_lb_service gone ◌>>=◌
  delete_lb_service-Permits v = record { at = λ w. ground arith }

  delete_each-Permits :
      (f : ObservedResource → Cmp W Done) (bucket : Bucket)
      → ((r : ObservedResource) → IsIn r.external_id bucket → Emits P (f r))
      → Emits P (each f (sorted_resources bucket))
  delete_each-Permits f bucket h =
      each-Emits P f _
        (All-imp (λ r. IsIn r.external_id bucket) (λ r. Emits P (f r)) _ h (recorded-IsIn bucket))

  delete_children-Permits : req.aggregate_virtual_servers ≡ false → Emits P (delete_children d g lb)
  unfolding delete_children
  delete_children-Permits n =
      Emits-bind _ _ (delete_each-Permits _ g.routing_rules λ r i. delete_rule-Permits r n i) λ a.
        Emits-bind _ _ (delete_each-Permits _ g.members λ r i. delete_member-Permits r n i) λ b.
          Emits-bind _ _ (delete_each-Permits _ g.monitors λ r i. delete_monitor-Permits r n i)
            λ c. delete_each-Permits _ g.pools λ r i. delete_pool-Permits r n i

  delete_all-Permits : Emits P (delete_all d g lb req)
  unfolding delete_all
  delete_all-Permits =
      Emits-bind _ _
        (Emits-if (not req.aggregate_virtual_servers) _ _
          (λ e. delete_children-Permits (ground arith)) (λ e. Emits-pure tt))
        λ a.
          Emits-bind _ _
            (delete_each-Permits _ g.virtual_servers λ r i. delete_virtual_server-Permits r i)
            λ b.
              Emits-bind _ _
                (Emits-if req.delete_vip _ _
                  (λ e. delete_each-Permits _ g.vips λ r i. delete_vip-Permits r e i)
                  (λ e. Emits-pure tt))
                λ c.
                  Emits-bind _ _
                    (Emits-if req.delete_lb_service _ _ delete_lb_service-Permits
                      (λ e. Emits-pure tt))
                    λ x. Emits-pure _

-- The service that a cleanup works on.
abbrev pub parent_of : Result String → String
parent_of (ok id) = id
parent_of (err e) = ""

-- Whatever CMP answers, each call of a cleanup is a read or the deletion of a resource that the
-- observed graph records, under the one LB service that it records. It deletes VIPs and the service
-- only on request, and pools, members, monitors and rules only where virtual servers do not go as a
-- whole.
pub cleanup_stack-Permits :
    {W : Type 0} (d : Clients W) (req : CleanupRequest) (w : W)
    → (let current = ensure_graph req.current in
        All
          (Permits req current.graph (parent_of (cleanup_lb_service_id current)))
          (cleanup_stack d req w).trace)
unfolding cleanup_stack ◌>>=◌
cleanup_stack-Permits d req w =
    let current = ensure_graph req.current in
    elim (Result-cases (cleanup_lb_service_id current)) [
      | inl (id, q) ↦ rw q (elim (Bool-cases (id == "")) [
        | inl e ↦ rw e tt
        | inr e ↦ rw e ((delete_all-Permits d req current.graph id).at w)
      ])
      | inr (e, q) ↦ rw q tt
    ]
