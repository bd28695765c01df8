-- ===== src/Obsolete/Swept.antt =====
-- deleteObsoleteVirtualServers: what is left in the graph.
use garden_extension_f5_loca.Prelude.{
  Bool, List, String, [], ap, arith, eq_iff, false, inl, inr, none, refl, sym, true, ◌∙◌, ◌∷◌, ◌≡◌,
  ◌≢◌,
}
use garden_extension_f5_loca.Cleanup.{Clients}
use garden_extension_f5_loca.Dict.{contains, lookup, lookup-delete}
use garden_extension_f5_loca.Exec.{ok}
use garden_extension_f5_loca.Exec.Ensures.{Ensures-reply}
use garden_extension_f5_loca.Model.{LoadBalancerStack}
use garden_extension_f5_loca.Observed.{Bucket, ObservedGraph, ObservedResource}
use garden_extension_f5_loca.Obsolete.{delete_obsolete_virtual_servers, desired_listeners}
use garden_extension_f5_loca.Obsolete.ListenerCalls.{
  delete_obsolete_virtual_servers-sweep, sweep, sweep_one,
}
use garden_extension_f5_loca.Obsolete.Within.{IsEntry}

module _ (desired : List String) where
  pub sweep-wanted :
      (k : String) (b listeners : Bucket)
      → contains k desired ≡ true
      → lookup k (sweep desired b listeners) ≡ lookup k listeners
  unfolding sweep
  sweep-wanted k [] listeners h = refl
  sweep-wanted k ((name, r) ∷ b) listeners h =
      sweep-wanted k b (sweep_one desired name r listeners) h
      ∙ ground (arith, eq_iff name k, lookup-delete name k listeners)

  sweep_absent :
      (k : String) (b listeners : Bucket)
      → lookup k listeners ≡ none
      → lookup k (sweep desired b listeners) ≡ none
  unfolding sweep
  sweep_absent k [] listeners h = h
  sweep_absent k ((name, r) ∷ b) listeners h =
      sweep_absent k b (sweep_one desired name r listeners)
        (ground (arith, lookup-delete name k listeners))

  pub sweep-obsolete :
      (k : String) (r : ObservedResource) (b listeners : Bucket)
      → IsEntry k r b
      → contains k desired ≡ false
      → r.external_id ≢ ""
      → lookup k (sweep desired b listeners) ≡ none
  unfolding sweep
  sweep-obsolete k r [] listeners i c n = absurd i
  sweep-obsolete k r ((name, s) ∷ b) listeners (inr i) c n = sweep-obsolete k r b _ i c n
  sweep-obsolete k r ((name, s) ∷ b) listeners (inl (p, q)) c n =
      sweep_absent k b (sweep_one desired name s listeners) (
        rw (sym p, sym q)
          (ground (arith, eq_iff r.external_id "", eq_iff k k, lookup-delete k k listeners)))

-- After a successful deleteObsoleteVirtualServers the graph records the listeners of desired names as before, and
-- no listener any more that it recorded with an id under a name that the stack does not want.
pub delete_obsolete_virtual_servers-lookup :
    {W : Type 0} (d : Clients W) (lb : String) (stack : LoadBalancerStack) (g t : ObservedGraph)
    (changed touched : Bool) (w : W)
    → (delete_obsolete_virtual_servers d lb stack (g, changed) w).reply ≡ ok (t, touched)
    → (let desired = desired_listeners stack.virtual_servers in
        ((k : String)
          → contains k desired ≡ true
          → lookup k t.virtual_servers ≡ lookup k g.virtual_servers)
        × ((k : String) (r : ObservedResource)
            → IsEntry k r g.virtual_servers
            → contains k desired ≡ false
            → r.external_id ≢ ""
            → lookup k t.virtual_servers ≡ none))
delete_obsolete_virtual_servers-lookup d lb stack g t changed touched w h =
    let desired = desired_listeners stack.virtual_servers in
    let b = g.virtual_servers in
    let left =
      Ensures-reply _ w (t, touched) (delete_obsolete_virtual_servers-sweep d lb stack (g, changed))
        h in
    (
      λ k c. ap (lookup k) left.virtual_servers ∙ sweep-wanted desired k b b c,
      λ k r i c n. ap (lookup k) left.virtual_servers ∙ sweep-obsolete desired k r b b i c n,
    )
