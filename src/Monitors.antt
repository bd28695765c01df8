-- ===== src/Monitors.antt =====
-- pkg/deploy/lbaas/monitor_manager.go: the health monitor of one pool. The monitor that Go returns
-- beside an error is dropped, since no caller reads it.
pub mod Single
use garden_extension_f5_loca.Prelude.{
  Bool, List, Option, String, [], false, if◌then◌else◌, int_eq, nat_eq, none, pos, some, string_eq,
  true, ◌!=◌, ◌&&◌, ◌==◌, ◌||◌, ◌∷◌,
}
use garden_extension_f5_loca.Cmp.{
  Cmp, MonitorClient, MonitorResource, MonitorSpec, created_monitor, deleted_monitor,
  listed_monitors, updated_monitor,
}
use garden_extension_f5_loca.Exec.{Done, call, errorf, pure, raise, wrapf, wrapping, ◌>>=◌, ◌>>◌}
use garden_extension_f5_loca.Model.{Monitor}
use garden_extension_f5_loca.Text.{equal_fold, trim_space}

unfoldable pub monitor_spec_equal : MonitorResource → MonitorSpec → Bool
monitor_spec_equal observed desired =
    equal_fold (trim_space observed.protocol) (trim_space desired.protocol)
    && (trim_space observed.path == trim_space desired.path
        && observed.interval == desired.interval)

abbrev pub blank_monitor : MonitorResource
blank_monitor = record { id = ""; name = ""; protocol = ""; path = ""; interval = pos 0 }

abbrev pub monitor_spec : Monitor → MonitorSpec
monitor_spec desired = record {
  name = if trim_space desired.name == "" then "default-monitor" else desired.name;
  protocol = desired.type;
  path = desired.path;
  interval = desired.interval;
}

module _ {W : Type 0} (client : MonitorClient W) (lb_id vs_id pool_id : String) where
  abbrev pub delete_monitor : String → String → Cmp W Done
  delete_monitor format id =
      wrapping (wrapf format (id ∷ pool_id ∷ [])) (
        call (client.delete_monitor lb_id vs_id pool_id id)
          (deleted_monitor lb_id vs_id pool_id id))

  -- No monitor is desired: all go.
  unfoldable pub delete_all : List MonitorResource → Cmp W Bool
  delete_all [] = pure false
  delete_all (m ∷ ms) =
      let rest = delete_all ms in
      if trim_space m.id == ""
      then rest
      else do delete_monitor "deleting undesired monitor %s from pool %s" m.id; rest; pure true

  update_monitor : MonitorSpec → MonitorResource → Cmp W (MonitorResource × Bool)
  update_monitor spec m = if monitor_spec_equal m spec then pure (m, false) else do
    updated ← wrapping (wrapf "updating monitor %s on pool %s" (m.id ∷ pool_id ∷ [])) (
        call (client.update_monitor lb_id vs_id pool_id m.id spec)
          (updated_monitor lb_id vs_id pool_id m.id spec))
    pure (updated, true)

  -- One round of the loop over the listed monitors, with the monitor kept so far.
  unfoldable pub keep_one :
      MonitorSpec → MonitorResource → MonitorResource → Cmp W (MonitorResource × Bool)
  unfolding update_monitor
  keep_one spec kept m =
      if trim_space m.id == ""
      then pure (kept, false)
      else if trim_space m.name != trim_space spec.name
      then (do delete_monitor "deleting obsolete monitor %s from pool %s" m.id; pure (kept, true))
      else if trim_space kept.id != ""
      then (do delete_monitor "deleting duplicate monitor %s from pool %s" m.id; pure (kept, true))
      else update_monitor spec m

  unfoldable pub keep_from :
      MonitorSpec → List MonitorResource → MonitorResource → Cmp W (MonitorResource × Bool)
  keep_from spec [] kept = pure (kept, false)
  keep_from spec (m ∷ ms) kept = do
    (kept', touched) ← keep_one spec kept m
    (last, changed) ← keep_from spec ms kept'
    pure (last, touched || changed)

  unfoldable pub create_missing :
      MonitorSpec → MonitorResource × Bool → Cmp W (MonitorResource × Bool)
  create_missing spec (kept, changed) =
      if trim_space kept.id != "" then pure (kept, changed) else do
        created ← wrapping (wrapf "creating monitor %s on pool %s" (spec.name ∷ pool_id ∷ [])) (
            call (client.create_monitor lb_id vs_id pool_id spec)
              (created_monitor lb_id vs_id pool_id spec))
        pure (created, true)

  unfoldable pub reconcile : Option Monitor → List MonitorResource → Cmp W (MonitorResource × Bool)
  reconcile none monitors = do changed ← delete_all monitors; pure (blank_monitor, changed)
  reconcile (some desired) monitors = do
    kept ← keep_from (monitor_spec desired) monitors blank_monitor
    create_missing (monitor_spec desired) kept

  -- MonitorManager.Ensure
  unfoldable pub ensure : Option Monitor → Cmp W (MonitorResource × Bool)
  ensure desired =
      if trim_space lb_id == "" || (trim_space vs_id == "" || trim_space pool_id == "")
      then raise (
          errorf
            "lb service id, virtual server id and pool id are required for monitor reconciliation"
            [])
      else do
        monitors ←
            wrapping (wrapf "listing monitors for pool %s" (pool_id ∷ [])) (
              call (client.list_monitors lb_id vs_id pool_id) (listed_monitors lb_id vs_id pool_id))
        reconcile desired monitors

  -- Cleanup
  unfoldable pub cleanup : String → Cmp W Done
  cleanup monitor_id =
      if trim_space lb_id == ""
        || (trim_space vs_id == "" || (trim_space pool_id == "" || trim_space monitor_id == ""))
      then pure tt
      else call (client.delete_monitor lb_id vs_id pool_id monitor_id)
          (deleted_monitor lb_id vs_id pool_id monitor_id)
