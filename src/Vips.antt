-- ===== src/Vips.antt =====
-- pkg/deploy/lbaas/vip_manager.go: the VIP of an LB service is kept or allocated. Values that Go returns
-- beside an error are dropped, since no caller reads them.
pub mod Laws
use garden_extension_f5_loca.Prelude.{
  Bool, List, Option, String, [], if◌then◌else◌, int_eq, nat_eq, none, not, some, string_eq, true,
  ◌!=◌, ◌&&◌, ◌==◌, ◌||◌, ◌∷◌,
}
use garden_extension_f5_loca.Cmp.{Client, Cmp, Vip, created_vip, deleted_vip, listed_vips}
use garden_extension_f5_loca.Exec.{
  Done, Error, Result, attempt, call, err, errorf, is_terminal_provisioning, ok, pending, pure,
  raise, terminal, unless_missing, wrapf, wrapping, ◌>>=◌, ◌>>◌,
}
use garden_extension_f5_loca.Text.{equal_fold, to_lower, trim_space}

-- validateVIP
unfoldable pub validate_vip : Vip → String → Bool → Result Done
validate_vip vip subnet_id strict =
    let network = trim_space vip.network_id in
    let version = trim_space vip.ip_version in
    let status = to_lower (trim_space vip.status) in
    if network != "" && (trim_space subnet_id != "" && (network != trim_space subnet_id))
    then err (
        errorf "VIP %q belongs to subnet %q, expected %q"
          (vip.id ∷ vip.network_id ∷ subnet_id ∷ []))
    else if version != "" && not (equal_fold version "IPv4")
    then err (errorf "VIP %q uses unsupported IP version %q" (vip.id ∷ version ∷ []))
    else if strict && status == ""
    then err (errorf "supplied VIP %q response has no status" (vip.id ∷ []))
    else if status == ""
        || (status == "active"
            || (status == "created" || (status == "ready" || status == "available")))
    then ok tt
    else if status == "failed" || (status == "error" || status == "errored")
    then err (
        terminal (record {
          resource_type = "VIP";
          resource_id = vip.id;
          status = vip.status;
          detail = "";
        }))
    else err (
        pending (record {
          resource_type = "VIP";
          resource_id = vip.id;
          status = vip.status;
          detail = "waiting for CMP VIP readiness";
        }))

-- The id, the address, and whether something changed.
abbrev pub VipAnswer : Type 0
VipAnswer = String × String × Bool

-- The first VIP of a listing with this id.
unfoldable pub find_vip : String → List Vip → Option Vip
find_vip id [] = none
find_vip id (vip ∷ vips) = if trim_space vip.id == id then some vip else find_vip id vips

-- The first address that a listing gives for the id, or the empty text.
unfoldable pub listed_address : String → List Vip → String
listed_address id [] = ""
listed_address id (vip ∷ vips) =
    if trim_space vip.id == id && (trim_space vip.address != "")
    then trim_space vip.address
    else listed_address id vips

module _ {W : Type 0} (client : Client W) (lb_id subnet_id : String) where
  abbrev pub list_vips : Cmp W (List Vip)
  list_vips = call (client.list_vips lb_id subnet_id) (listed_vips lb_id subnet_id)

  -- A managed VIP that failed is deleted, so that a later reconcile replaces it.
  refuse : String → Bool → Error → Cmp W VipAnswer
  refuse id strict e = elim (is_terminal_provisioning e) [
    | none ↦ raise e
    | some _ ↦ if strict then raise e else do
      unless_missing (wrapf "deleting failed managed VIP %q" (id ∷ []))
          (call (client.delete_vip lb_id id) (deleted_vip lb_id id))
      raise (
          pending (record {
            resource_type = "VIP";
            resource_id = id;
            status = "deleting";
            detail = "failed managed VIP deleted; waiting before replacement";
          }))
  ]

  keep : String → String → Bool → Vip → Result Done → Cmp W VipAnswer
  keep id current_address strict vip (ok _) =
      let found = trim_space vip.address in
      let address = if found == "" then current_address else found in
      pure (id, address, address != current_address)
  keep id current_address strict vip (err e) = refuse id strict e

  -- The address of a new VIP that came without one; a listing that fails is ignored.
  new_address : String → Result (List Vip) → String
  new_address id (ok vips) = listed_address id vips
  new_address id (err e) = ""

  find_address : String → String → Cmp W String
  find_address id address =
      if address != ""
      then pure address
      else do answer ← attempt list_vips; pure (new_address id answer)

  allocate : Cmp W VipAnswer
  allocate = do
    vip ←
        wrapping (wrapf "creating VIP via CMP on LB %s" (lb_id ∷ []))
          (call (client.create_vip lb_id subnet_id) (created_vip lb_id subnet_id))
    if trim_space vip.id == "" then raise (errorf "VIP created but no ID returned" []) else do
      address ← find_address (trim_space vip.id) (trim_space vip.address)
      pure (trim_space vip.id, address, true)

  replace : Bool → Cmp W VipAnswer
  replace strict =
      if strict
      then raise (errorf "supplied VIP ID is required but missing for LB service %s" (lb_id ∷ []))
      else allocate

  recorded : String → String → Bool → Option Vip → Cmp W VipAnswer
  recorded id current_address strict (some vip) =
      keep id current_address strict vip (validate_vip vip subnet_id strict)
  recorded id current_address strict none =
      if strict
      then raise (errorf "supplied VIP %q was not found under LB service %s" (id ∷ lb_id ∷ []))
      else allocate

  -- VIPManager.Ensure
  unfoldable pub ensure : String → String → Bool → Cmp W VipAnswer
  unfolding recorded replace allocate find_address new_address keep refuse
  ensure current_id current_address strict =
      let id = trim_space current_id in
      if id == ""
      then replace strict
      else do vips ← list_vips; recorded id (trim_space current_address) strict (find_vip id vips)
