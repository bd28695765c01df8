-- ===== src/Recovery.antt =====
-- pkg/deploy/lbaas/deployer.go, recoverVirtualServersByName: the listeners of a stack whose records were
-- lost are found by their names, and their VIP by what they or the service's VIPs show. The map of what
-- was found is ranged over in the order of the desired listeners.
pub mod Listed
use garden_extension_f5_loca.Vips
use garden_extension_f5_loca.VirtualServers
use garden_extension_f5_loca.Model
use garden_extension_f5_loca.Prelude.{
  Bool, List, Option, String, [], false, if◌then◌else◌, int_eq, nat_eq, none, some, string_eq, true,
  ◌!=◌, ◌==◌, ◌||◌, ◌∷◌,
}
use garden_extension_f5_loca.Cmp.{Client, Cmp, Vip, VirtualServer, listed_virtual_servers}
use garden_extension_f5_loca.Dict.{contains, insert}
use garden_extension_f5_loca.Exec.{Result, call, err, errorf, lift, ok, pure, raise, ◌>>=◌, ◌>>◌}
use garden_extension_f5_loca.LbServices.{find_unique_by_name}
use garden_extension_f5_loca.Text.{trim_space}
use garden_extension_f5_loca.Vips.{find_vip, list_vips}

abbrev pub Found : Type 0
Found = List (String × VirtualServer)

-- The first listed listener with this id.
unfoldable pub find_listener : String → List VirtualServer → Option VirtualServer
find_listener id [] = none
find_listener id (vs ∷ listeners) =
    if trim_space vs.id == id then some vs else find_listener id listeners

unfoldable pub add_found : String → Option VirtualServer → Found → Found
add_found name none found = found
add_found name (some vs) found = insert name vs found

-- What was found, where one round gave this id or an error.
unfoldable pub note_found : List VirtualServer → String → Result String → Found → Result Found
note_found listeners name (err e) found = err e
note_found listeners name (ok id) found =
    if id == "" then ok found else ok (add_found name (find_listener id listeners) found)

-- The loop over the desired listeners.
unfoldable pub collect_found :
    List VirtualServer → List Model.VirtualServer → Result Found → Result Found
collect_found listeners [] found = found
collect_found listeners (want ∷ desired) (err e) = err e
collect_found listeners (want ∷ desired) (ok found) =
    collect_found listeners desired (
      note_found listeners want.name (VirtualServers.find_unique_by_name listeners want.name) found)

-- The first that carries the id of its VIP.
unfoldable pub with_vip_id : Found → Option VirtualServer
with_vip_id [] = none
with_vip_id ((name, vs) ∷ found) =
    if trim_space vs.vip_port_id != "" then some vs else with_vip_id found

-- The set of the VIP addresses that are shown.
unfoldable pub vip_addresses : Found → List String
vip_addresses [] = []
vip_addresses ((name, vs) ∷ found) =
    let address = trim_space vs.vip_address in
    let rest = vip_addresses found in
    if address == "" || contains address rest then rest else address ∷ rest

-- The only VIP of the address; `err` where there are two.
unfoldable pub match_address : String → String → List Vip → Option Vip → Result (Option Vip)
match_address lb_id address [] matched = ok matched
match_address lb_id address (vip ∷ vips) matched =
    let skip = match_address lb_id address vips matched in
    let take = match_address lb_id address vips (some vip) in
    if trim_space vip.address != address then skip else elim matched [
      | none ↦ take
      | some _ ↦ err (
          errorf
            "recovered virtual server(s) on LB %s map to VIP address %q but multiple VIP IDs share that address; set vip-port-id annotation explicitly"
            (lb_id ∷ address ∷ []))
    ]

-- The listeners, and the id and the address of their VIP.
abbrev pub Recovered : Type 0
Recovered = Found × String × String

abbrev recovered_at : Found → Vip → Recovered
recovered_at found vip = (found, trim_space vip.id, trim_space vip.address)

module _ {W : Type 0} (client : Client W) (lb_id subnet_id : String) (found : Found) where
  by_vip_id : VirtualServer → Option Vip → Cmp W Recovered
  by_vip_id vs (some vip) = pure (recovered_at found vip)
  by_vip_id vs none = raise (
      errorf "virtual server %q references VIP %q that does not exist under LB %s"
        (vs.name ∷ trim_space vs.vip_port_id ∷ lb_id ∷ []))

  the_only_vip : List Vip → Cmp W Recovered
  the_only_vip (vip ∷ []) = pure (recovered_at found vip)
  the_only_vip _ = raise (
      errorf
        "recovered virtual server(s) exist on LB %s but VIP could not be resolved safely; set vip-port-id annotation explicitly"
        (lb_id ∷ []))

  only_vip : Cmp W Recovered
  unfolding the_only_vip
  only_vip = do vips ← Vips.list_vips client lb_id subnet_id; the_only_vip vips

  matched_vip : Option Vip → Cmp W Recovered
  matched_vip (some vip) = pure (recovered_at found vip)
  matched_vip none = only_vip

  by_address : List String → Cmp W Recovered
  by_address [] = only_vip
  by_address (address ∷ []) = do
    vips ← Vips.list_vips client lb_id subnet_id
    matched ← lift (match_address lb_id address vips none)
    matched_vip matched
  by_address _ = raise (
      errorf
        "recovered virtual server(s) exist on LB %s but expose multiple VIP addresses; set vip-port-id annotation explicitly"
        (lb_id ∷ []))

  find_their_vip : Option VirtualServer → Cmp W Recovered
  unfolding by_vip_id
  find_their_vip (some vs) = do
    vips ← Vips.list_vips client lb_id subnet_id
    by_vip_id vs (find_vip (trim_space vs.vip_port_id) vips)
  find_their_vip none = by_address (vip_addresses found)

abbrev pub is_empty : Found → Bool
is_empty [] = true
is_empty (_ ∷ _) = false

-- recoverVirtualServersByName
unfoldable pub recover_virtual_servers_by_name :
    {W : Type 0} → Client W → String → String → List Model.VirtualServer → Cmp W Recovered
unfolding find_their_vip by_address matched_vip only_vip
recover_virtual_servers_by_name client lb_id subnet_id desired = do
  listeners ← call (client.list_virtual_servers lb_id) (listed_virtual_servers lb_id)
  found ← lift (collect_found listeners desired (ok []))
  if is_empty found
      then pure (found, "", "")
      else find_their_vip client lb_id subnet_id found (with_vip_id found)
