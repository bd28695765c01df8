-- ===== src/LbServices/Readiness.antt =====
-- When an LB service counts as ready, and which one a name selects.
use garden_extension_f5_loca.Prelude.{
  List, String, [], arith, eq_iff, if◌then◌else◌, int_eq, nat_eq, refl, string_eq, true, ◌!=◌, ◌&&◌,
  ◌==◌, ◌↔◌, ◌∷◌, ◌≡◌, ◌≢◌, ◌⊎◌,
}
use garden_extension_f5_loca.Prelude.{Bool, false}
use garden_extension_f5_loca.Cmp.{LbService}
use garden_extension_f5_loca.Exec.{Done, Result, err, errorf, ok, pending, terminal}
use garden_extension_f5_loca.LbServices.{
  find_from, find_unique_by_name, is_failed_status, is_ready_status, validate_readiness,
}
use garden_extension_f5_loca.Text.{to_lower, trim_space}

-- The ids, trimmed, of the services that carry the name and have an id.
abbrev pub matching_ids : String → List LbService → List String
matching_ids name [] = []
matching_ids name (svc ∷ items) =
    let rest = matching_ids name items in
    if trim_space svc.name == name && (trim_space svc.id != "")
    then trim_space svc.id ∷ rest
    else rest

-- None is the empty id, one is that one, more are refused.
abbrev pub select_unique : String → List String → Result String
select_unique name [] = ok ""
select_unique name (id ∷ []) = ok id
select_unique name (_ ∷ _) =
    err (errorf "multiple LB services named %q found; refusing ambiguous adoption" (name ∷ []))

find_from-found :
    (name found : String) (items : List LbService)
    → found ≢ ""
    → find_from name found items ≡ select_unique name (found ∷ matching_ids name items)
unfolding find_from
find_from-found name found [] n = refl
find_from-found name found (svc ∷ items) n =
    ground
      (arith, find_from-found name found items n, eq_iff found "", eq_iff (trim_space svc.id) "")

find_from-empty :
    (name : String) (items : List LbService)
    → find_from name "" items ≡ select_unique name (matching_ids name items)
unfolding find_from
find_from-empty name [] = refl
find_from-empty name (svc ∷ items) = ground (
  arith,
  find_from-empty name items,
  find_from-found name (trim_space svc.id) items,
  eq_iff (trim_space svc.id) "",
)

-- The search by name returns the id of the only match, the empty id where nothing matches, and an
-- error where two services with an id share the name.
pub find_unique_by_name-eq-select_unique :
    (items : List LbService) (name : String)
    → find_unique_by_name items name
      ≡ select_unique (trim_space name) (matching_ids (trim_space name) items)
unfolding find_unique_by_name
find_unique_by_name-eq-select_unique items name = find_from-empty (trim_space name) items

abbrev status_of : LbService → String
status_of svc = to_lower (trim_space svc.status)

abbrev op_status_of : LbService → String
op_status_of svc = to_lower (trim_space svc.operating_status)

abbrev pub HasFailed : LbService → Type 0
HasFailed svc =
    (is_failed_status (status_of svc) ≡ true) ⊎ (is_failed_status (op_status_of svc) ≡ true)

abbrev pub ReportsReady : LbService → Type 0
ReportsReady svc =
    (is_ready_status (status_of svc) ≡ true) ⊎ (is_ready_status (op_status_of svc) ≡ true)

abbrev pub is_terminal_answer : Result Done → Bool
is_terminal_answer (err (terminal p)) = true
is_terminal_answer _ = false

abbrev pub is_pending_answer : Result Done → Bool
is_pending_answer (err (pending p)) = true
is_pending_answer _ = false

-- The three answers about a service that has an id: terminal, ready or pending.
pub record Classified (svc : LbService) : Type 0 where
  pub terminal_iff : (is_terminal_answer (validate_readiness svc) ≡ true) ↔ HasFailed svc
  pub ready_iff : (validate_readiness svc ≡ ok tt) ↔ (¬ (HasFailed svc) × ReportsReady svc)
  pub pending_iff :
      (is_pending_answer (validate_readiness svc) ≡ true)
      ↔ (¬ (HasFailed svc) × ¬ (ReportsReady svc))

-- A service with an id is terminal exactly when one of its two statuses is a failure, ready exactly
-- when none is and one is a ready and pending exactly when neither holds.
pub validate_readiness-Classified : (svc : LbService) → trim_space svc.id ≢ "" → Classified svc
unfolding validate_readiness
validate_readiness-Classified svc n = record {
  terminal_iff = ground (arith, eq_iff (trim_space svc.id) "");
  ready_iff = ground (arith, eq_iff (trim_space svc.id) "");
  pending_iff = ground (arith, eq_iff (trim_space svc.id) "");
}
