-- ===== src/Tests/Parents.antt =====
-- Examples of the LB service and VIP managers.
use garden_extension_f5_loca.LbServices
use garden_extension_f5_loca.Vips
use garden_extension_f5_loca.Prelude.{All, String, [], false, pos, refl, true, ◌∷◌, ◌≡◌, ◌≢◌}
use garden_extension_f5_loca.Exec.{Exec, err, http_status, ◌>>=◌}
use garden_extension_f5_loca.LbServices.{
  EnsureRequest, find_unique_by_name, is_failed_status, is_ready_status, validate_placement,
  validate_readiness,
}
use garden_extension_f5_loca.LbServices.Mutations.{
  CreatesAbsent, IsRead, OnlyDeletes, ensure-CreatesAbsent, ensure-OnlyDeletes,
  ensure_strict-IsRead,
}
use garden_extension_f5_loca.LbServices.Readiness.{
  find_unique_by_name-eq-select_unique, select_unique,
}
use garden_extension_f5_loca.LbServices.Verified.{EndsVerified, ensure-verified}
use garden_extension_f5_loca.Tests.{client_a, differ, lb_a, lb_failed}
use garden_extension_f5_loca.Text.{equal_fold, trim_space}
use garden_extension_f5_loca.Vips.{ensure}
use garden_extension_f5_loca.Vips.Laws.{
  DeletesRecorded, Reads, Source, ensure-DeletesRecorded, ensure-Source, ensure_strict-Reads,
}

abbrev request : EnsureRequest
request = record {
  lb_name = "edge";
  lb_description = "";
  flavor_id = pos 2;
  network_id = "net-1";
  vpc_id = "vpc-1";
  vpc_name = "main";
  region = "North";
}

ensure-verified_example :
    EndsVerified request "lb-1" (LbServices.ensure client_a "vpc-1" request " lb-1 " false 0).trace
unfolding LbServices.ensure trim_space garden_extension_f5_loca.Exec.◌>>=◌
    LbServices.validate_placement garden_extension_f5_loca.Text.equal_fold
    LbServices.validate_readiness LbServices.is_failed_status LbServices.is_ready_status
ensure-verified_example =
    ensure-verified client_a "vpc-1" request " lb-1 " false 0 "lb-1" false refl

ensure-CreatesAbsent_example :
    CreatesAbsent "" false (LbServices.ensure client_a "vpc-1" request "lb-2" false 0).trace
ensure-CreatesAbsent_example = ensure-CreatesAbsent client_a "vpc-1" request "lb-2" false 0

ensure-OnlyDeletes_example :
    All (OnlyDeletes "lb-2") (LbServices.ensure client_a "vpc-1" request "lb-2" false 0).trace
unfolding garden_extension_f5_loca.Text.trim_space
ensure-OnlyDeletes_example = ensure-OnlyDeletes client_a "vpc-1" request "lb-2" false 0

ensure_strict-IsRead_example :
    All IsRead (LbServices.ensure client_a "vpc-1" request "lb-2" true 0).trace
unfolding trim_space
ensure_strict-IsRead_example =
    ensure_strict-IsRead client_a "vpc-1" request "lb-2" 0 (differ _ _ refl)

find_unique_by_name-eq-select_unique_example :
    LbServices.find_unique_by_name (lb_failed ∷ lb_a ∷ []) " edge"
    ≡ select_unique "edge" ("lb-2" ∷ "lb-1" ∷ [])
unfolding garden_extension_f5_loca.Text.trim_space
find_unique_by_name-eq-select_unique_example =
    find_unique_by_name-eq-select_unique (lb_failed ∷ lb_a ∷ []) " edge"

ensure-DeletesRecorded_example :
    All
      (DeletesRecorded "lb-1" "vip-9")
      (Vips.ensure client_a "lb-1" "net-1" "vip-9" "" false 0).trace
unfolding garden_extension_f5_loca.Text.trim_space
ensure-DeletesRecorded_example = ensure-DeletesRecorded client_a "lb-1" "net-1" "vip-9" "" false 0

ensure_strict-Reads_example :
    All Reads (Vips.ensure client_a "lb-1" "net-1" "vip-9" "" true 0).trace
ensure_strict-Reads_example = ensure_strict-Reads client_a "lb-1" "net-1" "vip-9" "" 0

ensure-Source_example :
    (◌≢◌ {A = String} "vip-1" "") × Source client_a "lb-1" "net-1" "vip-1" true 0 "vip-1"
unfolding ensure trim_space ◌>>=◌ Vips.find_vip Vips.validate_vip equal_fold
ensure-Source_example =
    ensure-Source client_a "lb-1" "net-1" "vip-1" "10.0.0.7" true 0 "vip-1" "10.0.0.7" false refl
