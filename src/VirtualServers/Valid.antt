-- ===== src/VirtualServers/Valid.antt =====
-- validateVirtualServer: what a listener that passes the checks has.
use garden_extension_f5_loca.Prelude.{
  Bool, List, String, [], arith, eq_iff, false, if◌then◌else◌, int_beq_iff, int_eq, nat_eq, not,
  pos, refl, string_eq, true, ℤ, ◌!=◌, ◌&&◌, ◌==◌, ◌||◌, ◌∷◌, ◌≡◌, ◌⊎◌,
}
use garden_extension_f5_loca.Cmp.{VirtualServer}
use garden_extension_f5_loca.Exec.{Done, Error, Result, err, ok}
use garden_extension_f5_loca.Nodes.Targets.{IsAmong}
use garden_extension_f5_loca.Text.{equal_fold, to_lower, trim_space}
use garden_extension_f5_loca.VirtualServers.{EnsureRequest, validate_virtual_server}

-- The statuses of a listener that serves.
abbrev serving : List String
serving = "active" ∷ "created" ∷ "ready" ∷ "available" ∷ "online" ∷ []

-- The listener has the desired VIP, port and protocol, where it gives them, and serves.
abbrev pub IsValid : EnsureRequest → VirtualServer → Type 0
IsValid req vs =
    ((trim_space vs.vip_port_id ≡ "") ⊎ (trim_space vs.vip_port_id ≡ trim_space req.vip_port_id))
    × ((vs.port ≡ pos 0) ⊎ (vs.port ≡ req.desired.frontend_port))
    × ((trim_space vs.protocol ≡ "") ⊎ (equal_fold vs.protocol req.desired.protocol ≡ true))
    × IsAmong (to_lower (trim_space vs.status)) serving

is_serving :
    (status : String)
    → (status == "active"
        || (status == "created"
            || (status == "ready" || (status == "available" || status == "online"))))
      ≡ true
    → IsAmong status serving
is_serving status h = ground (
  arith,
  eq_iff status "active",
  eq_iff status "created",
  eq_iff status "ready",
  eq_iff status "available",
  eq_iff status "online",
)

-- A check that lets a listener pass does not hold of it, and the checks after it let it pass as well.
passed :
    (c : Bool) (e : Error) (next : Result Done)
    → (if c then err e else next) ≡ ok tt
    → (c ≡ false) × (next ≡ ok tt)
passed true e next h = absurd (ground arith)
passed false e next h = (refl, h)

passed_last :
    (c d : Bool) (e f : Error)
    → (if c then ok tt else if d then err e else err f) ≡ ok tt
    → c ≡ true
passed_last true d e f h = refl
passed_last false true e f h = absurd (ground arith)
passed_last false false e f h = absurd (ground arith)

same_vip : (a b : String) → (a != "" && (a != b)) ≡ false → (a ≡ "") ⊎ (a ≡ b)
same_vip a b h = ground (arith, eq_iff a "", eq_iff a b)

same_port : (a b : ℤ) → ((a != pos 0) && (a != b)) ≡ false → (a ≡ pos 0) ⊎ (a ≡ b)
same_port a b h = ground (arith, int_beq_iff a (pos 0), int_beq_iff a b)

same_protocol :
    (a : String) (same : Bool) → (a != "" && not same) ≡ false → (a ≡ "") ⊎ (same ≡ true)
same_protocol a same h = ground (arith, eq_iff a "")

pub validate_virtual_server-IsValid :
    (req : EnsureRequest) (vs : VirtualServer)
    → validate_virtual_server vs req.vip_port_id req.desired ≡ ok tt
    → IsValid req vs
unfolding validate_virtual_server
validate_virtual_server-IsValid req vs h =
    let (vip, h) = passed _ _ _ h in
    let (port, h) = passed _ _ _ h in
    let (protocol, h) = passed _ _ _ h in
    (
      same_vip _ _ vip,
      same_port _ _ port,
      same_protocol _ _ protocol,
      is_serving _ (passed_last _ _ _ _ h),
    )
