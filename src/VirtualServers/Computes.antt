-- ===== src/VirtualServers/Computes.antt =====
-- resolveBackendPort: the port of a backend's compute that a pool member is attached to.
use mathlib.Core.Path.{subst}
use garden_extension_f5_loca.Prelude.{
  All, Bool-cases, List, Option, Option-cases, String, [], arith, eq_iff, false, inl, inr, int_eq,
  nat_eq, none, not, pos, refl, some, string_eq, true, ◌==◌, ◌||◌, ◌∷◌, ◌≡◌, ◌≢◌, ◌⊎◌,
}
use garden_extension_f5_loca.Cmp.{Client, Compute, ComputePort, NetworkPort}
use garden_extension_f5_loca.Exec.{Result-cases, ok, ◌>>=◌}
use garden_extension_f5_loca.Model.{BackendMember}
use garden_extension_f5_loca.Text.{equal_fold, trim_space}
use garden_extension_f5_loca.VirtualServers.{
  and_then, contains_string, match_port, network_port, resolve_backend_port, select_port,
}

-- A port of the compute that may carry the backend's IP: it lists the IP, has an id, and names no
-- other device.
abbrev pub Carries : String → String → ComputePort → Type 0
Carries compute_id ip port =
    (contains_string ip port.fixed_ips ≡ true)
    × (port.id ≢ pos 0)
    × ((trim_space port.device_id ≡ "") ⊎ (trim_space port.device_id ≡ compute_id))
    × ((trim_space port.device_type ≡ "")
        ⊎ (equal_fold (trim_space port.device_type) "compute" ≡ true))

-- The port does not list the IP, or has no id.
abbrev pub Passes : String → ComputePort → Type 0
Passes ip port = (not (contains_string ip port.fixed_ips) || port.id == pos 0) ≡ true

-- The list has one port that carries the IP, and the others pass.
abbrev pub Only : String → String → ComputePort → List ComputePort → Type 0
Only compute_id ip port [] = ⊥
Only compute_id ip port (p ∷ ports) =
    (Passes ip p × Only compute_id ip port ports)
    ⊎ ((p ≡ port) × Carries compute_id ip port × All (Passes ip) ports)

match_port-taken :
    (compute_id ip : String) (ports : List ComputePort) (a : ComputePort) (r : Option ComputePort)
    → match_port compute_id ip ports (some a) ≡ ok r
    → (r ≡ some a) × All (Passes ip) ports
unfolding match_port
match_port-taken compute_id ip [] a r h = (ground arith, tt)
match_port-taken compute_id ip (p ∷ ports) a r h =
    elim (Bool-cases (not (contains_string ip p.fixed_ips) || p.id == pos 0)) [
      | inl e ↦
          let (same, rest) = match_port-taken compute_id ip ports a r (ground arith) in
          (same, (e, rest))
      | inr e ↦ absurd (ground arith)
    ]

blank_or : (s : String) (P : Type 0) → ((s == "") ≡ false → P) → (s ≡ "") ⊎ P
blank_or s P h = elim (Bool-cases (s == "")) [
  | inl e ↦ inl (ground (arith, eq_iff s ""))
  | inr e ↦ inr (h e)
]

match_port-Carries :
    (compute_id ip : String) (p : ComputePort) (ports : List ComputePort) (r : Option ComputePort)
    → (not (contains_string ip p.fixed_ips) || p.id == pos 0) ≡ false
    → match_port compute_id ip (p ∷ ports) none ≡ ok r
    → Carries compute_id ip p
unfolding match_port
match_port-Carries compute_id ip p ports r e h = (
  ground arith,
  λ q. let port_is : (p.id == pos 0) ≡ true = rw q refl in ground arith,
  blank_or (trim_space p.device_id) _
      (λ n. ground (arith, eq_iff (trim_space p.device_id) compute_id)),
  blank_or (trim_space p.device_type) _ (λ n. ground arith),
)

match_port-Only :
    (compute_id ip : String) (ports : List ComputePort) (a : ComputePort)
    → match_port compute_id ip ports none ≡ ok (some a)
    → Only compute_id ip a ports
unfolding match_port
match_port-Only compute_id ip [] a h = cc
match_port-Only compute_id ip (p ∷ ports) a h =
    elim (Bool-cases (not (contains_string ip p.fixed_ips) || p.id == pos 0)) [
      | inl e ↦ inl (e, match_port-Only compute_id ip ports a (ground arith))
      | inr e ↦
          let (same, rest) = match_port-taken compute_id ip ports p (some a) (ground arith) in
          let p_is : p ≡ a = ground arith in
          let carries = match_port-Carries compute_id ip p ports (some a) e h in
          inr (p_is, subst (Carries compute_id ip) p_is carries, rest)
    ]

abbrev pub IsFound : String → String → String → String → Compute → NetworkPort → Type 0
IsFound own_vpc region compute_id ip compute port =
    ((trim_space own_vpc ≡ "") ⊎ (trim_space compute.vpc_id ≡ trim_space own_vpc))
    × ((trim_space region ≡ "")
        ⊎ (equal_fold (trim_space compute.region) (trim_space region) ≡ true))
    × ((p : ComputePort) × Only compute_id ip p compute.ports × (port.id ≡ p.id))

network_port-Only :
    (compute : Compute) (compute_id ip : String) (port : NetworkPort)
    → and_then (match_port compute_id ip compute.ports none) (network_port compute compute_id ip)
      ≡ ok port
    → (p : ComputePort) × Only compute_id ip p compute.ports × (port.id ≡ p.id)
unfolding network_port
network_port-Only compute compute_id ip port h =
    elim (Result-cases (match_port compute_id ip compute.ports none)) [
      | inl (o, q) ↦ elim (Option-cases o) [
        | inr (p, r) ↦
            (p, match_port-Only compute_id ip compute.ports p (ground arith), ground arith)
        | inl r ↦ absurd (ground arith)
      ]
      | inr (x, q) ↦ absurd (ground arith)
    ]

select_port-IsFound :
    (own_vpc region compute_id ip : String) (compute : Compute) (port : NetworkPort)
    → select_port own_vpc region compute_id ip compute ≡ ok port
    → IsFound own_vpc region compute_id ip compute port
unfolding select_port network_port
select_port-IsFound own_vpc region compute_id ip compute port h = (
  blank_or (trim_space own_vpc) _
      (λ n. ground (arith, eq_iff (trim_space compute.vpc_id) (trim_space own_vpc))),
  blank_or (trim_space region) _ (λ n. ground arith),
  network_port-Only compute compute_id ip port (ground arith),
)

-- A backend is resolved only through its compute as CMP answers it. The compute is in the manager's
-- VPC and in the region, where these are given; and of its ports exactly one that has an id lists the
-- backend's IP, which names no other device. Its id is the resolved one.
pub resolve_backend_port-IsFound :
    {W : Type 0} (client : Client W) (own_vpc : String) (backend : BackendMember) (region : String)
    (w : W) (port : NetworkPort)
    → (resolve_backend_port client own_vpc backend region w).reply ≡ ok port
    → (trim_space backend.compute_id ≢ "")
      × (compute : Compute) × ((client.get_compute (trim_space backend.compute_id) w).0
          ≡ ok compute)
      × IsFound own_vpc region (trim_space backend.compute_id) (trim_space backend.ip) compute port
unfolding resolve_backend_port ◌>>=◌
resolve_backend_port-IsFound client own_vpc backend region w port h =
    let id = trim_space backend.compute_id in
    elim (Result-cases (client.get_compute id w).0) [
      | inl (compute, q) ↦ (
        ground (arith, eq_iff id ""),
        compute,
        q,
        select_port-IsFound own_vpc region id (trim_space backend.ip) compute port (ground arith),
      )
      | inr (x, q) ↦ absurd (ground arith)
    ]
