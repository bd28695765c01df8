-- ===== src/Ingress.antt =====
-- pkg/ingress/validation.go: the shape that an Ingress must have, and the part of it that is reconciled.
pub mod Routed
use Prim.Native.String.{◌++◌}
use garden_extension_f5_loca.Prelude.{
  Bool, List, Option, String, [], false, if◌then◌else◌, int_eq, nat_eq, none, pos, some, string_eq,
  true, ℕ, ℤ, ◌!=◌, ◌&&◌, ◌+◌, ◌==◌, ◌||◌, ◌∷◌,
}
use garden_extension_f5_loca.Dict.{insert, lookup}
use garden_extension_f5_loca.Exec.{Done, Result, err, errorf, ok}
use garden_extension_f5_loca.Text.{to_lower, trim_space}
use garden_extension_f5_loca.Text.Decimal.{show}

-- What the code reads of a Kubernetes Ingress.
pub record ServiceBackend : Type 0 where
  pub name : String
  pub port_name : String
  pub port_number : ℤ

pub record IngressBackend : Type 0 where
  pub has_resource : Bool
  pub service : Option ServiceBackend

pub record IngressPath : Type 0 where
  pub path : String
  pub path_type : Option String
  pub backend : IngressBackend

pub record IngressRule : Type 0 where
  pub host : String
  pub http : Option (List IngressPath)

pub record IngressTls : Type 0 where
  pub secret_name : String
  pub hosts : List String

pub record Ingress : Type 0 where
  pub rules : List IngressRule
  pub default_backend : Option IngressBackend
  pub tls : List IngressTls

-- backendRef
pub record BackendRef : Type 0 where
  pub service_name : String
  pub port_name : String
  pub port_number : ℤ

-- backendRefFromService
unfoldable pub backend_ref_from_service : ServiceBackend → BackendRef
backend_ref_from_service svc = record {
  service_name = svc.name;
  port_name = svc.port_name;
  port_number = svc.port_number;
}

-- backendRef.equal
unfoldable pub ref_equal : BackendRef → BackendRef → Bool
ref_equal r other =
    r.service_name == other.service_name
    && (r.port_name == other.port_name && r.port_number == other.port_number)

-- backendRef.String
unfoldable pub ref_string : BackendRef → String
ref_string r =
    if r.port_name != ""
    then r.service_name ++ ":" ++ r.port_name
    else r.service_name ++ ":" ++ show r.port_number

-- routeKey
unfoldable pub route_key : String → String → String → String
route_key host path type = to_lower (trim_space host) ++ "|" ++ type ++ "|" ++ path

-- `if err != nil { return err }`
unfoldable pub and_then : {A B : Type 0} → Result A → (A → Result B) → Result B
and_then (ok a) f = f a
and_then (err e) f = err e

-- The routes so far with their backends, and how many backends were seen.
abbrev pub Seen : Type 0
Seen = List (String × BackendRef) × ℕ

-- The checks of one backend.
unfoldable pub check_backend : IngressBackend → Result ServiceBackend
check_backend be =
    if be.has_resource
    then err (errorf "resource backends are not supported" [])
    else elim be.service [
      | none ↦ err (errorf "backend service reference is required" [])
      | some svc ↦
          if trim_space svc.name == ""
          then err (errorf "backend service reference is required" [])
          else if svc.port_name == "" && svc.port_number == pos 0
          then err (errorf "backend service port is required for %s" (svc.name ∷ []))
          else ok svc
    ]

-- A route may come twice for one backend only.
unfoldable pub note_route : String → BackendRef → Seen → Result Seen
note_route key ref (seen, count) = elim (lookup key seen) [
  | none ↦ ok (insert key ref seen, count + 1)
  | some previous ↦
      if ref_equal previous ref
      then ok (insert key ref seen, count + 1)
      else err (
          errorf "conflicting backends for duplicate host/path %q: first=%s current=%s"
            (key ∷ ref_string previous ∷ ref_string ref ∷ []))
]

-- The closure `consume` of validateIngressShape.
unfoldable pub consume : IngressBackend → String → Seen → Result Seen
consume be key s =
    and_then (check_backend be) λ svc. note_route key (backend_ref_from_service svc) s

-- The type of a path, where it is supported.
unfoldable pub check_path_type : IngressPath → Result String
check_path_type p =
    if p.path == "" then err (errorf "ingress path must not be empty" []) else elim p.path_type [
      | none ↦ err (errorf "ingress pathType is required for %s" (p.path ∷ []))
      | some type ↦
          if type == "Exact" || type == "Prefix"
          then ok type
          else if type == "ImplementationSpecific"
          then err (errorf "ImplementationSpecific pathType is not supported for %s" (p.path ∷ []))
          else err (errorf "unsupported pathType for %s" (p.path ∷ []))
    ]

unfoldable pub check_path : String → IngressPath → Seen → Result Seen
check_path host p s =
    and_then (check_path_type p) λ type. consume p.backend (route_key host p.path type) s

unfoldable pub check_paths : String → List IngressPath → Seen → Result Seen
check_paths host [] s = ok s
check_paths host (p ∷ paths) s = and_then (check_path host p s) λ t. check_paths host paths t

unfoldable pub check_rule : IngressRule → Seen → Result Seen
check_rule rule s = elim rule.http [
  | none ↦ err (errorf "non-HTTP ingress rules are not supported" [])
  | some paths ↦ check_paths rule.host paths s
]

unfoldable pub check_rules : List IngressRule → Seen → Result Seen
check_rules [] s = ok s
check_rules (rule ∷ rules) s = and_then (check_rule rule s) λ t. check_rules rules t

unfoldable pub check_default : Option IngressBackend → Seen → Result Seen
check_default none s = ok s
check_default (some be) s = consume be "<default>" s

unfoldable pub check_tls : List IngressTls → Result Done
check_tls [] = ok tt
check_tls (tls ∷ rest) =
    let more = check_tls rest in
    if trim_space tls.secret_name == ""
    then err (errorf "tls.secretName is required when TLS is configured" [])
    else more

-- validateIngressShape, for an Ingress that is not nil.
unfoldable pub validate_ingress_shape : Ingress → Result Done
validate_ingress_shape ing = and_then (check_rules ing.rules ([], 0)) λ s.
    and_then (check_default ing.default_backend s) λ (seen, count).
      and_then (check_tls ing.tls) λ done.
        if count == 0 then err (errorf "at least one service backend is required" []) else ok tt

abbrev Refs : Type 0
Refs = List (String × BackendRef)

-- The closure `consume` of ValidateSupported; the shape has a Service there.
unfoldable pub add_ref : IngressBackend → Refs → Refs
add_ref be refs = elim be.service [
  | none ↦ refs
  | some svc ↦ let ref = backend_ref_from_service svc in insert (ref_string ref) ref refs
]

unfoldable pub path_refs : List IngressPath → Refs → Refs
path_refs [] refs = refs
path_refs (p ∷ paths) refs = path_refs paths (add_ref p.backend refs)

unfoldable pub rule_refs : List IngressRule → Refs → Refs
rule_refs [] refs = refs
rule_refs (rule ∷ rules) refs =
    rule_refs rules (elim rule.http [ none ↦ refs | some paths ↦ path_refs paths refs ])

abbrev all_refs : Ingress → Refs
all_refs ing =
    let refs = rule_refs ing.rules [] in
    elim ing.default_backend [ none ↦ refs | some be ↦ add_ref be refs ]

abbrev at_most_one : Refs → Bool
at_most_one (_ ∷ _ ∷ _) = false
at_most_one _ = true

-- ValidateSupported
unfoldable pub validate_supported : Ingress → Result Done
validate_supported ing = and_then (validate_ingress_shape ing) λ done.
    if at_most_one (all_refs ing)
    then ok tt
    else err (
        errorf
          "multiple backend services or ports require routing-rule and pool deployment support that is not yet enabled"
          [])
