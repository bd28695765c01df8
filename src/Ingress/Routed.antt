-- ===== src/Ingress/Routed.antt =====
-- validateIngressShape: what an accepted Ingress looks like.
use mathlib.Core.Path.{subst}
use garden_extension_f5_loca.Prelude.{
  All, All-imp, Bool, List, Option, String, [], arith, eq_iff, false, if◌then◌else◌, int_beq_iff,
  int_eq, nat_eq, none, pos, refl, some, string_eq, true, ◌&&◌, ◌==◌, ◌||◌, ◌∷◌, ◌≡◌, ◌≢◌, ◌⊎◌,
}
use garden_extension_f5_loca.Dict.{insert, lookup, lookup-insert}
use garden_extension_f5_loca.Exec.{Done, Result, err, ok}
use garden_extension_f5_loca.Exec.Ensures.{Returns, Returns-imp}
use garden_extension_f5_loca.Ingress.{
  BackendRef, Ingress, IngressBackend, IngressPath, IngressRule, IngressTls, Seen, ServiceBackend,
  and_then, backend_ref_from_service, check_backend, check_default, check_path, check_path_type,
  check_paths, check_rule, check_rules, check_tls, consume, note_route, ref_equal, route_key,
  validate_ingress_shape,
}
use garden_extension_f5_loca.Text.{trim_space}

abbrev Routes : Type 0
Routes = List (String × BackendRef)

-- Every route keeps its backend.
abbrev Extends : Routes → Routes → Type 0
Extends s t = (k : String) (r : BackendRef) → lookup k s ≡ some r → lookup k t ≡ some r

-- The backend is a named Service.
abbrev IsService : IngressBackend → ServiceBackend → Type 0
IsService be svc = (be.service ≡ some svc) × (trim_space svc.name ≢ "")

-- The route leads to this backend.
abbrev IsSent : Routes → String → IngressBackend → Type 0
IsSent t key be =
    (svc : ServiceBackend) × IsService be svc × (lookup key t ≡ some (backend_ref_from_service svc))

-- The path is not empty, is of a supported type, and its route leads to its backend.
abbrev IsServed : Routes → String → IngressPath → Type 0
IsServed t host p =
    (p.path ≢ "")
    × (type : String) × (p.path_type ≡ some type)
    × ((type ≡ "Exact") ⊎ (type ≡ "Prefix"))
    × IsSent t (route_key host p.path type) p.backend

abbrev IsHttp : Routes → IngressRule → Type 0
IsHttp t rule =
    (paths : List IngressPath) × (rule.http ≡ some paths) × All (IsServed t rule.host) paths

abbrev pub IsAccepted : Ingress → Type 0
IsAccepted ing =
    (t : Routes) × All (IsHttp t) ing.rules
    × ((be : IngressBackend) → ing.default_backend ≡ some be → IsSent t "<default>" be)
    × All (λ (tls : IngressTls). trim_space tls.secret_name ≢ "") ing.tls

module _ {A B : Type 0} (Q : B → Type 0) where
  Returns-and_then :
      (R : A → Type 0) (r : Result A) (f : A → Result B)
      → Returns R r
      → ((a : A) → R a → Returns Q (f a))
      → Returns Q (and_then r f)
  unfolding and_then
  Returns-and_then R (ok a) f h k = k a h
  Returns-and_then R (err e) f h k = tt

module _ {B : Type 0} (Q : B → Type 0) where
  Returns-if :
      (b : Bool) (x y : Result B)
      → (b ≡ true → Returns Q x)
      → (b ≡ false → Returns Q y)
      → Returns Q (if b then x else y)
  Returns-if true x y h k = h refl
  Returns-if false x y h k = k refl

module _ {A B : Type 0} (Q : B → Type 0) where
  Returns-option :
      (o : Option A) (x : Result B) (f : A → Result B)
      → (o ≡ none → Returns Q x)
      → ((a : A) → o ≡ some a → Returns Q (f a))
      → Returns Q (elim o [ none ↦ x | some a ↦ f a ])
  Returns-option none x f h k = h refl
  Returns-option (some a) x f h k = k a refl

ref_equal-eq : (r other : BackendRef) → ref_equal r other ≡ true → r ≡ other
unfolding ref_equal
ref_equal-eq r other h = ground (
  arith,
  eq_iff r.service_name other.service_name,
  eq_iff r.port_name other.port_name,
  int_beq_iff r.port_number other.port_number,
)

check_backend-IsService : (be : IngressBackend) → Returns (IsService be) (check_backend be)
unfolding check_backend
check_backend-IsService be =
    Returns-if (IsService be) be.has_resource _ _ (λ e. tt)
      λ e.
        Returns-option (IsService be) be.service _ _ (λ n. tt)
          λ svc found.
            Returns-if (IsService be) (trim_space svc.name == "") _ _ (λ b. tt)
              λ named.
                Returns-if (IsService be) (svc.port_name == "" && svc.port_number == pos 0) _ _
                  (λ b. tt) λ b. (found, λ blank. ground (arith, eq_iff (trim_space svc.name) ""))

insert-Extends :
    (key : String) (ref : BackendRef) (s : Routes)
    → ((r : BackendRef) → lookup key s ≡ some r → r ≡ ref)
    → Extends s (insert key ref s) × (lookup key (insert key ref s) ≡ some ref)
insert-Extends key ref s h = (
  λ k r e. ground (arith, lookup-insert key k ref s, eq_iff key k, h r),
  ground (arith, lookup-insert key key ref s, eq_iff key key),
)

note_route-Extends :
    (key : String) (ref : BackendRef) (s : Seen)
    → Returns (λ (t : Seen). Extends s.0 t.0 × (lookup key t.0 ≡ some ref)) (note_route key ref s)
unfolding note_route
note_route-Extends key ref (seen, count) =
    let Q = λ (t : Seen). Extends seen t.0 × (lookup key t.0 ≡ some ref) in
    Returns-option Q (lookup key seen) _ _
      (λ n. insert-Extends key ref seen λ r e. absurd (ground arith))
      λ previous found.
        Returns-if Q (ref_equal previous ref) _ _
          (λ same.
            insert-Extends key ref seen λ r e. ground (arith, ref_equal-eq previous ref same))
          λ e. tt

-- The routes after a step keep what was there, and what the step did holds.
abbrev Reaches : Seen → (Routes → Type 0) → Seen → Type 0
Reaches s P t = Extends s.0 t.0 × P t.0

consume-IsSent :
    (be : IngressBackend) (key : String) (s : Seen)
    → Returns (Reaches s (λ t. IsSent t key be)) (consume be key s)
unfolding consume
consume-IsSent be key s =
    Returns-and_then (Reaches s (λ t. IsSent t key be)) (IsService be) (check_backend be) _
      (check_backend-IsService be)
      λ svc is.
        Returns-imp
          (λ (t : Seen). Extends s.0 t.0 × (lookup key t.0 ≡ some (backend_ref_from_service svc)))
          (note_route key (backend_ref_from_service svc) s) (λ t (e, l). (e, (svc, is, l)))
          (note_route-Extends key (backend_ref_from_service svc) s)

-- The path has this type, which is supported.
abbrev HasType : IngressPath → String → Type 0
HasType p type = (p.path ≢ "") × (p.path_type ≡ some type) × ((type ≡ "Exact") ⊎ (type ≡ "Prefix"))

check_path_type-HasType : (p : IngressPath) → Returns (HasType p) (check_path_type p)
unfolding check_path_type
check_path_type-HasType p =
    Returns-if (HasType p) (p.path == "") _ _ (λ e. tt)
      λ e.
        Returns-option (HasType p) p.path_type _ _ (λ n. tt)
          λ type found.
            Returns-if (HasType p) (type == "Exact" || type == "Prefix") _ _
              (λ b. (
                λ blank. ground (arith, eq_iff p.path ""),
                found,
                ground (arith, eq_iff type "Exact", eq_iff type "Prefix"),
              ))
              λ b. Returns-if (HasType p) (type == "ImplementationSpecific") _ _ (λ e. tt) λ e. tt

check_path-IsServed :
    (host : String) (p : IngressPath) (s : Seen)
    → Returns (Reaches s (λ t. IsServed t host p)) (check_path host p s)
unfolding check_path
check_path-IsServed host p s =
    Returns-and_then (Reaches s (λ t. IsServed t host p)) (HasType p) (check_path_type p) _
      (check_path_type-HasType p)
      λ type (path, is, known).
        Returns-imp (Reaches s (λ t. IsSent t (route_key host p.path type) p.backend))
          (consume p.backend (route_key host p.path type) s)
          (λ t (e, sent). (e, (path, type, is, known, sent)))
          (consume-IsSent p.backend (route_key host p.path type) s)

IsSent-Extends :
    (s t : Routes) (key : String) (be : IngressBackend)
    → Extends s t
    → IsSent s key be
    → IsSent t key be
IsSent-Extends s t key be e (svc, is, l) = (svc, is, e key _ l)

IsServed-Extends :
    (s t : Routes) (host : String) (p : IngressPath)
    → Extends s t
    → IsServed s host p
    → IsServed t host p
IsServed-Extends s t host p e (path, type, is, known, sent) =
    (path, type, is, known, IsSent-Extends s t _ p.backend e sent)

-- A step after a step: what the first did still holds.
module _ (P R : Routes → Type 0) (keeps : (s t : Routes) → Extends s t → P s → P t) where
  Reaches-then :
      (s : Seen) (r : Result Seen) (f : Seen → Result Seen)
      → Returns (Reaches s P) r
      → ((t : Seen) → Returns (Reaches t R) (f t))
      → Returns (Reaches s (λ t. P t × R t)) (and_then r f)
  Reaches-then s r f h k =
      Returns-and_then (Reaches s (λ t. P t × R t)) (Reaches s P) r f h λ t (e, p).
        Returns-imp (Reaches t R) (f t)
          (λ u (e', q). ((λ k r l. e' k r (e k r l)), (keeps t.0 u.0 e' p, q))) (k t)

check_paths-IsServed :
    (host : String) (paths : List IngressPath) (s : Seen)
    → Returns (Reaches s (λ t. All (IsServed t host) paths)) (check_paths host paths s)
unfolding check_paths
check_paths-IsServed host [] s = ((λ k r l. l), tt)
check_paths-IsServed host (p ∷ paths) s =
    Reaches-then (λ t. IsServed t host p) (λ t. All (IsServed t host) paths)
      (λ s t e. IsServed-Extends s t host p e) s (check_path host p s) _
      (check_path-IsServed host p s) (check_paths-IsServed host paths)

check_rule-IsHttp :
    (rule : IngressRule) (s : Seen) → Returns (Reaches s (λ t. IsHttp t rule)) (check_rule rule s)
unfolding check_rule
check_rule-IsHttp rule s =
    Returns-option (Reaches s (λ t. IsHttp t rule)) rule.http _ _ (λ n. tt)
      λ paths found.
        Returns-imp (Reaches s (λ t. All (IsServed t rule.host) paths))
          (check_paths rule.host paths s) (λ t (e, all). (e, (paths, found, all)))
          (check_paths-IsServed rule.host paths s)

IsHttp-Extends : (s t : Routes) (rule : IngressRule) → Extends s t → IsHttp s rule → IsHttp t rule
IsHttp-Extends s t rule e (paths, found, all) = (
  paths,
  found,
  All-imp (IsServed s rule.host) (IsServed t rule.host) paths
      (λ p. IsServed-Extends s t rule.host p e) all,
)

check_rules-IsHttp :
    (rules : List IngressRule) (s : Seen)
    → Returns (Reaches s (λ t. All (IsHttp t) rules)) (check_rules rules s)
unfolding check_rules
check_rules-IsHttp [] s = ((λ k r l. l), tt)
check_rules-IsHttp (rule ∷ rules) s =
    Reaches-then (λ t. IsHttp t rule) (λ t. All (IsHttp t) rules)
      (λ s t e. IsHttp-Extends s t rule e) s (check_rule rule s) _ (check_rule-IsHttp rule s)
      (check_rules-IsHttp rules)

some_injective : {A : Type 0} (a b : A) → some a ≡ some b → a ≡ b
some_injective a b h = cc

abbrev IsDefault : Option IngressBackend → Routes → Type 0
IsDefault default t = (be : IngressBackend) → default ≡ some be → IsSent t "<default>" be

check_default-IsDefault :
    (default : Option IngressBackend) (s : Seen)
    → Returns (Reaches s (IsDefault default)) (check_default default s)
unfolding check_default
check_default-IsDefault none s = ((λ k r l. l), λ be e. absurd (ground arith))
check_default-IsDefault (some b) s =
    Returns-imp (Reaches s (λ t. IsSent t "<default>" b)) (consume b "<default>" s)
      (λ t (e, sent).
        (e, λ be same. subst (IsSent t.0 "<default>") (some_injective b be same) sent))
      (consume-IsSent b "<default>" s)

abbrev IsNamed : IngressTls → Type 0
IsNamed tls = trim_space tls.secret_name ≢ ""

check_tls-IsNamed : (tls : List IngressTls) → Returns (λ d. All IsNamed tls) (check_tls tls)
unfolding check_tls
check_tls-IsNamed [] = tt
check_tls-IsNamed (t ∷ tls) =
    Returns-if (λ d. All IsNamed (t ∷ tls)) (trim_space t.secret_name == "") _ _ (λ e. tt)
      λ e.
        Returns-imp (λ d. All IsNamed tls) (check_tls tls)
          (λ d all. ((λ blank. ground (arith, eq_iff (trim_space t.secret_name) "")), all))
          (check_tls-IsNamed tls)

validate-IsAccepted : (ing : Ingress) → Returns (λ d. IsAccepted ing) (validate_ingress_shape ing)
unfolding validate_ingress_shape
validate-IsAccepted ing =
    let Q = λ (d : Done). IsAccepted ing in
    Returns-and_then Q (Reaches ([], 0) (λ t. All (IsHttp t) ing.rules))
      (check_rules ing.rules ([], 0)) _ (check_rules-IsHttp ing.rules ([], 0))
      λ s (e, rules).
        Returns-and_then Q (Reaches s (IsDefault ing.default_backend))
          (check_default ing.default_backend s) _ (check_default-IsDefault ing.default_backend s)
          λ t (e', default).
            Returns-and_then Q (λ d. All IsNamed ing.tls) (check_tls ing.tls) _
              (check_tls-IsNamed ing.tls)
              λ d named.
                Returns-if Q (t.1 == 0) _ _ (λ b. tt)
                  λ b. (
                    t.0,
                    All-imp (IsHttp s.0) (IsHttp t.0) ing.rules
                        (λ rule. IsHttp-Extends s.0 t.0 rule e') rules,
                    default,
                    named,
                  )

-- An Ingress whose shape is accepted has HTTP rules only, and every path of them is not empty and of type Exact or
-- Prefix. There is one table of routes by host, type and path to which every path agrees, and the
-- default backend with its own entry: no two paths of one route have different backends. Every
-- backend is a named Service, and every TLS entry names its secret.
pub validate_ingress_shape-IsAccepted :
    (ing : Ingress) → validate_ingress_shape ing ≡ ok tt → IsAccepted ing
validate_ingress_shape-IsAccepted ing h =
    subst (Returns (λ d. IsAccepted ing)) h (validate-IsAccepted ing)
