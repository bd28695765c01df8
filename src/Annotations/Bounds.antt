-- ===== src/Annotations/Bounds.antt =====
-- parseAnnotations: what the configuration is within.
use garden_extension_f5_loca.Prelude.{
  All, Bool-cases, List, Option, Option-cases, String, [], arith, eq_iff, inl, inr, int_eq, nat_eq,
  negsuc, none, pos, refl, some, string_eq, to_int32, true, ℕ, ℤ, ◌==◌, ◌∷◌, ◌≡◌, ◌≢◌, ◌≤◌, ◌⊎◌,
}
use garden_extension_f5_loca.Annotations.{
  LbConfig, default_lb_config, health_path_key, health_type_key, health_type_or, is_port, nonblank,
  number_or, parse_annotations, parse_object, protocol_or, source_ranges_key,
}
use garden_extension_f5_loca.Dict.{lookup_text}
use garden_extension_f5_loca.Text.{to_lower, to_upper, trim_space}
use garden_extension_f5_loca.Text.Laws.{trim_space_idem}
use garden_extension_f5_loca.Text.Number.{atoi}

abbrev pub IsPort : ℤ → Type 0
IsPort i = (n : ℕ) × (i ≡ pos n) × (n ≤ 65535)

accepted-IsPort : (i : ℤ) → is_port i ≡ true → IsPort (to_int32 i)
unfolding to_int32
accepted-IsPort (pos n) h = (n, ground arith, ground arith)
accepted-IsPort (negsuc n) h = ground arith

number_or-IsPort : (v : String) (old : ℤ) → IsPort old → IsPort (number_or is_port v old)
unfolding number_or
number_or-IsPort v old h = elim (Bool-cases (v == "")) [
  | inl e ↦ rw e h
  | inr e ↦ elim (Option-cases (atoi v)) [
    | inl q ↦ rw (e, q) h
    | inr (i, q) ↦ elim (Bool-cases (is_port i)) [
      | inl a ↦ rw (e, q, a) (accepted-IsPort i a)
      | inr a ↦ rw (e, q, a) h
    ]
  ]
]

abbrev pub IsHealthType : String → Type 0
IsHealthType t = (t ≡ "tcp") ⊎ (t ≡ "http")

abbrev pub IsProtocol : String → Type 0
IsProtocol p = (p ≡ "") ⊎ ((p ≡ "TCP") ⊎ ((p ≡ "UDP") ⊎ ((p ≡ "HTTP") ⊎ (p ≡ "HTTPS"))))

health_type_or-IsHealthType :
    (v old : String) → IsHealthType old → IsHealthType (health_type_or v old)
unfolding health_type_or
health_type_or-IsHealthType v old h =
    ground (arith, eq_iff (to_lower v) "tcp", eq_iff (to_lower v) "http")

protocol_or-IsProtocol : (v old : String) → IsProtocol old → IsProtocol (protocol_or v old)
unfolding protocol_or
protocol_or-IsProtocol v old h = ground (
  arith,
  eq_iff (to_upper v) "TCP",
  eq_iff (to_upper v) "UDP",
  eq_iff (to_upper v) "HTTP",
  eq_iff (to_upper v) "HTTPS",
)

-- A text without blanks around it.
abbrev pub IsClean : String → Type 0
IsClean s = (s ≢ "") × (trim_space s ≡ s)

nonblank-IsClean : (parts : List String) → All IsClean (nonblank parts)
unfolding nonblank
nonblank-IsClean [] = tt
nonblank-IsClean (part ∷ parts) = elim (Bool-cases (trim_space part == "")) [
  | inl e ↦ rw e (nonblank-IsClean parts)
  | inr e ↦
      rw e (
        (ground (arith, eq_iff (trim_space part) ""), trim_space_idem part),
        nonblank-IsClean parts,
      )
]

-- A path for the health check goes with the type `http`; the port, the type and the protocol are ones
-- that CMP knows.
abbrev pub IsWithin : LbConfig → Type 0
IsWithin cfg =
    IsPort cfg.health_port
    × IsHealthType cfg.health_type
    × IsProtocol cfg.protocol_override
    × (cfg.health_path ≢ "" → cfg.health_type ≡ "http")

parse_annotations-IsWithin :
    (cfg : LbConfig) (ann : List (String × String))
    → cfg.health_path ≡ ""
    → IsWithin cfg
    → IsWithin (parse_annotations cfg ann)
unfolding parse_annotations
parse_annotations-IsWithin cfg ann p (port, type, protocol, path) =
    let v = trim_space (lookup_text health_path_key ann) in
    let t = trim_space (lookup_text health_type_key ann) in
    let kept = health_type_or-IsHealthType t cfg.health_type type in
    (
      number_or-IsPort _ cfg.health_port port,
      ground (arith, eq_iff (health_type_or t cfg.health_type) "tcp"),
      protocol_or-IsProtocol _ cfg.protocol_override protocol,
      λ n. ground (arith, eq_iff (health_type_or t cfg.health_type) "tcp", eq_iff v "", n, p),
    )

-- Whatever the annotations say, the configuration of an object has a health-check port of at most 65535, the
-- health-check type tcp or http, no protocol or one of TCP, UDP, HTTP and HTTPS, a path only
-- for the type http, and source ranges that are not blank and trimmed.
pub parse_object-IsWithin :
    (annotations : Option (List (String × String)))
    → (let cfg = parse_object annotations in IsWithin cfg × All IsClean cfg.source_ranges)
unfolding parse_object parse_annotations
parse_object-IsWithin none =
    (((0, refl, omega arith), inl refl, inl refl, λ n. absurd (n refl)), tt)
parse_object-IsWithin (some ann) = (
  parse_annotations-IsWithin default_lb_config ann refl
      ((0, refl, omega arith), inl refl, inl refl, λ n. absurd (n refl)),
  elim (Bool-cases (trim_space (lookup_text source_ranges_key ann) == "")) [
    | inl e ↦ rw e tt
    | inr e ↦ rw e (nonblank-IsClean _)
  ],
)
