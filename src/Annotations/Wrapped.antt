-- ===== src/Annotations/Wrapped.antt =====
-- parseAnnotations: numbers beyond 32 bits.
use garden_extension_f5_loca.Prelude.{
  [], arith, eq_iff, is_positive, negsuc, pos, some, to_int32, ℕ, ℤ, ◌-◌, ◌<◌, ◌^◌, ◌∙◌, ◌∷◌, ◌≡◌,
  ◌≤◌,
}
use garden_extension_f5_loca.Annotations.{
  health_interval_key, number_or, parse_annotations, parse_object,
}
use garden_extension_f5_loca.Dict.{lookup, lookup_text}
use garden_extension_f5_loca.Text.{trim_space}
use garden_extension_f5_loca.Text.Decimal.{show, show_nat}
use garden_extension_f5_loca.Text.Number.{atoi, atoi-show, show_nat-ne-nil, trim_space-show_nat}

number_or-show_nat :
    (n : ℕ) (old : ℤ)
    → 0 < n
    → n < 2 ^ 63
    → number_or is_positive (trim_space (show_nat n)) old ≡ to_int32 (pos n)
unfolding number_or show
number_or-show_nat n old h k =
    let read : atoi (show_nat n) ≡ some (pos n) = (atoi-show n k).0 in
    ground (arith, trim_space-show_nat n, eq_iff (show_nat n) "", show_nat-ne-nil n, read)

to_int32-wraps : (n : ℕ) → 2 ^ 31 ≤ n → n < 2 ^ 32 → to_int32 (pos n) ≡ negsuc (2 ^ 32 - n - 1)
unfolding to_int32
to_int32-wraps n h k = ground arith

-- The interval of the health check is the annotated number taken modulo 2^32 as a signed integer, for every
-- positive number of 63 bits: one of 2^31 or more and less than 2^32 passes the test for a positive number
-- and gives a negative interval.
pub parse_object-health_interval :
    (n : ℕ)
    → 0 < n
    → n < 2 ^ 63
    → (let cfg = parse_object (some ((health_interval_key, show_nat n) ∷ [])) in
        (cfg.health_interval ≡ to_int32 (pos n))
        × (2 ^ 31 ≤ n → n < 2 ^ 32 → cfg.health_interval ≡ negsuc (2 ^ 32 - n - 1)))
unfolding parse_object parse_annotations lookup_text lookup
parse_object-health_interval n h k =
    let read = number_or-show_nat n (pos 30) h k in (read, λ i j. read ∙ to_int32-wraps n i j)
