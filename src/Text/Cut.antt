-- ===== src/Text/Cut.antt =====
-- Texts taken apart at a slash: strings.Cut.
use Prim.Native.Char.{code}
use Prim.Native.String.{[], ◌∷◌}
use garden_extension_f5_loca.Prelude.{
  Option, String, if◌then◌else◌, int_eq, nat_eq, none, some, string_eq, ◌==◌,
}

-- strings.Cut at the first slash: what is before it, and what is after it, where there is one.
unfoldable pub cut : String → String × Option String
cut [] = ("", none)
cut (c ∷ s) =
    let (before, rest) = cut s in if code c == 47 then ("", some s) else (c ∷ before, rest)
