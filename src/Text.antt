-- ===== src/Text.antt =====
-- What the program uses of Go's `strings` package, for texts of ASCII characters: letters beyond
-- ASCII are taken as having no case.
pub mod Laws
pub mod Join
pub mod Decimal
pub mod Cut
pub mod Order
pub mod Number
pub mod Split
use Prim.Native.Char.{Char, code}
use Prim.Native.String.{[], ◌∷◌, char_at, count}
use garden_extension_f5_loca.Prelude.{
  Bool, String, if◌then◌else◌, int_eq, leb, nat_eq, string_eq, ◌&&◌, ◌-◌, ◌==◌, ◌||◌,
}

-- unicode.IsSpace
unfoldable pub is_space : Char → Bool
is_space c =
    (leb 9 (code c) && leb (code c) 13)
    || (code c == 32
        || (code c == 0x85
            || (code c == 0xA0
                || (code c == 0x1680
                    || ((leb 0x2000 (code c) && leb (code c) 0x200a)
                        || (code c == 0x2028
                            || (code c == 0x2029
                                || (code c == 0x202f
                                    || (code c == 0x205f || code c == 0x3000)))))))))

module _ (drop : Char → Bool) where
  -- strings.TrimLeftFunc
  unfoldable pub trim_left : String → String
  trim_left [] = []
  trim_left (c ∷ s) = if drop c then trim_left s else c ∷ s

  -- strings.TrimRightFunc
  unfoldable pub trim_right : String → String
  trim_right [] = []
  trim_right (c ∷ s) = let rest = trim_right s in if drop c && rest == "" then "" else c ∷ rest

  unfoldable pub trim_by : String → String
  unfolding trim_left trim_right
  trim_by s = trim_right (trim_left s)

-- strings.TrimSpace
unfoldable pub trim_space : String → String
unfolding trim_by is_space
trim_space s = trim_by is_space s

unfoldable pub map_chars : (Char → Char) → String → String
map_chars f [] = []
map_chars f (c ∷ s) = f c ∷ map_chars f s

abbrev pub is_upper : Char → Bool
is_upper c = leb b'A' (code c) && leb (code c) b'Z'

abbrev pub is_lower : Char → Bool
is_lower c = leb b'a' (code c) && leb (code c) b'z'

unfoldable pub lower_char : Char → Char
lower_char c = if is_upper c then char_at "abcdefghijklmnopqrstuvwxyz" (code c - b'A') else c

unfoldable pub upper_char : Char → Char
upper_char c = if is_lower c then char_at "ABCDEFGHIJKLMNOPQRSTUVWXYZ" (code c - b'a') else c

-- strings.ToLower
unfoldable pub to_lower : String → String
unfolding map_chars lower_char
to_lower s = map_chars lower_char s

-- strings.ToUpper
unfoldable pub to_upper : String → String
unfolding map_chars upper_char
to_upper s = map_chars upper_char s

-- strings.EqualFold
unfoldable pub equal_fold : String → String → Bool
unfolding to_lower
equal_fold s t = to_lower s == to_lower t
