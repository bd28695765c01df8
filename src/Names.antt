-- ===== src/Names.antt =====
-- pkg/service/builder.go, safeName and limitedSafeName: the names of CMP resources. crypto/sha256 with
-- the hexadecimal print is a parameter.
pub mod Limits
use Prim.Native.Char.{Char, code}
use Prim.Native.String.{[], ◌∷◌, ◌++◌, char_at, count}
use garden_extension_f5_loca.Prelude.{
  Bool, String, if◌then◌else◌, int_eq, leb, nat_eq, string_eq, suc, zero, ℕ, ◌==◌, ◌||◌,
}
use garden_extension_f5_loca.Text.{is_lower, map_chars, to_lower, trim_by, trim_space}
use garden_extension_f5_loca.Text.Number.{is_digit}

abbrev pub is_dash : Char → Bool
is_dash c = code c == 45

-- The characters that safeName keeps: lower-case letters, digits and dashes.
unfoldable pub is_safe : Char → Bool
is_safe c = is_lower c || (is_digit c || is_dash c)

unfoldable pub safe_char : Char → Char
safe_char c = if is_safe c then c else char_at "-" 0

-- strings.Trim(s, "-")
unfoldable pub trim_dashes : String → String
trim_dashes s = trim_by is_dash s

-- safeName
unfoldable pub safe_name : String → String
safe_name name = trim_dashes (map_chars safe_char (to_lower (trim_space name)))

-- name[:n]
unfoldable pub take_chars : ℕ → String → String
take_chars zero s = ""
take_chars (suc n) [] = ""
take_chars (suc n) (c ∷ s) = c ∷ take_chars n s

-- maxCMPResourceNameLength
abbrev pub max_name_length : ℕ
max_name_length = 20

-- limitedSafeName with that length: 13 characters, a dash and 6 digits of the hash.
unfoldable pub limited_safe_name : (String → String) → String → String
limited_safe_name sha256_hex name =
    let safe = safe_name name in
    if leb (count safe) max_name_length
    then safe
    else trim_dashes (take_chars 13 safe) ++ "-" ++ take_chars 6 (sha256_hex safe)
