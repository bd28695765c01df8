-- ===== src/Text/Split.antt =====
-- strings.Split at a comma, strings.Fields and strings.ReplaceAll of one character.
use Prim.Native.Char.{Char, code}
use Prim.Native.String.{[] as nil, ◌∷◌ as cons, ◌++◌ as append, char_at}
use garden_extension_f5_loca.Prelude.{
  List, String, [], if◌then◌else◌, int_eq, nat_eq, string_eq, ◌==◌, ◌∷◌,
}
use garden_extension_f5_loca.Text.{is_space, map_chars}

abbrev first_part : Char → List String → List String
first_part c [] = []
first_part c (part ∷ parts) = cons c part ∷ parts

-- strings.Split(s, ",")
unfoldable pub split_comma : String → List String
split_comma nil = "" ∷ []
split_comma (cons c s) =
    let rest = split_comma s in if code c == 44 then "" ∷ rest else first_part c rest

abbrev flush : String → List String → List String
flush word words = if word == "" then words else word ∷ words

-- The words of a text, with the word that is being read.
unfoldable pub words_from : String → String → List String
words_from word nil = flush word []
words_from word (cons c s) =
    let next = words_from "" s in
    let more = words_from (append word (cons c "")) s in
    if is_space c then flush word next else more

-- strings.Fields
unfoldable pub fields : String → List String
fields s = words_from "" s

abbrev underscore : Char → Char
underscore c = if code c == 45 then char_at "_" 0 else c

-- strings.ReplaceAll(s, "-", "_")
unfoldable pub replace_dashes : String → String
replace_dashes s = map_chars underscore s
