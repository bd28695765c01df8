-- ===== src/Text/Join.antt =====
-- Texts put together: strings.Join.
use Prim.Native.String
use garden_extension_f5_loca.Prelude.{List, String, [], ◌∷◌}

-- strings.Join
unfoldable pub join : String → List String → String
join sep [] = ""
join sep (s ∷ []) = s
join sep (s ∷ t) = String.◌++◌ s (String.◌++◌ sep (join sep t))
