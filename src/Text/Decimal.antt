-- ===== src/Text/Decimal.antt =====
-- Numbers in decimal: the `%d` of fmt.
use Prim.Native.Char.{Char}
use Prim.Native.String.{◌∷◌, ◌++◌, char_at}
use garden_extension_f5_loca.Prelude.{
  String, if◌then◌else◌, int_eq, nat_eq, negsuc, pos, refl, string_eq, suc, zero, ℕ, ℤ, ◌%◌, ◌+◌,
  ◌/◌, ◌==◌, ◌≡◌,
}

abbrev pub digit : ℕ → Char
digit n = char_at "0123456789" (n % 10)

-- The digits of `n` before `rest`, with fuel for their count.
unfoldable pub show_digits : ℕ → ℕ → String → String
show_digits zero n rest = rest
show_digits (suc fuel) n rest =
    let more = show_digits fuel (n / 10) (digit n ∷ rest) in
    if n / 10 == 0 then digit n ∷ rest else more

-- `n + 1` rounds are more than `n` has digits.
unfoldable pub show_nat : ℕ → String
unfolding show_digits
show_nat n = show_digits (n + 1) n ""

unfoldable pub show : ℤ → String
unfolding show_nat
show (pos n) = show_nat n
show (negsuc n) = "-" ++ show_nat (n + 1)

show_example : show (pos 30443) ≡ "30443"
unfolding show
show_example = refl
