-- ===== src/Text/Number.antt =====
-- strconv.Atoi, and that it reads back what `%d` prints.
use Prim.Native.Char.{Char, code}
use Prim.Native.String.{[], ◌∷◌, ◌++◌, char_at}
use text.Mathlib.TextLemmas.{cons-ne-nil}
use text.Mathlib.TextLemmas.{nil-append, cons-append}
use mathlib.Core.Path.{subst}
use garden_extension_f5_loca.Prelude.{
  Bool, Bool-cases, Option, String, ap, arith, eq_iff, false, if◌then◌else◌, inl, inr, int_eq, leb,
  ltb, nat_eq, negsuc, none, not, pos, refl, some, string_eq, suc, true, zero, ℕ, ℤ, ◌%◌, ◌&&◌, ◌*◌,
  ◌+◌, ◌-◌, ◌/◌, ◌<◌, ◌==◌, ◌^◌, ◌∙◌, ◌≡◌, ◌≢◌,
}
use garden_extension_f5_loca.Text.{is_space, trim_by, trim_left, trim_right, trim_space}
use garden_extension_f5_loca.Text.Decimal.{digit, show, show_digits, show_nat}
use garden_extension_f5_loca.Text.Laws.{AllChars}

unfoldable pub is_digit : Char → Bool
is_digit c = leb 48 (code c) && leb (code c) 57

-- The value of the digits behind `n`; `none` at another character.
unfoldable pub scan : String → ℕ → Option ℕ
scan [] n = some n
scan (c ∷ s) n = let rest = scan s (n * 10 + (code c - 48)) in if is_digit c then rest else none

-- An `int` has 64 bits.
unfoldable pub as_int : Bool → ℕ → Option ℤ
as_int false n = if ltb n (2 ^ 63) then some (pos n) else none
as_int true zero = some (pos 0)
as_int true (suc n) = if ltb n (2 ^ 63) then some (negsuc n) else none

abbrev read_digits : Bool → String → Option ℤ
read_digits negative s =
    if s == "" then none else elim (scan s 0) [ none ↦ none | some n ↦ as_int negative n ]

-- strconv.Atoi, with none for its errors.
unfoldable pub atoi : String → Option ℤ
unfolding scan as_int is_digit
atoi [] = none
atoi (c ∷ s) =
    if code c == 45
    then read_digits true s
    else if code c == 43
    then read_digits false s
    else read_digits false (c ∷ s)

digit_code : (d : ℕ) → d < 10 → code (char_at "0123456789" d) ≡ 48 + d
digit_code zero h = refl
digit_code (suc zero) h = refl
digit_code (suc (suc zero)) h = refl
digit_code (suc (suc (suc zero))) h = refl
digit_code (suc (suc (suc (suc zero)))) h = refl
digit_code (suc (suc (suc (suc (suc zero))))) h = refl
digit_code (suc (suc (suc (suc (suc (suc zero)))))) h = refl
digit_code (suc (suc (suc (suc (suc (suc (suc zero))))))) h = refl
digit_code (suc (suc (suc (suc (suc (suc (suc (suc zero)))))))) h = refl
digit_code (suc (suc (suc (suc (suc (suc (suc (suc (suc zero))))))))) h = refl
digit_code (suc (suc (suc (suc (suc (suc (suc (suc (suc (suc d)))))))))) h = absurd (omega arith)

digit-code_of : (n : ℕ) → code (digit n) ≡ 48 + n % 10
digit-code_of n = digit_code (n % 10) (omega arith)

-- Reading the last digit of `n` behind the digits before it gives `n`.
scan_last : (n : ℕ) (rest : String) → scan (digit n ∷ rest) (n / 10) ≡ scan rest n
unfolding scan is_digit
scan_last n rest = ground (arith, digit-code_of n)

scan-show_digits :
    (fuel n : ℕ) (rest : String) → n < fuel → scan (show_digits fuel n rest) 0 ≡ scan rest n
unfolding show_digits
scan-show_digits zero n rest h = absurd (omega arith)
scan-show_digits (suc fuel) n rest h =
    ground (arith, scan-show_digits fuel (n / 10) (digit n ∷ rest), scan_last n rest)

-- A text of digits.
abbrev pub IsDigits : String → Type 0
IsDigits s = AllChars is_digit s

digit-IsDigit : (n : ℕ) → is_digit (digit n) ≡ true
unfolding is_digit
digit-IsDigit n = ground (arith, digit-code_of n)

show_digits-IsDigits :
    (fuel n : ℕ) (rest : String) → IsDigits rest → IsDigits (show_digits fuel n rest)
unfolding show_digits
show_digits-IsDigits zero n rest h = h
show_digits-IsDigits (suc fuel) n rest h =
    let more = show_digits-IsDigits fuel (n / 10) (digit n ∷ rest) (digit-IsDigit n, h) in
    elim (Bool-cases (n / 10 == 0)) [ inl e ↦ rw e (digit-IsDigit n, h) | inr e ↦ rw e more ]

show_nat-IsDigits : (n : ℕ) → IsDigits (show_nat n)
unfolding show_nat
show_nat-IsDigits n = show_digits-IsDigits (n + 1) n "" tt

scan-show_nat : (n : ℕ) → scan (show_nat n) 0 ≡ some n
unfolding show_nat scan
scan-show_nat n = scan-show_digits (n + 1) n "" (omega arith)

show_digits-ne-nil : (fuel n : ℕ) (rest : String) → rest ≢ "" → show_digits fuel n rest ≢ ""
unfolding show_digits
show_digits-ne-nil zero n rest h = h
show_digits-ne-nil (suc fuel) n rest h =
    let first = cons-ne-nil (digit n) rest in
    let more = show_digits-ne-nil fuel (n / 10) (digit n ∷ rest) first in
    elim (Bool-cases (n / 10 == 0)) [ inl e ↦ rw e first | inr e ↦ rw e more ]

show_digits-suc : (fuel n : ℕ) → show_digits (suc fuel) n "" ≢ ""
unfolding show_digits
show_digits-suc fuel n =
    let first = cons-ne-nil (digit n) "" in
    let more = show_digits-ne-nil fuel (n / 10) (digit n ∷ "") first in
    elim (Bool-cases (n / 10 == 0)) [ inl e ↦ rw e first | inr e ↦ rw e more ]

pub show_nat-ne-nil : (n : ℕ) → show_nat n ≢ ""
unfolding show_nat
show_nat-ne-nil n =
    let same : suc n ≡ n + 1 = omega arith in
    subst (λ k. show_digits k n "" ≢ "") same (show_digits-suc n n)

atoi-IsDigits : (s : String) → IsDigits s → s ≢ "" → atoi s ≡ read_digits false s
unfolding atoi is_digit
atoi-IsDigits [] d n = absurd (n refl)
atoi-IsDigits (c ∷ s) d n = ground arith

atoi-minus : (s : String) → atoi ("-" ++ s) ≡ read_digits true s
unfolding atoi
atoi-minus s =
    ap atoi (cons-append (char_at "-" 0) "" s ∙ ap (λ t. char_at "-" 0 ∷ t) (nil-append s))

read_digits-show_nat :
    (negative : Bool) (n : ℕ) → read_digits negative (show_nat n) ≡ as_int negative n
read_digits-show_nat negative n =
    ground (arith, scan-show_nat n, eq_iff (show_nat n) "", show_nat-ne-nil n)

-- Every `int` of 64 bits is read back from its decimal print.
pub atoi-show :
    (n : ℕ)
    → n < 2 ^ 63
    → (atoi (show (pos n)) ≡ some (pos n)) × (atoi (show (negsuc n)) ≡ some (negsuc n))
unfolding show as_int
atoi-show n h = (
  atoi-IsDigits (show_nat n) (show_nat-IsDigits n) (show_nat-ne-nil n)
      ∙ read_digits-show_nat false n
      ∙ ground arith,
  atoi-minus (show_nat (n + 1)) ∙ read_digits-show_nat true (n + 1) ∙ ground arith,
)

IsDigits-no_space : (s : String) → IsDigits s → AllChars (λ c. not (is_space c)) s
unfolding is_digit is_space
IsDigits-no_space [] d = tt
IsDigits-no_space (c ∷ s) d = (ground arith, IsDigits-no_space s d.1)

trim_left-no_space : (s : String) → AllChars (λ c. not (is_space c)) s → trim_left is_space s ≡ s
unfolding trim_left
trim_left-no_space [] d = refl
trim_left-no_space (c ∷ s) d = ground arith

trim_right-no_space : (s : String) → AllChars (λ c. not (is_space c)) s → trim_right is_space s ≡ s
unfolding trim_right
trim_right-no_space [] d = refl
trim_right-no_space (c ∷ s) d = ground (arith, trim_right-no_space s d.1)

-- Trimming leaves a printed number alone.
pub trim_space-show_nat : (n : ℕ) → trim_space (show_nat n) ≡ show_nat n
unfolding trim_space trim_by
trim_space-show_nat n =
    let d = IsDigits-no_space _ (show_nat-IsDigits n) in
    ap (trim_right is_space) (trim_left-no_space (show_nat n) d)
    ∙ trim_right-no_space (show_nat n) d
