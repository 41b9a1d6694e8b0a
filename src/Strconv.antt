-- ===== src/Strconv.antt =====
-- The functions of Go's package `strconv` that the driver uses. An error is `none`; the driver never
-- asks which error it is.
pub mod Decimal
pub mod Plain
use Prim.Native.String
use csi_driver_for_windows_s.Prelude.{
  ℕ, zero, suc, ◌+◌, ◌-◌, ◌*◌, ◌/◌, ◌%◌, ◌^◌, Char, code, Bool, true, false, ◌||◌, Option, none,
  some, List, [], ◌∷◌, String, ◌==◌, ltb, leb, nat_eq, if◌then◌else◌, ℤ, pos, negsuc, any,
}
use csi_driver_for_windows_s.Text.{is_char}
use csi_driver_for_windows_s.Text.Chars.{is_digit}

pub digit_char : ℕ → Char
digit_char zero = "0"
digit_char (suc zero) = "1"
digit_char (suc (suc zero)) = "2"
digit_char (suc (suc (suc zero))) = "3"
digit_char (suc (suc (suc (suc zero)))) = "4"
digit_char (suc (suc (suc (suc (suc zero))))) = "5"
digit_char (suc (suc (suc (suc (suc (suc zero)))))) = "6"
digit_char (suc (suc (suc (suc (suc (suc (suc zero))))))) = "7"
digit_char (suc (suc (suc (suc (suc (suc (suc (suc zero)))))))) = "8"
digit_char _ = "9"

-- The digits of a number in front of a text. Each round divides the number by ten, so that a fuel
-- above the number is never used up.
emit : ℕ → ℕ → String → String
unfolding digit_char
emit zero n out = out
emit (suc fuel) n out =
    let more = emit fuel (n / 10) (String.◌∷◌ (digit_char (n % 10)) out) in
    if ltb n 10 then String.◌∷◌ (digit_char n) out else more

unfoldable pub format_nat : ℕ → String
unfolding emit
format_nat n = emit (suc n) n ""

-- `strconv.Itoa` and `strconv.FormatInt` in base 10
unfoldable pub format_int : ℤ → String
format_int (pos n) = format_nat n
format_int (negsuc n) = String.◌∷◌ "-" (format_nat (n + 1))

unfoldable pub scan : String → ℕ → Option ℕ
unfolding is_digit
scan String.[] n = some n
scan (String.◌∷◌ c s) n =
    let rest = scan s (n * 10 + (code c - b'0')) in if is_digit c then rest else none

parse_digits : String → Option ℕ
unfolding scan
parse_digits String.[] = none
parse_digits (String.◌∷◌ c s) = scan (String.◌∷◌ c s) 0

abbrev below : ℕ → Option ℕ → Option ℕ
below bound none = none
below bound (some n) = if ltb n bound then some n else none

-- `strconv.ParseUint` in base 10 at a width in bits
unfoldable pub parse_uint : ℕ → String → Option ℕ
unfolding parse_digits
parse_uint bits s = below (2 ^ bits) (parse_digits s)

abbrev pub positive : ℕ → Option ℕ → Option ℤ
positive limit none = none
positive limit (some n) = if ltb n limit then some (pos n) else none

abbrev pub negate : ℕ → ℤ
negate n = if nat_eq n 0 then pos 0 else negsuc (n - 1)

abbrev pub negative : ℕ → Option ℕ → Option ℤ
negative limit none = none
negative limit (some n) = if leb n limit then some (negate n) else none

-- `strconv.ParseInt` in base 10 at a width of 64 bits, and `strconv.Atoi`
unfoldable pub parse_int : String → Option ℤ
unfolding parse_digits
parse_int String.[] = none
parse_int (String.◌∷◌ c s) =
    if is_char b'-' c
    then negative (2 ^ 63) (parse_digits s)
    else if is_char b'+' c
    then positive (2 ^ 63) (parse_digits s)
    else positive (2 ^ 63) (parse_digits (String.◌∷◌ c s))

abbrev pub one_of : List String → String → Bool
one_of names s = any (λ name. name == s) names

-- `strconv.ParseBool`
unfoldable pub parse_bool : String → Option Bool
parse_bool s =
    if one_of ("1" ∷ "t" ∷ "T" ∷ "true" ∷ "TRUE" ∷ "True" ∷ []) s
    then some true
    else if one_of ("0" ∷ "f" ∷ "F" ∷ "false" ∷ "FALSE" ∷ "False" ∷ []) s
    then some false
    else none
