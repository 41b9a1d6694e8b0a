-- ===== src/Strconv/Decimal.antt =====
-- Printing and parsing of integers are inverse.
use csi_driver_for_windows_s.Prelude.{
  ℕ, zero, suc, ◌+◌, ◌*◌, ◌/◌, ◌%◌, ◌^◌, ◌<◌, ◌≤◌, code, true, some, String, ltb, ℤ, pos, negsuc,
  ◌≡◌, refl, arith, ◌∙◌, ap, Bool-cases, inl, inr, pos_part, neg_part,
}
use csi_driver_for_windows_s.Text.Chars.{is_digit}
use csi_driver_for_windows_s.Strconv.{
  digit_char, emit, format_nat, format_int, scan, parse_digits, parse_int, positive, negative,
}

digit_char-code : (d : ℕ) → d < 10 → code (digit_char d) ≡ 48 + d
unfolding digit_char
digit_char-code zero h = refl
digit_char-code (suc zero) h = refl
digit_char-code (suc (suc zero)) h = refl
digit_char-code (suc (suc (suc zero))) h = refl
digit_char-code (suc (suc (suc (suc zero)))) h = refl
digit_char-code (suc (suc (suc (suc (suc zero))))) h = refl
digit_char-code (suc (suc (suc (suc (suc (suc zero)))))) h = refl
digit_char-code (suc (suc (suc (suc (suc (suc (suc zero))))))) h = refl
digit_char-code (suc (suc (suc (suc (suc (suc (suc (suc zero)))))))) h = refl
digit_char-code (suc (suc (suc (suc (suc (suc (suc (suc (suc n))))))))) h = ground arith

scan-digit :
    (d : ℕ) (out : String) (a : ℕ)
    → d < 10
    → scan (String.◌∷◌ (digit_char d) out) a ≡ scan out (a * 10 + d)
unfolding scan
scan-digit d out a h = ground (arith, digit_char-code d h)

scan-emit : (fuel n : ℕ) (out : String) → n < fuel → scan (emit fuel n out) 0 ≡ scan out n
unfolding emit
scan-emit zero n out h = elim h [ ]
scan-emit (suc fuel) n out h = elim (Bool-cases (ltb n 10)) [
  | inl small ↦ rw small (scan-digit n out 0 (ground arith) ∙ ap (scan out) (omega arith))
  | inr large ↦ rw large (
      scan-emit fuel (n / 10) (String.◌∷◌ (digit_char (n % 10)) out) (ground arith)
      ∙ scan-digit (n % 10) out (n / 10) (omega arith)
      ∙ ap (scan out) (omega arith))
]

abbrev pub StartsWithDigit : String → Type 0
StartsWithDigit String.[] = ⊥
StartsWithDigit (String.◌∷◌ c s) = is_digit c ≡ true

pub digit_char-is_digit : (d : ℕ) → d < 10 → is_digit (digit_char d) ≡ true
unfolding is_digit
digit_char-is_digit d h = ground (arith, digit_char-code d h)

emit-StartsWithDigit : (fuel n : ℕ) (out : String) → n < fuel → StartsWithDigit (emit fuel n out)
unfolding emit
emit-StartsWithDigit zero n out h = elim h [ ]
emit-StartsWithDigit (suc fuel) n out h = elim (Bool-cases (ltb n 10)) [
  | inl small ↦ rw small (digit_char-is_digit n (ground arith))
  | inr large ↦ rw large (emit-StartsWithDigit fuel (n / 10) _ (ground arith))
]

parse_digits-scan : (s : String) → StartsWithDigit s → parse_digits s ≡ scan s 0
unfolding parse_digits
parse_digits-scan String.[] h = elim h [ ]
parse_digits-scan (String.◌∷◌ c s) h = refl

parse_digits-format_nat : (n : ℕ) → parse_digits (format_nat n) ≡ some n
unfolding format_nat
parse_digits-format_nat n =
    parse_digits-scan (emit (suc n) n "") (emit-StartsWithDigit (suc n) n "" (omega arith))
    ∙ scan-emit (suc n) n "" (omega arith)
    ∙ unfold scan in refl

parse_int_unsigned :
    (s : String) → StartsWithDigit s → parse_int s ≡ positive (2 ^ 63) (parse_digits s)
unfolding parse_int is_digit
parse_int_unsigned String.[] h = elim h [ ]
parse_int_unsigned (String.◌∷◌ c s) h = ground arith

parse_int_minus : (s : String) → parse_int (String.◌∷◌ "-" s) ≡ negative (2 ^ 63) (parse_digits s)
unfolding parse_int
parse_int_minus s = refl

pub format_nat-StartsWithDigit : (n : ℕ) → StartsWithDigit (format_nat n)
unfolding format_nat
format_nat-StartsWithDigit n = emit-StartsWithDigit (suc n) n "" (omega arith)

-- An `int64` that is printed is read back.
pub parse_int-format_int :
    (z : ℤ) → pos_part z < 2 ^ 63 → neg_part z ≤ 2 ^ 63 → parse_int (format_int z) ≡ some z
unfolding format_int
parse_int-format_int (pos n) h k =
    parse_int_unsigned (format_nat n) (format_nat-StartsWithDigit n)
    ∙ rw parse_digits-format_nat (ground arith)
parse_int-format_int (negsuc n) h k =
    parse_int_minus (format_nat (n + 1)) ∙ rw parse_digits-format_nat (ground arith)
