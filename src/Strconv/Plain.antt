-- ===== src/Strconv/Plain.antt =====
-- Printed integers have no spaces.
use csi_driver_for_windows_s.Prelude.{
  ℕ, zero, suc, ◌+◌, eq_iff, ◌/◌, ◌%◌, ◌≡◌, refl, ap, ◌∙◌, arith, true, false, Char, String, ◌==◌,
  ℤ, pos, negsuc, ltb, Bool-cases, inl, inr,
}
use csi_driver_for_windows_s.Text.{trim_left, trim_right, trim_space}
use csi_driver_for_windows_s.Text.Chars.{is_space, is_digit}
use csi_driver_for_windows_s.Strconv.{digit_char, emit, format_nat, format_int}
use csi_driver_for_windows_s.Strconv.Decimal.{
  StartsWithDigit, digit_char-is_digit, format_nat-StartsWithDigit,
}
use mathlib.Core.Path.{subst}

-- No character of the text is a space.
abbrev pub HasNoSpace : String → Type 0
HasNoSpace String.[] = Unit
HasNoSpace (String.◌∷◌ c s) = (is_space c ≡ false) × HasNoSpace s

digit-not_space : (c : Char) → is_digit c ≡ true → is_space c ≡ false
unfolding is_digit is_space
digit-not_space c h = ground arith

emit-HasNoSpace : (fuel n : ℕ) (out : String) → HasNoSpace out → HasNoSpace (emit fuel n out)
unfolding emit
emit-HasNoSpace zero n out h = h
emit-HasNoSpace (suc fuel) n out h = elim (Bool-cases (ltb n 10)) [
  | inl small ↦ rw small (digit-not_space (digit_char n) (digit_char-is_digit n (ground arith)), h)
  | inr large ↦ rw large (
      emit-HasNoSpace fuel (n / 10) _
        (digit-not_space (digit_char (n % 10)) (digit_char-is_digit (n % 10) (omega arith)), h))
]

pub format_int-HasNoSpace : (z : ℤ) → HasNoSpace (format_int z)
unfolding format_int format_nat is_space
format_int-HasNoSpace (pos n) = emit-HasNoSpace (suc n) n "" tt
format_int-HasNoSpace (negsuc n) = (refl, emit-HasNoSpace (suc (n + 1)) (n + 1) "" tt)

trim_right_plain : (s : String) → HasNoSpace s → trim_right is_space s ≡ s
unfolding trim_right
trim_right_plain String.[] h = refl
trim_right_plain (String.◌∷◌ c s) (h, r) = rw (h, trim_right_plain s r) (refl)

trim_left_plain : (s : String) → HasNoSpace s → trim_left is_space s ≡ s
unfolding trim_left
trim_left_plain String.[] h = refl
trim_left_plain (String.◌∷◌ c s) (h, r) = rw h

pub trim_space_plain : (s : String) → HasNoSpace s → trim_space s ≡ s
unfolding trim_space
trim_space_plain s h = ap (trim_right is_space) (trim_left_plain s h) ∙ trim_right_plain s h

abbrev IsNonEmpty : String → Type 0
IsNonEmpty String.[] = ⊥
IsNonEmpty (String.◌∷◌ c s) = Unit

nonempty_given : (s : String) → IsNonEmpty s → (s == "") ≡ false
nonempty_given s h = elim (Bool-cases (s == "")) [
  | inl e ↦ absurd (subst IsNonEmpty ((eq_iff s "").0 e) h)
  | inr e ↦ e
]

digits_nonempty : (s : String) → StartsWithDigit s → IsNonEmpty s
digits_nonempty String.[] h = h
digits_nonempty (String.◌∷◌ c s) h = tt

-- A printed integer is not empty.
pub format_int_given : (z : ℤ) → (format_int z == "") ≡ false
unfolding format_int
format_int_given (pos n) =
    nonempty_given (format_nat n) (digits_nonempty (format_nat n) (format_nat-StartsWithDigit n))
format_int_given (negsuc n) = nonempty_given (format_int (negsuc n)) tt
