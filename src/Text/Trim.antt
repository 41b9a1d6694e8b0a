-- ===== src/Text/Trim.antt =====
-- What `strings.TrimSpace` leaves.
use csi_driver_for_windows_s.Prelude.{
  ◌≡◌, refl, String, Bool, true, false, Char, Bool-cases, inl, inr, ap, ◌∙◌,
}
use csi_driver_for_windows_s.Text.{trim_left, trim_right, keep_char, trim_space}
use csi_driver_for_windows_s.Text.Chars.{is_space}

module _ (p : Char → Bool) where
  -- The text is empty or its first character does not satisfy `p`.
  abbrev pub StartsWithout : String → Type 0
  StartsWithout String.[] = Unit
  StartsWithout (String.◌∷◌ c s) = p c ≡ false

  trim_left-StartsWithout : (s : String) → StartsWithout (trim_left p s)
  unfolding trim_left
  trim_left-StartsWithout String.[] = tt
  trim_left-StartsWithout (String.◌∷◌ c s) = elim (Bool-cases (p c)) [
    | inl h ↦ rw h (trim_left-StartsWithout s)
    | inr h ↦ rw h h
  ]

  trim_left_fixed : (s : String) → StartsWithout s → trim_left p s ≡ s
  unfolding trim_left
  trim_left_fixed String.[] h = refl
  trim_left_fixed (String.◌∷◌ c s) h = rw h

  trim_right-StartsWithout : (s : String) → StartsWithout s → StartsWithout (trim_right p s)
  unfolding trim_right
  trim_right-StartsWithout String.[] h = tt
  trim_right-StartsWithout (String.◌∷◌ c s) h = rw h h

  trim_right-keep_char :
      (b : Bool) (c : Char) (t : String)
      → p c ≡ b
      → trim_right p t ≡ t
      → trim_right p (keep_char b c t) ≡ keep_char b c t
  unfolding trim_right
  trim_right-keep_char true c String.[] h e = refl
  trim_right-keep_char true c (String.◌∷◌ d t) h e = rw (h, e)
  trim_right-keep_char false c t h e = rw (h, e)

  trim_right_idem : (s : String) → trim_right p (trim_right p s) ≡ trim_right p s
  unfolding trim_right
  trim_right_idem String.[] = refl
  trim_right_idem (String.◌∷◌ c s) =
      trim_right-keep_char (p c) c (trim_right p s) refl (trim_right_idem s)

pub trim_space-StartsWithout : (s : String) → StartsWithout is_space (trim_space s)
unfolding trim_space
trim_space-StartsWithout s =
    trim_right-StartsWithout is_space (trim_left is_space s) (trim_left-StartsWithout is_space s)

-- Trimming twice is trimming once.
pub trim_space_idem : (s : String) → trim_space (trim_space s) ≡ trim_space s
unfolding trim_space
trim_space_idem s =
    ap (trim_right is_space) (trim_left_fixed is_space _ (trim_space-StartsWithout s))
    ∙ trim_right_idem is_space (trim_left is_space s)
