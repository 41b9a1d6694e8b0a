-- ===== src/Text/Cut.antt =====
-- `strings.ContainsFunc` and `strings.Cut` on texts that are put together.
use Prim.Native.String
use text.Mathlib.TextLemmas.{nil-append, cons-append}
use text.Mathlib.TextPositions.{compare_refl}
use csi_driver_for_windows_s.Prelude.{◌≡◌, refl, String, arith, Bool, true, false, Char, ◌||◌, some}
use csi_driver_for_windows_s.Text.{
  contains, contains_func, cut, cut_prefix, has_prefix, has_suffix, trim_prefix, is_found,
}
use csi_driver_for_windows_s.Text.Chars.{char_eq}

or_assoc : (a b c : Bool) → (a || b) || c ≡ a || (b || c)
or_assoc true b c = refl
or_assoc false b c = refl

pub contains_func-append :
    (p : Char → Bool) (s t : String)
    → contains_func p (String.◌++◌ s t) ≡ contains_func p s || contains_func p t
unfolding contains_func
contains_func-append p String.[] t = rw nil-append
contains_func-append p (String.◌∷◌ c s) t =
    rw cons-append (rw (contains_func-append p s t) (ground arith))

-- A text is cut at the first separator character.
pub cut-append :
    (d : Char) (s t : String)
    → contains_func (λ c. char_eq c d) s ≡ false
    → cut (String.◌++◌ s (String.◌∷◌ d t)) (String.◌∷◌ d "") ≡ some (s, t)
unfolding cut cut_prefix contains_func
cut-append d String.[] t h = rw nil-append (ground arith)
cut-append d (String.◌∷◌ c s) t h = rw cons-append (ground (arith, cut-append d s t))

-- What stands behind a prefix that was put in front.
pub cut_prefix-append : (p s : String) → cut_prefix (String.◌++◌ p s) p ≡ some s
unfolding cut_prefix
cut_prefix-append String.[] s = rw nil-append refl
cut_prefix-append (String.◌∷◌ c p) s = rw cons-append (ground (arith, cut_prefix-append p s))

pub has_prefix-append : (p s : String) → has_prefix (String.◌++◌ p s) p ≡ true
unfolding has_prefix is_found
has_prefix-append p s = rw (has_prefix, cut_prefix-append p s) refl

pub trim_prefix-append : (p s : String) → trim_prefix (String.◌++◌ p s) p ≡ s
unfolding trim_prefix
trim_prefix-append p s = rw (trim_prefix, cut_prefix-append p s) refl

has_prefix-contains : (s t : String) → has_prefix s t ≡ true → contains s t ≡ true
unfolding contains
has_prefix-contains String.[] t h = h
has_prefix-contains (String.◌∷◌ c s) t h = rw h refl

or_true : (a : Bool) → (a || true) ≡ true
or_true true = refl
or_true false = refl

-- A text contains what stands in its middle.
pub contains-append :
    (before t after : String) → contains (String.◌++◌ before (String.◌++◌ t after)) t ≡ true
unfolding contains
contains-append String.[] t after =
    rw nil-append (has_prefix-contains (String.◌++◌ t after) t (has_prefix-append t after))
contains-append (String.◌∷◌ c before) t after =
    rw cons-append (rw (contains-append before t after) (or_true _))

has_suffix-itself : (s : String) → has_suffix s s ≡ true
unfolding has_suffix
has_suffix-itself String.[] = refl
has_suffix-itself (String.◌∷◌ c s) = rw (compare_refl (String.◌∷◌ c s)) refl

-- A text has the suffix that it ends in.
pub has_suffix-append : (before t : String) → has_suffix (String.◌++◌ before t) t ≡ true
unfolding has_suffix
has_suffix-append String.[] t = rw nil-append (has_suffix-itself t)
has_suffix-append (String.◌∷◌ c before) t =
    rw cons-append (rw (has_suffix-append before t) (or_true _))
