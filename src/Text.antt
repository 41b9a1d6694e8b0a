-- ===== src/Text.antt =====
-- The functions of Go's package `strings` that the driver uses.
pub mod Chars
pub mod Trim
pub mod Cut
use Prim.Native.String
use csi_driver_for_windows_s.Prelude.{
  ℕ, Char, code, Bool, true, false, ◌||◌, ◌&&◌, not, Option, none, some, List, [], ◌∷◌, String,
  ◌==◌, nat_eq, if◌then◌else◌,
}
use Chars.{is_space, char_eq, lower_char}

-- `strings.TrimLeftFunc`
unfoldable pub trim_left : (Char → Bool) → String → String
trim_left p String.[] = ""
trim_left p (String.◌∷◌ c s) = if p c then trim_left p s else String.◌∷◌ c s

-- One more character in front of what is left of the text behind it.
keep_char : Bool → Char → String → String
keep_char true c String.[] = ""
keep_char dropped c s = String.◌∷◌ c s

-- `strings.TrimRightFunc`
unfoldable pub trim_right : (Char → Bool) → String → String
unfolding keep_char
trim_right p String.[] = ""
trim_right p (String.◌∷◌ c s) = keep_char (p c) c (trim_right p s)

-- `strings.TrimSpace`
unfoldable pub trim_space : String → String
unfolding trim_left trim_right is_space
trim_space s = trim_right is_space (trim_left is_space s)

-- `strings.ToLower`
unfoldable pub to_lower : String → String
unfolding lower_char
to_lower String.[] = ""
to_lower (String.◌∷◌ c s) = String.◌∷◌ (lower_char c) (to_lower s)

-- `strings.ContainsFunc`; `strings.ContainsAny` with a test for a set of characters.
unfoldable pub contains_func : (Char → Bool) → String → Bool
contains_func p String.[] = false
contains_func p (String.◌∷◌ c s) = p c || contains_func p s

abbrev pub is_char : ℕ → Char → Bool
is_char n c = nat_eq (code c) n

-- `/` or `\`
abbrev pub is_slash : Char → Bool
is_slash c = is_char b'/' c || is_char b'\\' c

-- The rest of a text behind a prefix, as in `strings.CutPrefix`.
unfoldable pub cut_prefix : String → String → Option String
cut_prefix s String.[] = some s
cut_prefix String.[] (String.◌∷◌ d t) = none
cut_prefix (String.◌∷◌ c s) (String.◌∷◌ d t) = if char_eq c d then cut_prefix s t else none

is_found : Option String → Bool
is_found none = false
is_found (some rest) = true

-- `strings.HasPrefix`
unfoldable pub has_prefix : String → String → Bool
unfolding cut_prefix is_found
has_prefix s t = is_found (cut_prefix s t)

-- `strings.TrimPrefix`
unfoldable pub trim_prefix : String → String → String
unfolding cut_prefix
trim_prefix s t = elim (cut_prefix s t) [ none ↦ s | some rest ↦ rest ]

-- `strings.HasSuffix`
unfoldable pub has_suffix : String → String → Bool
has_suffix String.[] t = "" == t
has_suffix (String.◌∷◌ c s) t = String.◌∷◌ c s == t || has_suffix s t

-- `strings.Contains`
unfoldable pub contains : String → String → Bool
unfolding has_prefix
contains String.[] t = has_prefix "" t
contains (String.◌∷◌ c s) t = has_prefix (String.◌∷◌ c s) t || contains s t

before_cons : Char → Option (String × String) → Option (String × String)
before_cons c none = none
before_cons c (some (before, after)) = some (String.◌∷◌ c before, after)

first_cut : Option String → Option (String × String) → Option (String × String)
first_cut none later = later
first_cut (some rest) later = some ("", rest)

-- `strings.Cut` at the first occurrence of a separator that is not empty. It stands for
-- `strings.Index` too: the index is the length of the first part.
unfoldable pub cut : String → String → Option (String × String)
unfolding before_cons first_cut cut_prefix
cut String.[] sep = none
cut (String.◌∷◌ c s) sep = first_cut (cut_prefix (String.◌∷◌ c s) sep) (before_cons c (cut s sep))

part_cons : Char → List String → List String
part_cons c [] = String.◌∷◌ c "" ∷ []
part_cons c (part ∷ parts) = String.◌∷◌ c part ∷ parts

-- `strings.Split` at each character of a set. It has one part more than the text has separators.
unfoldable pub split : (Char → Bool) → String → List String
unfolding part_cons
split p String.[] = "" ∷ []
split p (String.◌∷◌ c s) = let rest = split p s in if p c then "" ∷ rest else part_cons c rest

unfoldable pub non_empty : List String → List String
non_empty [] = []
non_empty (part ∷ parts) = let rest = non_empty parts in if part == "" then rest else part ∷ rest

-- `strings.FieldsFunc`
unfoldable pub fields_func : (Char → Bool) → String → List String
unfolding split non_empty
fields_func p s = non_empty (split p s)

-- `strings.ReplaceAll` of one character by another.
unfoldable pub replace_char : ℕ → Char → String → String
replace_char n d String.[] = ""
replace_char n d (String.◌∷◌ c s) = String.◌∷◌ (if is_char n c then d else c) (replace_char n d s)

-- `strings.ReplaceAll` of one character by nothing.
unfoldable pub remove_char : ℕ → String → String
remove_char n String.[] = ""
remove_char n (String.◌∷◌ c s) =
    let rest = remove_char n s in if is_char n c then rest else String.◌∷◌ c rest

-- `strings.Join`
unfoldable pub join : String → List String → String
join sep [] = ""
join sep (part ∷ []) = part
join sep (part ∷ parts) = String.◌++◌ part (String.◌++◌ sep (join sep parts))

-- The code points that `strings.EqualFold` identifies with an ASCII letter.
fold_char : Char → Char
unfolding lower_char
fold_char c = if is_char 383 c then "s" else if is_char 304 c then c else lower_char c

-- `strings.EqualFold` on texts whose letters are ASCII (snapshot identifiers are GUIDs).
unfoldable pub equal_fold : String → String → Bool
unfolding fold_char
equal_fold String.[] String.[] = true
equal_fold String.[] (String.◌∷◌ d t) = false
equal_fold (String.◌∷◌ c s) String.[] = false
equal_fold (String.◌∷◌ c s) (String.◌∷◌ d t) = char_eq (fold_char c) (fold_char d) && equal_fold s t
