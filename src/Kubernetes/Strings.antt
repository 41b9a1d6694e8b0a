-- ===== src/Kubernetes/Strings.antt =====
-- The helpers on lists of texts and on templates of pkg/iscsi/internal_kubernetes.go
pub mod Finalizers
use Prim.Native.String
use csi_driver_for_windows_s.Prelude.{
  ℕ, zero, suc, Bool, true, false, not, ◌||◌, Option, none, some, String, ◌==◌, len, List, [], ◌∷◌,
  StringMap, index, any, if◌then◌else◌,
}
use csi_driver_for_windows_s.Text.{trim_space, has_prefix, cut_prefix}

-- `hasString`
unfoldable pub has_string : List String → String → Bool
has_string [] needle = false
has_string (value ∷ values) needle = value == needle || has_string values needle

-- `removeString`
unfoldable pub remove_string : List String → String → List String
remove_string [] needle = []
remove_string (value ∷ values) needle =
    let rest = remove_string values needle in if value == needle then rest else value ∷ rest

-- The loop of `uniqueStrings`; `seen` are the values that are kept already.
unfoldable pub unique_after : (seen values : List String) → List String
unfolding trim_space has_string
unique_after seen [] = []
unique_after seen (value ∷ values) =
    let is_left_out = trim_space value == "" || has_string seen value in
    let rest = unique_after (if is_left_out then seen else value ∷ seen) values in
    if is_left_out then rest else value ∷ rest

-- `uniqueStrings`
unfoldable pub unique_strings : List String → List String
unfolding unique_after
unique_strings values = unique_after [] values

-- `firstParam`
unfoldable pub first_param : StringMap → List String → String
unfolding index trim_space
first_param params [] = ""
first_param params (key ∷ keys) =
    let rest = first_param params keys in
    let value = trim_space (index key params) in if value == "" then rest else value

-- The first of the old texts that stands at the front of `s`, and what replaces it.
first_match : List (String × String) → String → Option (String × String)
unfolding has_prefix cut_prefix
first_match [] s = none
first_match ((old, new) ∷ pairs) s =
    let later = first_match pairs s in if has_prefix s old then some (old, new) else later

char_count : String → ℕ
char_count String.[] = 0
char_count (String.◌∷◌ c s) = suc (char_count s)

-- The characters of an old text behind its first one are left out.
chars_behind_first : String → ℕ
unfolding char_count
chars_behind_first String.[] = 0
chars_behind_first (String.◌∷◌ c s) = char_count s

-- `strings.NewReplacer(…).Replace`, for old texts that are not empty: at each place the first old text
-- that fits is replaced. `skip` characters are still left out.
replace_from : List (String × String) → ℕ → String → String
unfolding first_match chars_behind_first
replace_from pairs skip String.[] = ""
replace_from pairs (suc skip) (String.◌∷◌ c s) = replace_from pairs skip s
replace_from pairs zero (String.◌∷◌ c s) = elim (first_match pairs (String.◌∷◌ c s)) [
  | none ↦ String.◌∷◌ c (replace_from pairs zero s)
  | some (old, new) ↦ String.◌++◌ new (replace_from pairs (chars_behind_first old) s)
]

-- `expandSecretTemplate`
unfoldable pub expand_secret_template : (value pvc_namespace pvc_name pv_name : String) → String
unfolding replace_from
expand_secret_template value pvc_namespace pvc_name pv_name =
    replace_from
      (("${pvc.namespace}", pvc_namespace)
        ∷ ("${pvc.name}", pvc_name)
        ∷ ("${pv.name}", pv_name)
        ∷ [])
      0 value
