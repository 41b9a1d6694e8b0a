-- ===== src/Kubernetes/Strings/Finalizers.antt =====
-- What `updatePVFinalizers` and `updateVAFinalizers` write (pkg/iscsi/internal_kubernetes.go)
use csi_driver_for_windows_s.Prelude.{◌≡◌, not, ◌&&◌, String, ◌==◌, List, [], ◌∷◌, arith, eq_iff}
use csi_driver_for_windows_s.Text.{trim_space}
use csi_driver_for_windows_s.Kubernetes.Strings.{
  has_string, remove_string, unique_after, unique_strings,
}

-- A text is in the list that `uniqueStrings` goes on with, if it is not blank, not kept yet, and in the
-- values.
has_string-unique_after :
    (seen values : List String) (x : String)
    → has_string (unique_after seen values) x
      ≡ (not (trim_space x == "") && not (has_string seen x) && has_string values x)
unfolding unique_after has_string
has_string-unique_after seen [] x = ground arith
has_string-unique_after seen (value ∷ values) x =
    let ih = has_string-unique_after seen values x in
    let ih' = has_string-unique_after (value ∷ seen) values x in grind (arith, eq_iff, ih, ih')

has_string-remove_string :
    (values : List String) (needle x : String)
    → has_string (remove_string values needle) x ≡ (not (x == needle) && has_string values x)
unfolding remove_string has_string
has_string-remove_string [] needle x = ground arith
has_string-remove_string (value ∷ values) needle x =
    let ih = has_string-remove_string values needle x in grind (arith, eq_iff, ih)

-- The finalizers that are written when one is removed are those that were there, without this one and
-- without blank ones.
pub has_string-unique_strings-remove_string :
    (finalizers : List String) (finalizer x : String)
    → has_string (unique_strings (remove_string finalizers finalizer)) x
      ≡ (not (trim_space x == "") && not (x == finalizer) && has_string finalizers x)
unfolding unique_strings has_string
has_string-unique_strings-remove_string finalizers finalizer x =
    rw (has_string-unique_after [] (remove_string finalizers finalizer) x)
      (rw (has_string-remove_string finalizers finalizer x) ground arith)
