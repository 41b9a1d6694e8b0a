-- ===== src/Filepath.antt =====
-- The functions of Go's package `path/filepath` that the driver uses, as on Unix.
use Prim.Native.String
use mathlib.Core.List.{reverse}
use csi_driver_for_windows_s.Prelude.{
  Bool, true, false, ◌||◌, String, ◌==◌, List, [], ◌∷◌, if◌then◌else◌,
}
use csi_driver_for_windows_s.Text.{is_char, has_prefix, split, join, trim_right}

-- `..` behind the elements that stand already, the last of them first.
go_back : Bool → List String → List String
go_back true [] = []
go_back false [] = ".." ∷ []
go_back rooted (last ∷ out) = if last == ".." then ".." ∷ last ∷ out else out

clean_element : Bool → List String → String → List String
unfolding go_back
clean_element rooted out element =
    if element == "" || element == "."
    then out
    else if element == ".."
    then go_back rooted out
    else element ∷ out

clean_elements : Bool → List String → List String → List String
unfolding clean_element
clean_elements rooted out [] = out
clean_elements rooted out (element ∷ elements) =
    clean_elements rooted (clean_element rooted out element) elements

-- `filepath.Clean`
unfoldable pub clean : String → String
unfolding clean_elements has_prefix split join
clean path =
    let rooted = has_prefix path "/" in
    let body = join "/" (reverse (clean_elements rooted [] (split (is_char b'/') path))) in
    if rooted then String.◌++◌ "/" body else if body == "" then "." else body

-- `filepath.Join`: empty elements in front are left out.
unfoldable pub join_path : List String → String
unfolding clean join
join_path [] = ""
join_path (element ∷ elements) =
    if element == "" then join_path elements else clean (join "/" (element ∷ elements))

-- The elements of a path up to its last slash, with the slash.
up_to_slash : List String → String
up_to_slash [] = ""
up_to_slash (last ∷ []) = ""
up_to_slash (element ∷ elements) = String.◌++◌ element (String.◌++◌ "/" (up_to_slash elements))

-- `filepath.Dir`
unfoldable pub dir : String → String
unfolding clean up_to_slash split
dir path = clean (up_to_slash (split (is_char b'/') path))

last_element : List String → String
last_element [] = ""
last_element (last ∷ []) = last
last_element (element ∷ elements) = last_element elements

-- `filepath.Base`
unfoldable pub base : String → String
unfolding last_element split trim_right
base path =
    let name = last_element (split (is_char b'/') (trim_right (is_char b'/') path)) in
    if path == "" then "." else if name == "" then "/" else name
