-- ===== src/Text/Chars.antt =====
-- The tests of Go's package `unicode` on one code point. A Go `string` is read as a text of code
-- points: gRPC strings are valid UTF-8.
use csi_driver_for_windows_s.Prelude.{
  ℕ, Char, code, Bool, ◌||◌, ◌&&◌, List, [], ◌∷◌, ltb, leb, nat_eq, if◌then◌else◌,
}

-- `unicode.IsSpace`
unfoldable pub is_space : Char → Bool
is_space c =
    let n = code c in
    (leb 9 n && leb n 13)
    || nat_eq n 32
    || nat_eq n 133
    || nat_eq n 160
    || nat_eq n 5760
    || (leb 8192 n && leb n 8202)
    || nat_eq n 8232
    || nat_eq n 8233
    || nat_eq n 8239
    || nat_eq n 8287
    || nat_eq n 12288

-- `unicode.IsControl`
unfoldable pub is_control : Char → Bool
is_control c = let n = code c in ltb n 32 || (leb 127 n && ltb n 160)

abbrev pub char_eq : Char → Char → Bool
char_eq c d = nat_eq (code c) (code d)

unfoldable pub is_digit : Char → Bool
is_digit c = leb b'0' (code c) && leb (code c) b'9'

-- `isASCIIAlpha` of controllerserver.go
unfoldable pub is_ascii_alpha : Char → Bool
is_ascii_alpha c =
    (leb b'A' (code c) && leb (code c) b'Z') || (leb b'a' (code c) && leb (code c) b'z')

-- The code points whose lower case is an ASCII letter: the capitals, U+0130 and the Kelvin sign.
abbrev capitals : List (ℕ × Char)
capitals =
    (65, "a")
    ∷ (66, "b")
    ∷ (67, "c")
    ∷ (68, "d")
    ∷ (69, "e")
    ∷ (70, "f")
    ∷ (71, "g")
    ∷ (72, "h")
    ∷ (73, "i")
    ∷ (74, "j")
    ∷ (75, "k")
    ∷ (76, "l")
    ∷ (77, "m")
    ∷ (78, "n")
    ∷ (79, "o")
    ∷ (80, "p")
    ∷ (81, "q")
    ∷ (82, "r")
    ∷ (83, "s")
    ∷ (84, "t")
    ∷ (85, "u")
    ∷ (86, "v")
    ∷ (87, "w")
    ∷ (88, "x")
    ∷ (89, "y")
    ∷ (90, "z")
    ∷ (304, "i")
    ∷ (8490, "k")
    ∷ []

find_char : List (ℕ × Char) → Char → Char
find_char [] c = c
find_char ((n, d) ∷ rest) c = if nat_eq n (code c) then d else find_char rest c

-- `unicode.ToLower`, as far as its result is ASCII. Any other letter keeps a code point outside
-- ASCII, as it does in Go, so that a comparison with an ASCII text has the same answer.
unfoldable pub lower_char : Char → Char
unfolding find_char
lower_char c = find_char capitals c
