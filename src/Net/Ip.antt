-- ===== src/Net/Ip.antt =====
-- The texts that `net.ParseIP` accepts.
use csi_driver_for_windows_s.Prelude.{
  ℕ, zero, suc, ◌+◌, ◌-◌, ◌*◌, code, Char, Bool, true, false, ◌||◌, ◌&&◌, not, String, ltb, leb,
  nat_eq, if◌then◌else◌, ◌==◌, length, all, ◌≡◌, refl,
}
use csi_driver_for_windows_s.Text.{is_char, contains_func, split}
use csi_driver_for_windows_s.Text.Chars.{is_digit}

is_hex : Char → Bool
unfolding is_digit
is_hex c =
    is_digit c
    || (leb b'a' (code c) && leb (code c) b'f')
    || (leb b'A' (code c) && leb (code c) b'F')

digits_value : ℕ → String → ℕ
digits_value n String.[] = n
digits_value n (String.◌∷◌ c s) = digits_value (n * 10 + (code c - b'0')) s

all_digits : String → Bool
unfolding contains_func is_digit
all_digits s = not (contains_func (λ c. not (is_digit c)) s)

starts_with_zero : String → Bool
starts_with_zero String.[] = false
starts_with_zero (String.◌∷◌ c String.[]) = false
starts_with_zero (String.◌∷◌ c s) = is_char b'0' c

-- A decimal field from 0 to 255 with no leading zero.
is_octet : String → Bool
unfolding all_digits digits_value starts_with_zero
is_octet s = not (s == "") && all_digits s && not (starts_with_zero s) && leb (digits_value 0 s) 255

is_ipv4 : String → Bool
unfolding is_octet split
is_ipv4 s = let fields = split (is_char b'.') s in nat_eq (length fields) 4 && all is_octet fields

-- The number of hexadecimal digits at the head of a text, and the rest.
take_hex : String → ℕ × String
unfolding is_hex
take_hex String.[] = (0, "")
take_hex (String.◌∷◌ c s) =
    let (n, rest) = take_hex s in if is_hex c then (suc n, rest) else (0, String.◌∷◌ c s)

-- What stands behind a group of digits.
pub data Behind : Type 0 where
  ends dotted bad final_colon : Behind
  group ellipsis : String → Behind

after_colon : String → Behind
after_colon String.[] = final_colon
after_colon (String.◌∷◌ c s) = if is_char b':' c then ellipsis s else group (String.◌∷◌ c s)

behind : String → Behind
unfolding after_colon
behind String.[] = ends
behind (String.◌∷◌ c s) =
    if is_char b'.' c then dotted else if is_char b':' c then after_colon s else bad

-- The loop of `parseIPv6` with `left` groups to go; `seen` says that `::` has been read. An address
-- with `::` has room left for it, and one without has none.
groups : ℕ → Bool → String → Bool
unfolding take_hex behind is_ipv4
groups zero seen s = s == "" && not seen
groups (suc left) seen s =
    let (n, rest) = take_hex s in
    let next = λ (t : String). groups left seen t in
    let next_seen = λ (t : String). groups left true t in
    if nat_eq n 0 || ltb 4 n then false else elim (behind rest) [
      | ends ↦ if nat_eq left 0 then not seen else seen
      | dotted ↦
          is_ipv4 s && (if nat_eq left 1 then not seen else if nat_eq left 0 then false else seen)
      | bad ↦ false
      | final_colon ↦ false
      | group t ↦ next t
      | ellipsis t ↦ if seen then false else if t == "" then not (nat_eq left 0) else next_seen t
    ]

leading_ellipsis : String → Behind
unfolding after_colon
leading_ellipsis String.[] = bad
leading_ellipsis (String.◌∷◌ c s) = if is_char b':' c then after_colon s else bad

is_ipv6 : String → Bool
unfolding groups leading_ellipsis
is_ipv6 s = elim (leading_ellipsis s) [
  | ellipsis t ↦ t == "" || groups 8 true t
  | _ ↦ groups 8 false s
]

-- The first of `.`, `:` and `%` says which kind of address is read.
first_mark : String → Bool × Bool
first_mark String.[] = (false, false)
first_mark (String.◌∷◌ c s) =
    if is_char b'.' c
    then (true, false)
    else if is_char b':' c
    then (false, true)
    else if is_char b'%' c
    then (false, false)
    else first_mark s

-- `net.ParseIP(s) != nil`; a zone makes it nil.
unfoldable pub is_ip : String → Bool
unfolding is_ipv4 is_ipv6 first_mark contains_func
is_ip s =
    let (v4, v6) = first_mark s in
    (v4 && is_ipv4 s) || (v6 && not (contains_func (is_char b'%') s) && is_ipv6 s)

accepted_addresses :
    (is_ip "fe80::1" ≡ true)
    × (is_ip "::" ≡ true)
    × (is_ip "1:2:3:4:5:6:7:8" ≡ true)
    × (is_ip "::ffff:10.0.0.1" ≡ true)
    × (is_ip "10.0.0.1" ≡ true)
unfolding is_ip
accepted_addresses = (refl, refl, refl, refl, refl)

refused_addresses :
    (is_ip "1:2:3" ≡ false)
    × (is_ip "1::2::3" ≡ false)
    × (is_ip "host:1:2" ≡ false)
    × (is_ip "1:2:3:4:5:6:7::8" ≡ false)
    × (is_ip "10.0.0.01" ≡ false)
    × (is_ip "fe80::1%eth0" ≡ false)
unfolding is_ip
refused_addresses = (refl, refl, refl, refl, refl, refl)
