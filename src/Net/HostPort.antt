-- ===== src/Net/HostPort.antt =====
-- Joining a host and a port and splitting them again.
use Prim.Native.String
use text.Mathlib.TextLemmas.{nil-append, cons-append}
use csi_driver_for_windows_s.Prelude.{
  ℕ, ◌≡◌, refl, String, arith, true, false, Bool-cases, inl, inr, ◌∙◌, some, none,
}
use csi_driver_for_windows_s.Text.{contains_func, cut_prefix, is_char}
use csi_driver_for_windows_s.Text.Cut.{contains_func-append, cut-append}
use csi_driver_for_windows_s.Net.{
  has_char, split_bracketed, split_plain, split_host_port, join_host_port,
}

-- A text that holds no opening bracket does not begin with one.
cut_prefix-bracket : (s : String) → has_char b'[' s ≡ false → cut_prefix s "[" ≡ none
unfolding cut_prefix contains_func
cut_prefix-bracket String.[] h = refl
cut_prefix-bracket (String.◌∷◌ c s) h = ground arith

cut_prefix-append : (s t : String) → cut_prefix (String.◌++◌ s t) s ≡ some t
unfolding cut_prefix
cut_prefix-append String.[] t = rw nil-append
cut_prefix-append (String.◌∷◌ c s) t = rw cons-append (ground (arith, cut_prefix-append s t))

split_host_port-plain : (s : String) → has_char b'[' s ≡ false → split_host_port s ≡ split_plain s
unfolding split_host_port
split_host_port-plain s h = rw (cut_prefix-bracket s h, split_host_port)

colon-append : (t : String) → String.◌++◌ ":" t ≡ String.◌∷◌ ":" t
colon-append t = rw (cons-append, nil-append)

close-append : (t : String) → String.◌++◌ "]:" t ≡ String.◌∷◌ "]" (String.◌∷◌ ":" t)
close-append t = rw (cons-append, cons-append, nil-append)

open-append : (t : String) → String.◌++◌ "[" t ≡ String.◌∷◌ "[" t
open-append t = rw (cons-append, nil-append)

module _ (host port : String) (open_host : has_char b'[' host ≡ false)
    (close_host : has_char b']' host ≡ false) (colon_port : has_char b':' port ≡ false)
    (open_port : has_char b'[' port ≡ false) (close_port : has_char b']' port ≡ false) where
  -- The joined text without brackets.
  no_bracket :
      (n : ℕ)
      → is_char n ":" ≡ false
      → has_char n host ≡ false
      → has_char n port ≡ false
      → has_char n (String.◌++◌ host (String.◌∷◌ ":" port)) ≡ false
  unfolding contains_func
  no_bracket n k h p = rw contains_func-append (ground arith)

  split_plain_lem :
      has_char b':' host ≡ false
      → split_plain (String.◌++◌ host (String.◌∷◌ ":" port)) ≡ some (host, port)
  unfolding split_plain
  split_plain_lem h =
      rw (no_bracket b'[' refl open_host open_port, no_bracket b']' refl close_host close_port)
        (rw (cut-append ":" host port h) (rw colon_port))

  no_bracket_bracketed :
      has_char b'[' (String.◌++◌ host (String.◌∷◌ "]" (String.◌∷◌ ":" port))) ≡ false
  unfolding contains_func
  no_bracket_bracketed = rw contains_func-append (ground arith)

  split_bracketed_lem :
      split_bracketed (String.◌++◌ host (String.◌∷◌ "]" (String.◌∷◌ ":" port))) ≡ some (host, port)
  unfolding split_bracketed
  split_bracketed_lem =
      rw (no_bracket_bracketed, cut-append "]" host (String.◌∷◌ ":" port) close_host)
        (rw (colon_port, close_port))

  join_plain :
      has_char b':' host ≡ false → join_host_port host port ≡ String.◌++◌ host (String.◌∷◌ ":" port)
  unfolding join_host_port
  join_plain h = rw (h, colon-append port)

  join_bracketed :
      has_char b':' host ≡ true
      → join_host_port host port
        ≡ String.◌∷◌ "[" (String.◌++◌ host (String.◌∷◌ "]" (String.◌∷◌ ":" port)))
  unfolding join_host_port
  join_bracketed h = rw (h, close-append port, open-append _)

  -- A host and a port that hold no bracket, and a port without a colon, survive the way through the
  -- joined form, whether or not the host is an IPv6 address.
  pub split_host_port-join_host_port :
      split_host_port (join_host_port host port) ≡ some (host, port)
  split_host_port-join_host_port = elim (Bool-cases (has_char b':' host)) [
    | inl h ↦ rw (join_bracketed h) (unfold split_host_port cut_prefix in split_bracketed_lem)
    | inr h ↦
        rw (join_plain h)
          (split_host_port-plain _ (no_bracket b'[' refl open_host open_port) ∙ split_plain_lem h)
  ]
