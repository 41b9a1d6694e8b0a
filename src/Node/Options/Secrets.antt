-- ===== src/Node/Options/Secrets.antt =====
-- Sensitive mount options are kept apart from the normal ones (pkg/iscsi/nodeserver.go).
use csi_driver_for_windows_s.Prelude.{
  true-not-false, ◌≡◌, refl, sym, ap, ◌∙◌, none, some, Bool, true, false, String, ◌==◌, List, [],
  ◌∷◌, All, Bool-cases, inl, inr,
}
use Prim.Native.String
use csi_driver_for_windows_s.Text.{trim_space, to_lower, cut, contains_func}
use csi_driver_for_windows_s.Text.Chars.{char_eq}
use csi_driver_for_windows_s.Text.Cut.{cut-append}
use csi_driver_for_windows_s.Exec.Trace.{MakesOnly}
use csi_driver_for_windows_s.Node.Host.{
  Host, HostCall, mount, mount_sensitive, format_and_mount, format_and_mount_sensitive,
}
use csi_driver_for_windows_s.Node.Options.{
  SplitOptions, put_option, is_secret_key, is_sensitive_mount_option, split_sensitive_mount_options,
  mount_prepared, format_and_mount_prepared,
}
use csi_driver_for_windows_s.Node.Traces.{MakesOnly-make_call}

-- The keys of options that hold a secret.
abbrev secret_words : List String
secret_words = "password" ∷ "pass" ∷ "credentials" ∷ "credential" ∷ []

-- An option with this key, whatever its case and the white space around it.
abbrev HasKey : (key : String) → String → Type 0
HasKey key opt =
    (value : String) × (to_lower (trim_space opt) ≡ String.◌++◌ key (String.◌∷◌ "=" value))

-- An option that may be shown: it has none of these keys.
abbrev pub IsNormal : String → Type 0
IsNormal opt = All (λ key. ¬ (HasKey key opt)) secret_words

has_secret_key : String → Bool
unfolding cut
has_secret_key text = elim (cut text "=") [ none ↦ false | some (key, value) ↦ is_secret_key key ]

has_secret_key-append :
    (key value : String)
    → contains_func (λ c. char_eq c "=") key ≡ false
    → is_secret_key key ≡ true
    → has_secret_key (String.◌++◌ key (String.◌∷◌ "=" value)) ≡ true
unfolding has_secret_key
has_secret_key-append key value plain secret =
    rw (has_secret_key, cut-append "=" key value plain) secret

lacks_key :
    (key opt : String)
    → contains_func (λ c. char_eq c "=") key ≡ false
    → is_secret_key key ≡ true
    → has_secret_key (to_lower (trim_space opt)) ≡ false
    → ¬ (HasKey key opt)
lacks_key key opt plain secret n (value, e) =
    true-not-false
      (sym (has_secret_key-append key value plain secret) ∙ sym (ap has_secret_key e) ∙ n)

pub is_sensitive-IsNormal : (opt : String) → is_sensitive_mount_option opt ≡ false → IsNormal opt
unfolding is_sensitive_mount_option has_secret_key contains_func trim_space
is_sensitive-IsNormal opt h = (
  lacks_key "password" opt refl refl h,
  (
    lacks_key "pass" opt refl refl h,
    (lacks_key "credentials" opt refl refl h, (lacks_key "credential" opt refl refl h, tt)),
  ),
)

-- A call that passes no sensitive option among the normal ones.
unfoldable pub HidesSecrets : HostCall → Type 0
HidesSecrets (mount source target fs_type options) = All IsNormal options
HidesSecrets (mount_sensitive source target fs_type options sensitive) = All IsNormal options
HidesSecrets (format_and_mount source target fs_type options) = All IsNormal options
HidesSecrets (format_and_mount_sensitive source target fs_type options sensitive) =
    All IsNormal options
HidesSecrets _ = Unit

put_option-IsNormal :
    (b : Bool) (opt : String) (rest : SplitOptions)
    → is_sensitive_mount_option opt ≡ b
    → All IsNormal rest.normal
    → All IsNormal (put_option b opt rest).normal
put_option-IsNormal true opt rest e r = r
put_option-IsNormal false opt rest e r = (is_sensitive-IsNormal opt e, r)

pub split_sensitive_mount_options-IsNormal :
    (opts : List String) → All IsNormal (split_sensitive_mount_options opts).normal
unfolding split_sensitive_mount_options
split_sensitive_mount_options-IsNormal [] = tt
split_sensitive_mount_options-IsNormal (opt ∷ opts) =
    let rest = split_sensitive_mount_options-IsNormal opts in
    elim (Bool-cases (trim_space opt == "")) [
      | inl e ↦ rw e rest
      | inr e ↦ rw e (
          put_option-IsNormal (is_sensitive_mount_option (trim_space opt)) (trim_space opt)
            (split_sensitive_mount_options opts) refl rest)
    ]

module _ {S : Type 0} (h : Host S) where
  pub mount_prepared-HidesSecrets :
      (source target fs_type : String) (options sensitive : List String)
      → All IsNormal options
      → MakesOnly HidesSecrets (mount_prepared h source target fs_type options sensitive)
  unfolding mount_prepared HidesSecrets
  mount_prepared-HidesSecrets source target fs_type options [] n =
      MakesOnly-make_call h HidesSecrets (mount source target fs_type options) n
  mount_prepared-HidesSecrets source target fs_type options (secret ∷ secrets) n =
      MakesOnly-make_call h HidesSecrets
        (mount_sensitive source target fs_type options (secret ∷ secrets)) n

  pub format_and_mount_prepared-HidesSecrets :
      (source target fs_type : String) (options sensitive : List String)
      → All IsNormal options
      → MakesOnly HidesSecrets (format_and_mount_prepared h source target fs_type options sensitive)
  unfolding format_and_mount_prepared HidesSecrets
  format_and_mount_prepared-HidesSecrets source target fs_type options [] n =
      MakesOnly-make_call h HidesSecrets (format_and_mount source target fs_type options) n
  format_and_mount_prepared-HidesSecrets source target fs_type options (secret ∷ secrets) n =
      MakesOnly-make_call h HidesSecrets
        (format_and_mount_sensitive source target fs_type options (secret ∷ secrets)) n
