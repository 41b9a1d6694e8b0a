-- ===== src/Controller/Chap/Effects.antt =====
-- What `configureTargetChapFromSecrets` (pkg/iscsi/controllerserver.go) calls.
use mathlib.Core.List.{append-nil}
use csi_driver_for_windows_s.Prelude.{
  ◌≡◌, refl, sym, ap, ◌∙◌, String, ◌==◌, ◌&&◌, not, ◌||◌, StringMap, List, [], ◌∷◌, ◌++◌, ok,
  if◌then◌else◌, Bool-cases, inl, inr, Bool, true, false,
}
use csi_driver_for_windows_s.Backend.Exec.{World, lift, invoke}
use csi_driver_for_windows_s.Exec.Success.{>>=-ok}
use csi_driver_for_windows_s.Text.{trim_space}
use csi_driver_for_windows_s.Backend.{
  Call, Backend, TargetChapOptions, enabled, configure_target_chap,
}
use csi_driver_for_windows_s.Backend.Exec.Trace.{
  MakesOnly, MakesOnly-lift, MakesOnly-pure, MakesOnly-if, MakesOnly-invoke, MakesOnly-bind,
}
use csi_driver_for_windows_s.Controller.Chap.{
  target_chap_options_from_secrets, apply_chap, configure_target_chap_from_secrets,
}

-- The credentials go to the target that is named, and nothing else is called.
pub MakesOnly-configure_target_chap_from_secrets :
    {S : Type 0} {P : Call → Type 0} (b : Backend S) (target_name : String) (secrets : StringMap)
    → ((o : TargetChapOptions) → P (configure_target_chap target_name o))
    → MakesOnly P (configure_target_chap_from_secrets b target_name secrets)
unfolding configure_target_chap_from_secrets apply_chap
MakesOnly-configure_target_chap_from_secrets b target_name secrets h =
    MakesOnly-bind (MakesOnly-lift (target_chap_options_from_secrets secrets)) (λ o.
      MakesOnly-if (enabled o) (λ _. MakesOnly-invoke b (configure_target_chap target_name o) (h o))
        (λ _. MakesOnly-pure tt))

-- Options without any credentials: all four texts are blank.
abbrev are_blank : TargetChapOptions → Bool
are_blank o =
    trim_space o.chap_user == ""
    && (trim_space o.chap_secret == ""
        && (trim_space o.reverse_chap_user == "" && trim_space o.reverse_chap_secret == ""))

-- The calls that give a target its credentials: none where there are none.
unfoldable pub credentials_calls : String → TargetChapOptions → List Call
credentials_calls target_name o =
    if are_blank o then [] else configure_target_chap target_name o ∷ []

not_all : (p q r s : Bool) → (not p || not q || not r || not s) ≡ not (p && (q && (r && s)))
not_all true true true s = refl
not_all true true false s = refl
not_all true false r s = refl
not_all false q r s = refl

enabled-are_blank : (o : TargetChapOptions) → enabled o ≡ not (are_blank o)
unfolding enabled
enabled-are_blank o = not_all _ _ _ _

module _ {S : Type 0} (b : Backend S) (target_name : String) where
  apply_chap-trace :
      (o : TargetChapOptions) (w : World S)
      → (apply_chap b target_name o w).1.trace ≡ w.trace ++ credentials_calls target_name o
  unfolding apply_chap credentials_calls invoke
  apply_chap-trace o w = elim (Bool-cases (are_blank o)) [
    | inl h ↦ rw (enabled-are_blank o) (rw h (sym (append-nil w.trace)))
    | inr h ↦ rw (enabled-are_blank o) (rw h refl)
  ]

  -- Where it succeeds, the secrets could be read, and the target has got what they hold.
  pub configure_target_chap-ok :
      (secrets : StringMap) (w : World S) {u : Unit {0}}
      → (configure_target_chap_from_secrets b target_name secrets w).0 ≡ ok u
      → (o : TargetChapOptions) × (target_chap_options_from_secrets secrets ≡ ok o)
        × ((configure_target_chap_from_secrets b target_name secrets w).1.trace
            ≡ w.trace ++ credentials_calls target_name o)
  unfolding configure_target_chap_from_secrets
  configure_target_chap-ok secrets w h =
      let (o, r, e) =
        >>=-ok (lift (target_chap_options_from_secrets secrets)) (apply_chap b target_name) w h in
      (o, r, ap (λ x. x.1.trace) e ∙ apply_chap-trace o w)
