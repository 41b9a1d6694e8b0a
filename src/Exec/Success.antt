-- ===== src/Exec/Success.antt =====
-- A handler that succeeds went through all its parts.
use mathlib.Core.Path.{subst⁻¹}
use csi_driver_for_windows_s.Prelude.{
  ◌≡◌, refl, sym, ap, ◌∙◌, Bool, true, false, Result, ok, err, if◌then◌else◌,
}
use csi_driver_for_windows_s.Exec.{Code, World, Exec, stop_if, continue, ◌>>=◌, ◌>>◌}
use csi_driver_for_windows_s.Exec.Trace.{Yields}

module _ {C S A B : Type 0} where
  continue-ok :
      (r : Result Code A) (f : A → Exec C S B) (w : World C S) {out : B}
      → (continue r f w).0 ≡ ok out
      → (a : A) × (r ≡ ok a) × (continue r f w ≡ f a w)
  continue-ok (ok a) f w h = (a, refl, refl)
  continue-ok (err c) f w h = cc

  -- The first part succeeded, and the rest went on from where it ended.
  pub >>=-ok :
      (m : Exec C S A) (f : A → Exec C S B) (w : World C S) {out : B}
      → ((m >>= f) w).0 ≡ ok out
      → (a : A) × ((m w).0 ≡ ok a) × ((m >>= f) w ≡ f a (m w).1)
  >>=-ok m f w h = continue-ok (m w).0 f (m w).1 h

-- The test did not stop the handler.
pub stop_if-ok :
    {C S A : Type 0} (t : Bool) (c : Code) (m : Exec C S A) (w : World C S) {out : A}
    → ((stop_if t c >> m) w).0 ≡ ok out
    → (t ≡ false) × ((stop_if t c >> m) w ≡ m w)
stop_if-ok true c m w h = cc
stop_if-ok false c m w h = (refl, refl)

-- A test that is false does not stop the handler.
pub stop_if-false :
    {C S A : Type 0} (t : Bool) (c : Code) (m : Exec C S A) (w : World C S)
    → t ≡ false
    → (stop_if t c >> m) w ≡ m w
stop_if-false true c m w h = cc
stop_if-false false c m w h = refl

-- The world in which `m` succeeds has the property `Q`.
pub record Reaches {C S A : Type 0} (Q : World C S → Type 0) (m : Exec C S A) : Type 0 where
  pub reach : (w : World C S) (a : A) → (m w).0 ≡ ok a → Q (m w).1

pub Reaches-bind :
    {C S A B : Type 0} {Q : World C S → Type 0} (m : Exec C S A) {f : A → Exec C S B}
    → ((a : A) → Reaches Q (f a))
    → Reaches Q (m >>= f)
Reaches-bind {Q = Q} m {f = f} h = record {
  reach = λ w b done.
      let (a, r, e) = >>=-ok m f w done in
      subst⁻¹ (λ x. Q x.1) e ((h a).reach (m w).1 b (sym (ap (λ x. x.0) e) ∙ done));
}

-- As above, where the first part yields only results with the property `R`.
pub Reaches-bind_yielded :
    {C S A B : Type 0} {Q : World C S → Type 0} (R : A → Type 0) (m : Exec C S A)
    {f : A → Exec C S B}
    → Yields R m
    → ((a : A) → R a → Reaches Q (f a))
    → Reaches Q (m >>= f)
Reaches-bind_yielded {Q = Q} R m {f = f} y h = record {
  reach = λ w b done.
      let (a, r, e) = >>=-ok m f w done in
      subst⁻¹ (λ x. Q x.1) e ((h a (y.yield w a r)).reach (m w).1 b (sym (ap (λ x. x.0) e) ∙ done));
}

pub Reaches-else :
    {C S A : Type 0} {Q : World C S → Type 0} (t : Bool) (m : Exec C S A) {n : Exec C S A}
    → t ≡ false
    → Reaches Q n
    → Reaches Q (if t then m else n)
Reaches-else true m h r = cc
Reaches-else false m h r = r
