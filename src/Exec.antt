-- ===== src/Exec.antt =====
-- Handlers: functions that make calls and may fail with a gRPC status. The calls that were made are
-- kept in their order, and stay made if a later step fails. The text of a status is not modelled.
-- `C` is the type of the calls: those of the controller's backend, or those of a node's host.
pub mod Success
pub mod Trace
pub mod Order
use csi_driver_for_windows_s.Prelude.{
  List, [], ◌∷◌, ◌++◌, Result, ok, err, Bool, true, false, Option, to_option,
}

-- google.golang.org/grpc/codes, as far as the driver uses it
pub data Code : Type 0 where
  invalid_argument not_found already_exists failed_precondition : Code
  internal unimplemented unavailable unknown : Code

pub record World (C S : Type 0) : Type 0 where
  pub state : S
  pub trace : List C

abbrev pub Exec : Type 0 → Type 0 → Type 0 → Type 0
Exec C S A = World C S → Result Code A × World C S

module _ {C S A : Type 0} where
  abbrev pub pure : A → Exec C S A
  pure a w = (ok a, w)

  abbrev pub fail : Code → Exec C S A
  fail c w = (err c, w)

  abbrev pub lift : Result Code A → Exec C S A
  lift r w = (r, w)

module _ {C S A B : Type 0} where
  abbrev pub continue : Result Code A → (A → Exec C S B) → Exec C S B
  continue (ok a) f w = f a w
  continue (err c) f w = (err c, w)

  infixl 5 ◌>>=◌ ◌>>◌
  abbrev pub ◌>>=◌ : Exec C S A → (A → Exec C S B) → Exec C S B
  ◌>>=◌ m f w = let (r, w') = m w in continue r f w'

  abbrev pub ◌>>◌ : Exec C S A → Exec C S B → Exec C S B
  m >> n = m >>= λ _. n

-- A step whose error is ignored, or only looked at by whether there is one.
unfoldable pub ignoring : {C S A : Type 0} → Exec C S A → Exec C S (Option A)
ignoring m w = let (r, w') = m w in (ok (to_option r), w')

-- `if condition { return nil, status.Error(code, …) }`
abbrev pub stop_if : {C S : Type 0} → Bool → Code → Exec C S (Unit {0})
stop_if true c = fail c
stop_if false c = pure tt

-- One more call behind those that were made.
infixl 20 ◌▷◌
abbrev pub ◌▷◌ : {C : Type 0} → List C → C → List C
calls ▷ c = calls ++ c ∷ []
