-- ===== src/Backend/Exec/Trace.antt =====
-- Which calls a handler of the controller makes: the rules for its calls of the backend.
use csi_driver_for_windows_s.Prelude.{◌≡◌, refl, [], ◌∷◌, some, with_error-eq-ok}
use csi_driver_for_windows_s.Backend.{Call, Reply, Backend}
use csi_driver_for_windows_s.Backend.Exec.{internal, invoke, attempt}
pub use csi_driver_for_windows_s.Exec.Trace.{
  MakesOnly, MakesOnly-map, MakesOnly-lift, MakesOnly-pure, MakesOnly-if, MakesOnly-stop_if,
  MakesOnly-bind, MakesOnly-behind, MakesOnly-bind_yielded, Yields, Yields-pure, Yields-if,
  Yields-bind_yielded,
}

module _ {S : Type 0} {P : Call → Type 0} where
  pub MakesOnly-invoke : (b : Backend S) (c : Call) → P c → MakesOnly P (invoke b c)
  unfolding invoke
  MakesOnly-invoke b c h = record { at = λ w. (c ∷ [], refl, (h, tt)) }

  pub MakesOnly-attempt : (b : Backend S) (c : Call) → P c → MakesOnly P (attempt b c)
  unfolding attempt
  MakesOnly-attempt b c h = record { at = λ w. (c ∷ [], refl, (h, tt)) }

-- The backend answered the call with `a`, in some state.
abbrev pub IsAnswer : {S : Type 0} → Backend S → (c : Call) → Reply c → Type 0
IsAnswer {S = S} b c a = (s : S) × ((b.perform c s).0 ≡ some a)

module _ {S : Type 0} where
  pub Yields-invoke : (b : Backend S) (c : Call) → Yields (IsAnswer b c) (invoke b c)
  unfolding invoke
  Yields-invoke b c = record {
    yield = λ w a e. (w.state, with_error-eq-ok internal (b.perform c w.state).0 e);
  }

pub ruleset makes_only = (
  MakesOnly-lift, MakesOnly-pure, MakesOnly-if, MakesOnly-stop_if, MakesOnly-invoke,
  MakesOnly-attempt, MakesOnly-bind,
)
