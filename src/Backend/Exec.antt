-- ===== src/Backend/Exec.antt =====
-- The handlers of the controller: the calls are those of the backend.
pub mod Trace
pub mod Keeps
pub mod Plan
use csi_driver_for_windows_s.Prelude.{Option, ok, with_error}
use csi_driver_for_windows_s.Exec.{World as AnyWorld, Exec as AnyExec}
use csi_driver_for_windows_s.Backend.{Call, Reply, Backend}
pub use csi_driver_for_windows_s.Exec.{
  Code, invalid_argument, not_found, already_exists, failed_precondition, internal, unimplemented,
  unavailable, pure, fail, lift, continue, ◌>>=◌, ◌>>◌, stop_if, ◌▷◌,
}

abbrev pub World : Type 0 → Type 0
World S = AnyWorld Call S

abbrev pub Exec : Type 0 → Type 0 → Type 0
Exec S A = AnyExec Call S A

module _ {S : Type 0} (b : Backend S) where
  -- A call whose error the handler reads as a value, or ignores.
  unfoldable pub attempt : (c : Call) → Exec S (Option (Reply c))
  attempt c w =
      let (r, s) = b.perform c w.state in (ok r, record { state = s; trace = w.trace ▷ c })

  -- `if err != nil { return nil, status.Errorf(codes.Internal, …) }` behind a call.
  unfoldable pub invoke : (c : Call) → Exec S (Reply c)
  invoke c w =
      let (r, s) = b.perform c w.state in
      (with_error internal r, record { state = s; trace = w.trace ▷ c })
