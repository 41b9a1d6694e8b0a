-- ===== src/Backend/Exec/Keeps.antt =====
-- Handlers that take nothing away, and handlers that only ask.
use csi_driver_for_windows_s.Prelude.{◌≡◌, true, false}
use csi_driver_for_windows_s.Backend.{Call, Backend, removes, asks}
use csi_driver_for_windows_s.Backend.Exec.{invoke, attempt}
use csi_driver_for_windows_s.Backend.Exec.Trace.{MakesOnly, MakesOnly-invoke, MakesOnly-attempt}

abbrev pub Keeps : Call → Type 0
Keeps c = removes c ≡ false

abbrev pub Asks : Call → Type 0
Asks c = asks c ≡ true

module _ {S : Type 0} (b : Backend S) where
  pub kept : (c : Call) → removes c ≡ false → MakesOnly Keeps (invoke b c)
  kept = MakesOnly-invoke b

  pub asked : (c : Call) → asks c ≡ true → MakesOnly Asks (invoke b c)
  asked = MakesOnly-invoke b

  pub asked_anyway : (c : Call) → asks c ≡ true → MakesOnly Asks (attempt b c)
  asked_anyway = MakesOnly-attempt b
