-- ===== src/Node/Traces.antt =====
-- Which calls of the host the parts of the node service make, and in which order: the rules for the calls
-- themselves.
use mathlib.Core.List.{append-nil}
use csi_driver_for_windows_s.Prelude.{ℕ, refl, sym, Option, [], ◌∷◌, Result, ok, err, arith}
use csi_driver_for_windows_s.Exec.{internal}
use csi_driver_for_windows_s.Exec.Trace.{MakesOnly, MakesOnly-bind, MakesOnly-pure, MakesOnly-lift}
use csi_driver_for_windows_s.Exec.Order.{IsRising, Rises, Rises-bind, Rises-pure, Rises-fail}
use csi_driver_for_windows_s.Node.Host.{
  Host, HostCall, HostReply, HostError, NodeExec, on_reply, with_reply, try_call, make_call,
  read_clock, pause,
}

module _ {S : Type 0} (h : Host S) (P : HostCall → Type 0) where
  pub MakesOnly-try_call : (c : HostCall) → P c → MakesOnly P (try_call h c)
  unfolding try_call
  MakesOnly-try_call c p = record { at = λ w. (c ∷ [], refl, (p, tt)) }

  MakesOnly-on_reply :
      {A B : Type 0} (r : Result HostError A) {good : A → NodeExec S B}
      {bad : HostError → NodeExec S B}
      → ((a : A) → MakesOnly P (good a))
      → ((e : HostError) → MakesOnly P (bad e))
      → MakesOnly P (on_reply r good bad)
  MakesOnly-on_reply (ok a) g b = g a
  MakesOnly-on_reply (err e) g b = b e

  pub MakesOnly-with_reply :
      {B : Type 0} (c : HostCall) {good : HostReply c → NodeExec S B}
      {bad : HostError → NodeExec S B}
      → P c
      → ((a : HostReply c) → MakesOnly P (good a))
      → ((e : HostError) → MakesOnly P (bad e))
      → MakesOnly P (with_reply h c good bad)
  MakesOnly-with_reply c p g b =
      MakesOnly-bind (MakesOnly-try_call c p) λ r. MakesOnly-on_reply r g b

  pub MakesOnly-make_call : (c : HostCall) → P c → MakesOnly P (make_call h c)
  unfolding make_call
  MakesOnly-make_call c p =
      MakesOnly-with_reply c p MakesOnly-pure (λ _. MakesOnly-lift (err internal))

  pub MakesOnly-read_clock : MakesOnly P (read_clock h)
  unfolding read_clock
  MakesOnly-read_clock = record { at = λ w. ([], sym (append-nil w.trace), tt) }

  pub MakesOnly-pause : (n : ℕ) → MakesOnly P (pause h n)
  unfolding pause
  MakesOnly-pause n = record { at = λ w. ([], sym (append-nil w.trace), tt) }

module _ {S : Type 0} (h : Host S) (phase : HostCall → Option ℕ) (low high : ℕ) where
  pub Rises-try_call :
      (c : HostCall) → IsRising phase low (c ∷ []) high → Rises phase low high (try_call h c)
  unfolding try_call
  Rises-try_call c p = record { at = λ w. (c ∷ [], refl, p) }

  Rises-on_reply :
      {A B : Type 0} (r : Result HostError A) {good : A → NodeExec S B}
      {bad : HostError → NodeExec S B}
      → ((a : A) → Rises phase high high (good a))
      → ((e : HostError) → Rises phase high high (bad e))
      → Rises phase high high (on_reply r good bad)
  Rises-on_reply (ok a) g b = g a
  Rises-on_reply (err e) g b = b e

  pub Rises-with_reply :
      {B : Type 0} (c : HostCall) {good : HostReply c → NodeExec S B}
      {bad : HostError → NodeExec S B}
      → IsRising phase low (c ∷ []) high
      → ((a : HostReply c) → Rises phase high high (good a))
      → ((e : HostError) → Rises phase high high (bad e))
      → Rises phase low high (with_reply h c good bad)
  Rises-with_reply c p g b =
      Rises-bind low high high (omega arith) (Rises-try_call c p) λ r. Rises-on_reply r g b

  pub Rises-make_call :
      (c : HostCall) → IsRising phase low (c ∷ []) high → Rises phase low high (make_call h c)
  unfolding make_call
  Rises-make_call c p =
      Rises-with_reply c p (λ a. Rises-pure a (omega arith))
        (λ _. Rises-fail internal (omega arith))
