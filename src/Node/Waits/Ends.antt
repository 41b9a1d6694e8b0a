-- ===== src/Node/Waits/Ends.antt =====
-- The waits of the node service end (pkg/iscsi/nodeserver.go).
use csi_driver_for_windows_s.Prelude.{
  ℕ, zero, suc, ◌+◌, ◌*◌, ◌/◌, ◌≤◌, ◌<◌, ◌≡◌, refl, arith, Bool, true, false, ◌&&◌, ltb, Result, ok,
  err, [], ◌∷◌, Bool-cases, inl, inr, String,
}
use Prim.Native.String
use csi_driver_for_windows_s.Filepath.{join_path}
use csi_driver_for_windows_s.Strconv.{format_nat}
use native.Mathlib.Nat.{le_trans}
use csi_driver_for_windows_s.Exec.{Code, World, continue, pure, ◌>>=◌}
use csi_driver_for_windows_s.Node.Host.{
  Host, HostCall, HasClock, NodeExec, read_clock, pause, with_reply, on_reply, HostReply, HostError,
  try_call, stat, create_new_file, write_file, sync_file, close_file, remove_file,
}
use csi_driver_for_windows_s.Node.Waits.{
  is_ok, after_test, Waited, ready, timed_out, wait_until, wait_for, path_exists, write_probe,
  probe_writable_path, path_wait_delay, staged_filesystem_probe_delay,
}

-- How a wait ends: the test succeeds, or the clock has passed the deadline.
pub data Ends {S : Type 0} (h : Host S) (deadline : ℕ) (r : Result Code Waited × World HostCall S)
    : Type 0 where
  becomes_ready : r.0 ≡ ok ready → Ends h deadline r
  gives_up : r.0 ≡ ok timed_out → deadline < h.now r.1.state → Ends h deadline r
  stops : (c : Code) → r.0 ≡ err c → Ends h deadline r

-- A step under which the clock does not run backwards.
pub record IsForward {S A : Type 0} (h : Host S) (m : NodeExec S A) : Type 0 where
  pub later : (w : World HostCall S) → h.now w.state ≤ h.now (m w).1.state

module _ {S : Type 0} (h : Host S) (clock : HasClock h) (delay deadline : ℕ) where
  -- A round behind its test, if the later rounds end from where the pause of this one leads to.
  after_test-Ends :
      (r : Result Code Bool) (rest : NodeExec S Waited) (w : World HostCall S)
      → (ltb deadline (h.now w.state) ≡ false
          → (w' : World HostCall S) → h.now w.state + delay ≤ h.now w'.state
          → Ends h deadline (rest w'))
      → Ends h deadline (continue r (after_test h delay deadline rest) w)
  unfolding after_test read_clock pause
  after_test-Ends (err c) rest w later = stops c refl
  after_test-Ends (ok true) rest w later = becomes_ready refl
  after_test-Ends (ok false) rest w later = elim (Bool-cases (ltb deadline (h.now w.state))) [
    | inl e ↦ rw e (gives_up refl (ground arith))
    | inr e ↦
        rw e (later e (record w { state = h.sleep delay w.state }) (clock.sleeps delay w.state))
  ]

  module _ (test : NodeExec S Bool) (forward : IsForward h test) where
    wait_until-Ends :
        (fuel : ℕ) (w : World HostCall S)
        → deadline < h.now w.state + fuel * delay
        → Ends h deadline (wait_until h test delay deadline (suc fuel) w)
    unfolding wait_until
    wait_until-Ends zero w enough =
        let forward_here = forward.later w in
        after_test-Ends (test w).0 (wait_until h test delay deadline zero) (test w).1
          λ e w' h'. absurd (ground arith)
    wait_until-Ends (suc fuel) w enough =
        let forward_here = forward.later w in
        after_test-Ends (test w).0 (wait_until h test delay deadline (suc fuel)) (test w).1
          λ e w' h'. wait_until-Ends fuel w' (grind arith)

module _ {S A B : Type 0} (h : Host S) where
  IsForward-continue :
      (r : Result Code A) (f : A → NodeExec S B)
      → ((a : A) → IsForward h (f a))
      → (w : World HostCall S) → h.now w.state ≤ h.now (continue r f w).1.state
  IsForward-continue (ok a) f k w = (k a).later w
  IsForward-continue (err c) f k w = omega arith

  IsForward-bind :
      {m : NodeExec S A} {f : A → NodeExec S B}
      → IsForward h m
      → ((a : A) → IsForward h (f a))
      → IsForward h (m >>= f)
  IsForward-bind {m = m} {f = f} first k = record {
    later = λ w. le_trans (first.later w) (IsForward-continue (m w).0 f k (m w).1);
  }

  IsForward-on_reply :
      (r : Result HostError A) {good : A → NodeExec S B} {bad : HostError → NodeExec S B}
      → ((a : A) → IsForward h (good a))
      → ((e : HostError) → IsForward h (bad e))
      → IsForward h (on_reply r good bad)
  IsForward-on_reply (ok a) g b = g a
  IsForward-on_reply (err e) g b = b e

module _ {S : Type 0} (h : Host S) where
  IsForward-pure : {A : Type 0} (a : A) → IsForward {S = S} h (pure a)
  IsForward-pure a = record { later = λ w. omega arith }

  IsForward-read_clock : IsForward h (read_clock h)
  unfolding read_clock
  IsForward-read_clock = record { later = λ w. omega arith }

module _ {S : Type 0} (h : Host S) (clock : HasClock h) where
  IsForward-try_call : (c : HostCall) → IsForward h (try_call h c)
  unfolding try_call
  IsForward-try_call c = record { later = λ w. clock.forward c w.state }

  IsForward-with_reply :
      {B : Type 0} (c : HostCall) {good : HostReply c → NodeExec S B}
      {bad : HostError → NodeExec S B}
      → ((a : HostReply c) → IsForward h (good a))
      → ((e : HostError) → IsForward h (bad e))
      → IsForward h (with_reply h c good bad)
  IsForward-with_reply c g b =
      IsForward-bind h (IsForward-try_call c) λ r. IsForward-on_reply h r g b

  path_exists-IsForward : (path : String) → IsForward h (path_exists h path)
  unfolding path_exists
  path_exists-IsForward path =
      IsForward-with_reply (stat path) (λ _. IsForward-pure h true) (λ _. IsForward-pure h false)

  write_probe-IsForward : (path : String) → IsForward h (write_probe h path)
  unfolding write_probe
  write_probe-IsForward path =
      IsForward-bind h (IsForward-try_call (write_file path "ok\n")) λ written.
        IsForward-bind h (IsForward-try_call (sync_file path)) λ synced.
          IsForward-bind h (IsForward-try_call (close_file path)) λ closed.
            IsForward-bind h (IsForward-try_call (remove_file path)) λ removed.
              IsForward-pure h (is_ok written && is_ok synced && is_ok closed && is_ok removed)

  probe_writable_path-IsForward : (path : String) → IsForward h (probe_writable_path h path)
  unfolding probe_writable_path
  probe_writable_path-IsForward path = IsForward-bind h (IsForward-read_clock h) λ now.
      let probe = join_path (path ∷ String.◌++◌ ".csi-ready-" (format_nat now) ∷ []) in
      IsForward-with_reply (create_new_file probe) (λ _. write_probe-IsForward probe)
        (λ _. IsForward-pure h false)

  wait_for-Ends :
      (test : NodeExec S Bool)
      → IsForward h test
      → (delay timeout : ℕ) (w : World HostCall S) → 0 < delay
      → Ends h (h.now w.state + timeout) (wait_for h test delay timeout w)
  unfolding wait_for read_clock
  wait_for-Ends test forward delay timeout w positive =
      let rounds : timeout / delay + 2 ≡ suc (timeout / delay + 1) = omega arith in
      rw rounds (
        wait_until-Ends h clock delay (h.now w.state + timeout) test forward (timeout / delay + 1) w
          (grind arith))

  -- The wait for a path and the wait for a staged file system end after finitely many rounds: the path is
  -- there, or a file can be written, or the clock has passed the time that was given. The rounds that the
  -- model makes are enough for this.
  pub waits-Ends :
      (path : String) (timeout : ℕ) (w : World HostCall S)
      → Ends h (h.now w.state + timeout) (wait_for h (path_exists h path) path_wait_delay timeout w)
        × Ends h
            (h.now w.state + timeout)
            (wait_for h (probe_writable_path h path) staged_filesystem_probe_delay timeout w)
  waits-Ends path timeout w = (
    wait_for-Ends (path_exists h path) (path_exists-IsForward path) path_wait_delay timeout w
        (omega arith),
    wait_for-Ends (probe_writable_path h path) (probe_writable_path-IsForward path)
        staged_filesystem_probe_delay timeout w (omega arith),
  )
