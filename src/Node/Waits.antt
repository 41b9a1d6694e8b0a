-- ===== src/Node/Waits.antt =====
-- Waiting for paths and file systems, and files that are made (pkg/iscsi/nodeserver.go). The loops run on
-- fuel.
pub mod Ends
pub mod Effects
use Prim.Native.String
use csi_driver_for_windows_s.Prelude.{
  ℕ, zero, suc, ◌+◌, ◌/◌, Bool, true, false, ◌&&◌, String, List, ltb, Result, ok, err, [], ◌∷◌,
  if◌then◌else◌,
}
use csi_driver_for_windows_s.Strconv.{format_nat}
use csi_driver_for_windows_s.Filepath.{join_path, dir}
use csi_driver_for_windows_s.Exec.{internal, pure, fail, ◌>>=◌, ◌>>◌}
use csi_driver_for_windows_s.Node.Host.{
  Host, HostError, NodeExec, with_reply, try_call, make_call, read_clock, pause, stat, make_dir_all,
  create_file, create_new_file, write_file, sync_file, close_file, remove_file,
}
use csi_driver_for_windows_s.Node.Options.{mount_options_read_only}

pub data Waited : Type 0 where
  ready timed_out out_of_fuel : Waited

abbrev pub is_ok : {A : Type 0} → Result HostError A → Bool
is_ok (ok a) = true
is_ok (err e) = false

-- 300 ms, 500 ms, 10 s and 60 s in nanoseconds
abbrev pub path_wait_delay : ℕ
path_wait_delay = 300000000

abbrev pub staged_filesystem_probe_delay : ℕ
staged_filesystem_probe_delay = 500000000

abbrev pub staged_filesystem_ready_wait : ℕ
staged_filesystem_ready_wait = 10000000000

abbrev pub node_publish_device_wait : ℕ
node_publish_device_wait = 60000000000

module _ {S : Type 0} (h : Host S) where
  -- A round of a wait behind its test; `rest` are the later rounds.
  after_test : (delay deadline : ℕ) (rest : NodeExec S Waited) (done : Bool) → NodeExec S Waited
  unfolding read_clock pause
  after_test delay deadline rest done =
      if done
      then pure ready
      else read_clock h >>= λ now.
          if ltb deadline now then pure timed_out else pause h delay >>= λ _. rest

  -- `for { if test { return nil }; if time.Now().After(deadline) { return … }; time.Sleep(delay) }`
  unfoldable pub wait_until : NodeExec S Bool → (delay deadline fuel : ℕ) → NodeExec S Waited
  unfolding after_test
  wait_until test delay deadline zero = pure out_of_fuel
  wait_until test delay deadline (suc fuel) =
      test >>= after_test delay deadline (wait_until test delay deadline fuel)

  -- With the deadline set from the clock, and rounds for the whole time.
  unfoldable pub wait_for : NodeExec S Bool → (delay timeout : ℕ) → NodeExec S Waited
  unfolding wait_until read_clock
  wait_for test delay timeout =
      read_clock h >>= λ start. wait_until test delay (start + timeout) (timeout / delay + 2)

  -- An error where the wait did not end well.
  abbrev pub require_ready : Waited → NodeExec S (Unit {0})
  require_ready ready = pure tt
  require_ready _ = fail internal

  pub path_exists : String → NodeExec S Bool
  unfolding try_call
  path_exists path = with_reply h (stat path) (λ _. pure true) (λ _. pure false)

  -- `waitForPath`, behind a return with `codes.Internal`
  unfoldable pub wait_for_path : String → (timeout : ℕ) → NodeExec S (Unit {0})
  unfolding path_exists wait_for
  wait_for_path path timeout = wait_for (path_exists path) path_wait_delay timeout >>= require_ready

  -- What `probeWritablePath` does behind the opening of its file; all four errors count.
  pub write_probe : String → NodeExec S Bool
  unfolding try_call
  write_probe path = do
    written ← try_call h (write_file path "ok\n")
    synced ← try_call h (sync_file path)
    closed ← try_call h (close_file path)
    removed ← try_call h (remove_file path)
    pure (is_ok written && is_ok synced && is_ok closed && is_ok removed)

  -- `probeWritablePath`: whether it returns no error
  unfoldable pub probe_writable_path : String → NodeExec S Bool
  unfolding write_probe try_call read_clock join_path
  probe_writable_path path = do
    now ← read_clock h
    let probe = join_path (path ∷ String.◌++◌ ".csi-ready-" (format_nat now) ∷ [])
    with_reply h (create_new_file probe) (λ _. write_probe probe) (λ _. pure false)

  -- `waitForStagedFilesystemReady`, behind a return with `codes.Internal`
  unfoldable pub wait_for_staged_filesystem_ready :
      String → List String → (timeout : ℕ) → NodeExec S (Unit {0})
  unfolding probe_writable_path wait_for mount_options_read_only
  wait_for_staged_filesystem_ready path opts timeout =
      if mount_options_read_only opts
      then pure tt
      else wait_for (probe_writable_path path) staged_filesystem_probe_delay timeout
        >>= require_ready

  -- `os.OpenFile(target, os.O_CREATE, …)` where the file does not exist
  make_missing : String → HostError → NodeExec S (Unit {0})
  unfolding make_call
  make_missing target e =
      if e.not_exist
      then make_call h (create_file target) >> make_call h (close_file target)
      else fail internal

  -- `ensureFile`, behind a return with `codes.Internal`
  unfoldable pub ensure_file : String → NodeExec S (Unit {0})
  unfolding make_missing make_call try_call dir
  ensure_file target = do
    make_call h (make_dir_all (dir target))
    with_reply h (stat target) (λ _. pure tt) (make_missing target)
