-- ===== src/Node/Waits/Effects.antt =====
-- The waits of the node service, and the making of a file, mount nothing (pkg/iscsi/nodeserver.go).
use Prim.Native.String
use csi_driver_for_windows_s.Prelude.{
  ℕ, zero, suc, ◌+◌, ◌/◌, ltb, Bool, true, false, ◌&&◌, String, List, [], ◌∷◌, err,
}
use csi_driver_for_windows_s.Strconv.{format_nat}
use csi_driver_for_windows_s.Filepath.{join_path, dir}
use csi_driver_for_windows_s.Exec.{internal}
use csi_driver_for_windows_s.Exec.Trace.{
  MakesOnly, MakesOnly-lift, MakesOnly-pure, MakesOnly-if, MakesOnly-bind,
}
use csi_driver_for_windows_s.Node.Host.{
  Host, HostCall, NodeExec, try_call, make_call, make_dir_all, stat, create_file, close_file,
  create_new_file, write_file, sync_file, remove_file, mount, mount_sensitive, format_and_mount,
  format_and_mount_sensitive,
}
use csi_driver_for_windows_s.Node.Traces.{
  MakesOnly-with_reply, MakesOnly-try_call, MakesOnly-make_call, MakesOnly-read_clock,
  MakesOnly-pause,
}
use csi_driver_for_windows_s.Node.Options.{mount_options_read_only}
use csi_driver_for_windows_s.Node.Options.Secrets.{HidesSecrets}
use csi_driver_for_windows_s.Node.Waits.{
  Waited, ready, timed_out, out_of_fuel, is_ok, after_test, wait_until, wait_for, require_ready,
  path_exists, wait_for_path, write_probe, probe_writable_path, wait_for_staged_filesystem_ready,
  make_missing, ensure_file, path_wait_delay, staged_filesystem_probe_delay,
}

-- A call that works on files, and mounts nothing.
pub WorksOnFiles : HostCall → Type 0
WorksOnFiles (stat path) = Unit
WorksOnFiles (make_dir_all path) = Unit
WorksOnFiles (create_file path) = Unit
WorksOnFiles (create_new_file path) = Unit
WorksOnFiles (write_file path text) = Unit
WorksOnFiles (sync_file path) = Unit
WorksOnFiles (close_file path) = Unit
WorksOnFiles (remove_file path) = Unit
WorksOnFiles _ = ⊥

pub WorksOnFiles-HidesSecrets : (c : HostCall) → WorksOnFiles c → HidesSecrets c
unfolding WorksOnFiles HidesSecrets
WorksOnFiles-HidesSecrets (stat path) w = tt
WorksOnFiles-HidesSecrets (make_dir_all path) w = tt
WorksOnFiles-HidesSecrets (create_file path) w = tt
WorksOnFiles-HidesSecrets (create_new_file path) w = tt
WorksOnFiles-HidesSecrets (write_file path text) w = tt
WorksOnFiles-HidesSecrets (sync_file path) w = tt
WorksOnFiles-HidesSecrets (close_file path) w = tt
WorksOnFiles-HidesSecrets (remove_file path) w = tt
WorksOnFiles-HidesSecrets (mount _ _ _ _) w = absurd w
WorksOnFiles-HidesSecrets (mount_sensitive _ _ _ _ _) w = absurd w
WorksOnFiles-HidesSecrets (format_and_mount _ _ _ _) w = absurd w
WorksOnFiles-HidesSecrets (format_and_mount_sensitive _ _ _ _ _) w = absurd w
WorksOnFiles-HidesSecrets _ w = tt

module _ {S : Type 0} (h : Host S) (P : HostCall → Type 0)
    (works : (c : HostCall) → WorksOnFiles c → P c) where
  tried : (c : HostCall) → WorksOnFiles c → MakesOnly P (try_call h c)
  tried c w = MakesOnly-try_call h P c (works c w)

  called : (c : HostCall) → WorksOnFiles c → MakesOnly P (make_call h c)
  called c w = MakesOnly-make_call h P c (works c w)

  wait_until-MakesOnly :
      (test : NodeExec S Bool)
      → MakesOnly P test
      → (delay deadline fuel : ℕ) → MakesOnly P (wait_until h test delay deadline fuel)
  unfolding wait_until after_test
  wait_until-MakesOnly test t delay deadline zero = MakesOnly-pure out_of_fuel
  wait_until-MakesOnly test t delay deadline (suc fuel) =
      let rest = wait_until-MakesOnly test t delay deadline fuel in
      MakesOnly-bind t λ done.
        MakesOnly-if done (λ _. MakesOnly-pure ready)
          λ _. MakesOnly-bind (MakesOnly-read_clock h P) λ now.
            MakesOnly-if (ltb deadline now) (λ _. MakesOnly-pure timed_out)
              λ _. MakesOnly-bind (MakesOnly-pause h P delay) λ _. rest

  require_ready-MakesOnly : (r : Waited) → MakesOnly P (require_ready h r)
  require_ready-MakesOnly ready = MakesOnly-pure tt
  require_ready-MakesOnly timed_out = MakesOnly-lift (err internal)
  require_ready-MakesOnly out_of_fuel = MakesOnly-lift (err internal)

  wait_for-MakesOnly :
      (test : NodeExec S Bool)
      → MakesOnly P test
      → (delay timeout : ℕ) → MakesOnly P (wait_for h test delay timeout)
  unfolding wait_for
  wait_for-MakesOnly test t delay timeout =
      MakesOnly-bind (MakesOnly-read_clock h P)
        λ start. wait_until-MakesOnly test t delay (start + timeout) (timeout / delay + 2)

  pub wait_for_path-MakesOnly :
      (path : String) (timeout : ℕ) → MakesOnly P (wait_for_path h path timeout)
  unfolding wait_for_path path_exists WorksOnFiles
  wait_for_path-MakesOnly path timeout =
      MakesOnly-bind
        (wait_for-MakesOnly (path_exists h path)
          (MakesOnly-with_reply h P (stat path) (works (stat path) tt) (λ _. MakesOnly-pure true)
            (λ _. MakesOnly-pure false))
          path_wait_delay timeout)
        require_ready-MakesOnly

  write_probe-MakesOnly : (path : String) → MakesOnly P (write_probe h path)
  unfolding write_probe WorksOnFiles
  write_probe-MakesOnly path = MakesOnly-bind (tried (write_file path "ok\n") tt) λ written.
      MakesOnly-bind (tried (sync_file path) tt) λ synced.
        MakesOnly-bind (tried (close_file path) tt) λ closed.
          MakesOnly-bind (tried (remove_file path) tt) λ removed.
            MakesOnly-pure (is_ok written && is_ok synced && is_ok closed && is_ok removed)

  probe_writable_path-MakesOnly : (path : String) → MakesOnly P (probe_writable_path h path)
  unfolding probe_writable_path WorksOnFiles
  probe_writable_path-MakesOnly path = MakesOnly-bind (MakesOnly-read_clock h P) λ now.
      let probe = join_path (path ∷ String.◌++◌ ".csi-ready-" (format_nat now) ∷ []) in
      MakesOnly-with_reply h P (create_new_file probe) (works (create_new_file probe) tt)
        (λ _. write_probe-MakesOnly probe) (λ _. MakesOnly-pure false)

  pub wait_for_staged_filesystem_ready-MakesOnly :
      (path : String) (opts : List String) (timeout : ℕ)
      → MakesOnly P (wait_for_staged_filesystem_ready h path opts timeout)
  unfolding wait_for_staged_filesystem_ready
  wait_for_staged_filesystem_ready-MakesOnly path opts timeout =
      MakesOnly-if (mount_options_read_only opts) (λ _. MakesOnly-pure tt)
        λ _.
          MakesOnly-bind
            (wait_for-MakesOnly (probe_writable_path h path) (probe_writable_path-MakesOnly path)
              staged_filesystem_probe_delay timeout)
            require_ready-MakesOnly

  pub ensure_file-MakesOnly : (target : String) → MakesOnly P (ensure_file h target)
  unfolding ensure_file make_missing WorksOnFiles
  ensure_file-MakesOnly target = MakesOnly-bind (called (make_dir_all (dir target)) tt) λ _.
      MakesOnly-with_reply h P (stat target) (works (stat target) tt) (λ _. MakesOnly-pure tt)
        λ e.
          MakesOnly-if e.not_exist
            (λ _.
              MakesOnly-bind (called (create_file target) tt) λ _. called (close_file target) tt)
            (λ _. MakesOnly-lift (err internal))
