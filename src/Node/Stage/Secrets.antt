-- ===== src/Node/Stage/Secrets.antt =====
-- The mounts of `NodeStageVolume` hide sensitive options (pkg/iscsi/nodeserver.go).
use csi_driver_for_windows_s.Prelude.{String}
use csi_driver_for_windows_s.Exec.{internal}
use csi_driver_for_windows_s.Exec.Trace.{
  MakesOnly, MakesOnly-pure, MakesOnly-if, MakesOnly-stop_if, MakesOnly-bind,
}
use csi_driver_for_windows_s.Node.Host.{
  Host, HostCall, make_call, is_failure, is_likely_not_mount_point, make_dir_all,
}
use csi_driver_for_windows_s.Node.Traces.{MakesOnly-make_call}
use csi_driver_for_windows_s.Node.Options.{split_sensitive_mount_options}
use csi_driver_for_windows_s.Node.Options.Secrets.{
  HidesSecrets, split_sensitive_mount_options-IsNormal, format_and_mount_prepared-HidesSecrets,
}
use csi_driver_for_windows_s.Node.Waits.{staged_filesystem_ready_wait}
use csi_driver_for_windows_s.Node.Waits.Effects.{
  WorksOnFiles-HidesSecrets, wait_for_staged_filesystem_ready-MakesOnly,
}
use csi_driver_for_windows_s.Node.Requests.{StageParameters}
use csi_driver_for_windows_s.Node.Stage.{check_mount_point, mount_staged}

module _ {S : Type 0} (h : Host S) where
  hides : (c : HostCall) → HidesSecrets c → MakesOnly HidesSecrets (make_call h c)
  hides = MakesOnly-make_call h HidesSecrets

  pub check_mount_point-HidesSecrets :
      (path : String) → MakesOnly HidesSecrets (check_mount_point h path)
  unfolding check_mount_point HidesSecrets
  check_mount_point-HidesSecrets path =
      MakesOnly-bind (hides (is_likely_not_mount_point path) tt) λ point.
        MakesOnly-bind (MakesOnly-stop_if (is_failure point.error) internal)
          λ _. MakesOnly-pure point.not_mounted

  pub mount_staged-HidesSecrets :
      (staging : String) (p : StageParameters) (device : String)
      → MakesOnly HidesSecrets (mount_staged h staging p device)
  unfolding mount_staged HidesSecrets
  mount_staged-HidesSecrets staging p device =
      let options = split_sensitive_mount_options p.mount_options in
      MakesOnly-bind (check_mount_point-HidesSecrets staging) λ not_mounted.
        MakesOnly-bind (hides (make_dir_all staging) tt) λ _.
          MakesOnly-bind
            (MakesOnly-if not_mounted
              (λ _.
                format_and_mount_prepared-HidesSecrets h device staging p.fs_type options.normal
                  options.sensitive (split_sensitive_mount_options-IsNormal p.mount_options))
              (λ _. MakesOnly-pure tt))
            λ _.
              wait_for_staged_filesystem_ready-MakesOnly h HidesSecrets WorksOnFiles-HidesSecrets
                staging options.normal staged_filesystem_ready_wait
