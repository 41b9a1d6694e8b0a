-- ===== src/Node/ShareOptions/Secrets.antt =====
-- The mount of a share has no sensitive option among its normal ones (pkg/iscsi/nodeserver.go).
use csi_driver_for_windows_s.Prelude.{◌≡◌, ok, All, [], ◌∷◌, ◌++◌, >>=-eq-ok, ok_eq}
use mathlib.Core.Path.{subst}
use csi_driver_for_windows_s.VolumeId.{UrlPackage}
use csi_driver_for_windows_s.VolumeId.Scheme.{Protocol}
use csi_driver_for_windows_s.Node.Options.{
  Access, mount_options_from_capability, mount_options_from_context,
}
use csi_driver_for_windows_s.Node.Options.Secrets.{IsNormal, split_sensitive_mount_options-IsNormal}
use csi_driver_for_windows_s.Node.Contexts.{context_or_empty, volume_context_from_volume_id}
use csi_driver_for_windows_s.Node.Requests.{NodeStageVolumeRequest}
use csi_driver_for_windows_s.Node.ShareOptions.{
  ShareMount, share_source, share_options, share_mount,
}

pub share_mount-IsNormal :
    (u : UrlPackage) (req : NodeStageVolumeRequest) (capability : Access) (proto : Protocol)
    (m : ShareMount)
    → share_mount u req capability proto ≡ ok m
    → All IsNormal m.options.normal
unfolding share_mount
share_mount-IsNormal u req capability proto m h =
    let id_context = context_or_empty (volume_context_from_volume_id u req.volume_id proto) in
    let (from, e1, h1) =
      >>=-eq-ok (share_source proto (req.publish_context ∷ req.volume_context ∷ id_context ∷ [])) _
        h in
    let (opts, e2, h2) =
      >>=-eq-ok
        (share_options proto req (req.volume_context ∷ req.publish_context ∷ id_context ∷ []) (
          mount_options_from_capability capability
          ++ mount_options_from_context req.volume_context))
        _ h1 in
    subst (λ (x : ShareMount). All IsNormal x.options.normal) (ok_eq h2)
      (split_sensitive_mount_options-IsNormal opts)
