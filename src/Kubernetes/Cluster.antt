-- ===== src/Kubernetes/Cluster.antt =====
-- The calls of pkg/iscsi/internal_kubernetes.go: those of the API server and of its cached lists, and
-- those that the controller service makes of its backend.
use csi_driver_for_windows_s.Prelude.{String, List, [], ◌++◌, map, StringMap, Result, ok, err}
unfoldable pub use csi_driver_for_windows_s.Exec.{ignoring}
use csi_driver_for_windows_s.Exec.{unknown, Exec, pure, fail, ◌>>=◌, ◌▷◌}
use csi_driver_for_windows_s.Backend.{Call}
use csi_driver_for_windows_s.Kubernetes.Objects.{
  PersistentVolume, PersistentVolumeClaim, StorageClass, VolumeAttachment, CsiNode,
}

-- `apierrors.IsNotFound`, `apierrors.IsAlreadyExists`, or any other error
pub data ApiError : Type 0 where
  object_not_found object_already_exists other_error : ApiError

-- A `cached` call reads a lister, the others go to the API server.
pub data ApiCall : Type 0 where
  get_storage_class get_persistent_volume get_volume_attachment : (name : String) → ApiCall
  get_persistent_volume_claim get_secret : (namespace name : String) → ApiCall
  create_persistent_volume update_persistent_volume : PersistentVolume → ApiCall
  delete_persistent_volume : (name : String) → ApiCall
  update_volume_attachment update_attachment_status : VolumeAttachment → ApiCall
  cached_persistent_volume cached_volume_attachment cached_csi_node : (name : String) → ApiCall
  cached_persistent_volume_claim : (namespace name : String) → ApiCall
  cached_volume_attachments : ApiCall

-- The data of a secret; the code does not look at what a write returns.
abbrev pub ApiReply : ApiCall → Type 0
ApiReply (get_storage_class _) = StorageClass
ApiReply (get_persistent_volume _) = PersistentVolume
ApiReply (get_volume_attachment _) = VolumeAttachment
ApiReply (get_persistent_volume_claim _ _) = PersistentVolumeClaim
ApiReply (get_secret _ _) = StringMap
ApiReply (cached_persistent_volume _) = PersistentVolume
ApiReply (cached_volume_attachment _) = VolumeAttachment
ApiReply (cached_csi_node _) = CsiNode
ApiReply (cached_persistent_volume_claim _ _) = PersistentVolumeClaim
ApiReply cached_volume_attachments = List VolumeAttachment
ApiReply _ = Unit

-- A cluster over a state of its own, which the backend shares.
pub record Cluster (S : Type 0) : Type 0 where
  pub answer : (c : ApiCall) → S → Result ApiError (ApiReply c) × S

pub data ClusterCall : Type 0 where
  api : ApiCall → ClusterCall
  backend : Call → ClusterCall

abbrev pub ClusterExec : Type 0 → Type 0 → Type 0
ClusterExec S A = Exec ClusterCall S A

abbrev pub on_answer :
    {S A B : Type 0}
    → Result ApiError A
    → (A → ClusterExec S B)
    → (ApiError → ClusterExec S B)
    → ClusterExec S B
on_answer (ok a) good bad = good a
on_answer (err e) good bad = bad e

-- `if !apierrors.IsNotFound(err) { return err }`
abbrev pub accept_missing : {S : Type 0} → ApiError → ClusterExec S (Unit {0})
accept_missing object_not_found = pure tt
accept_missing _ = fail unknown

module _ {S : Type 0} (k : Cluster S) where
  -- A call whose error the code reads.
  unfoldable pub try_request : (c : ApiCall) → ClusterExec S (Result ApiError (ApiReply c))
  try_request c w =
      let (r, s) = k.answer c w.state in (ok r, record { state = s; trace = w.trace ▷ api c })

  abbrev pub with_answer :
      {B : Type 0} (c : ApiCall)
      → (ApiReply c → ClusterExec S B)
      → (ApiError → ClusterExec S B)
      → ClusterExec S B
  with_answer c good bad = try_request c >>= λ r. on_answer r good bad

  -- `if err != nil { return err }` behind a call; such an error has no gRPC code.
  unfoldable pub request : (c : ApiCall) → ClusterExec S (ApiReply c)
  unfolding try_request
  request c = with_answer c pure (λ _. fail unknown)

module _ {S A : Type 0} where
  -- A request of the controller service, made within the process.
  unfoldable pub on_backend : Exec Call S A → ClusterExec S A
  on_backend m w =
      let (r, w') = m (record { state = w.state; trace = [] }) in
      (r, record { state = w'.state; trace = w.trace ++ map backend w'.trace })
