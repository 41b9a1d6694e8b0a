-- ===== src/Examples/Clusters.antt =====
-- Examples of the provisioner and of the attacher: a cluster with one volume, which an attachment names.
use csi_driver_for_windows_s.Prelude.{
  ◌≡◌, refl, ℕ, Bool, true, false, not, ◌&&◌, String, ◌==◌, pos, Option, none, some, [], ◌∷◌, map,
  any, Result, ok, err, if◌then◌else◌,
}
use Prim.Native.String
use mathlib.Core.Path.{subst}
use csi_driver_for_windows_s.Text.Chars.{char_eq}
use csi_driver_for_windows_s.Text.Cut.{cut-append}
use csi_driver_for_windows_s.Text.{contains_func, cut, trim_space}
use csi_driver_for_windows_s.Strconv.{parse_int}
use csi_driver_for_windows_s.Exec.{World}
use csi_driver_for_windows_s.Exec.Trace.{MakesOnly}
use csi_driver_for_windows_s.Exec.Order.{Rises}
use csi_driver_for_windows_s.Backend.Exec.{invoke}
use csi_driver_for_windows_s.VolumeId.Decode.{decoder}
use csi_driver_for_windows_s.Driver.{driver_name}
use csi_driver_for_windows_s.Controller.Ids.{decode_any_volume_id, target_name_from_vol_id}
use csi_driver_for_windows_s.Controller.Messages.{Volume}
use csi_driver_for_windows_s.Controller.Publish.{publishing}
use csi_driver_for_windows_s.Kubernetes.Objects.{
  PersistentVolume, PersistentVolumeClaim, StorageClass, VolumeAttachment, CsiSource, CsiNode,
  DataSource, read_write_once, reclaim_delete, filesystem_volume, volume_released,
}
use csi_driver_for_windows_s.Kubernetes.Cluster.{
  ApiError, other_error, object_not_found, ApiCall, ApiReply, Cluster, ClusterCall, on_backend,
  try_request, request, get_storage_class, get_persistent_volume, get_volume_attachment,
  get_persistent_volume_claim, get_secret, create_persistent_volume, update_persistent_volume,
  delete_persistent_volume, update_volume_attachment, update_attachment_status,
  cached_persistent_volume, cached_volume_attachment, cached_csi_node,
  cached_persistent_volume_claim, cached_volume_attachments,
}
use csi_driver_for_windows_s.Kubernetes.Strings.{has_string, remove_string, unique_strings}
use csi_driver_for_windows_s.Kubernetes.Strings.Finalizers.{has_string-unique_strings-remove_string}
use csi_driver_for_windows_s.Kubernetes.Capabilities.{
  volume_capability_for_pv, volume_capabilities_for_pvc,
}
use csi_driver_for_windows_s.Kubernetes.Claims.{
  pv_protection_finalizer, persistent_volume_for_claim, pvc_data_source_ref,
}
use csi_driver_for_windows_s.Kubernetes.Claims.Agreement.{volume_capability_for_pv-claim}
use csi_driver_for_windows_s.Kubernetes.Claims.Cloning.{IsClone, MakesNothing}
use csi_driver_for_windows_s.Kubernetes.Events.{CacheKeys, object, provisioner_pvc_keys}
use csi_driver_for_windows_s.Kubernetes.Provisioner.{
  attaches, publish_volume, reconcile_persistent_volume_deletion, reconcile_pvc_key,
  reconcile_persistent_volume_claim, reconcile_internal_provisioner,
}
use csi_driver_for_windows_s.Kubernetes.Provisioner.Deletion.{
  TakesAway, deletion_phase, reconcile_persistent_volume_deletion-TakesAway,
  reconcile_persistent_volume_deletion-Rises,
}
use csi_driver_for_windows_s.Kubernetes.Provisioner.Attached.{
  Spares, reconcile_persistent_volume_deletion-Spares,
}
use csi_driver_for_windows_s.Kubernetes.Provisioner.Rollback.{IsTakenBack, publish_volume-TakesBack}
use csi_driver_for_windows_s.Kubernetes.Provisioner.Cloning.{
  reconcile_persistent_volume_claim-MakesNothing,
}
use csi_driver_for_windows_s.Kubernetes.Provisioner.Keys.{
  SplitsKeys, reconcile-provisioner_pvc_keys,
}
use csi_driver_for_windows_s.Kubernetes.Attacher.{
  va_protection_finalizer, attaching, reconcile_volume_attachment,
}
use csi_driver_for_windows_s.Kubernetes.Cluster.{object_already_exists}
use csi_driver_for_windows_s.Controller.Delete.Order.{KnowsTarget}
use csi_driver_for_windows_s.Kubernetes.Attacher.Success.{
  IsDetached, IsKnown, reconcile_volume_attachment-IsDetached,
}
use csi_driver_for_windows_s.Examples.{example_ids, example_driver, data_id, willing}
use csi_driver_for_windows_s.Examples.Ids.{data_any, any_data}

abbrev data_source : CsiSource
data_source = record {
  driver = driver_name;
  volume_handle = data_id;
  fs_type = "ext4";
  volume_attributes = [];
  controller_publish_secret = none;
  node_stage_secret = none;
  node_publish_secret = none;
  controller_expand_secret = none;
}

-- A volume that has been released.
abbrev data_pv : PersistentVolume
data_pv = record {
  name = "pvc-1";
  finalizers = pv_protection_finalizer ∷ [];
  deleting = false;
  phase = volume_released;
  capacity = pos 1073741824;
  access_modes = read_write_once ∷ [];
  reclaim_policy = reclaim_delete;
  storage_class_name = "disks";
  mount_options = [];
  volume_mode = some filesystem_volume;
  claim = none;
  csi = some data_source;
}

abbrev data_va : VolumeAttachment
data_va = record {
  name = "va-1";
  finalizers = va_protection_finalizer ∷ [];
  deleting = false;
  attacher = driver_name;
  node_name = "worker";
  volume = some "pvc-1";
  attached = false;
  attachment_metadata = [];
}

abbrev data_class : StorageClass
data_class = record {
  name = "disks";
  provisioner = driver_name;
  parameters = [];
  reclaim_policy = none;
  mount_options = [];
  binding_mode = none;
}

abbrev worker : CsiNode
worker = record {
  name = "worker";
  drivers = record { name = driver_name; node_id = "iqn.1993-08.org.debian:01:node" } ∷ [];
}

-- A claim that asks for a copy of another one.
abbrev copy_source : DataSource
copy_source = record {
  api_group = none;
  kind = "PersistentVolumeClaim";
  name = "data";
  namespace = none;
}

abbrev copy_claim : PersistentVolumeClaim
copy_claim = record {
  namespace = "default";
  name = "copy";
  uid = "2";
  deleting = false;
  selected_node = "";
  volume_name = "";
  storage_class_name = some "disks";
  volume_mode = none;
  access_modes = read_write_once ∷ [];
  requests = some (pos 1073741824);
  data_source = none;
  data_source_ref = some copy_source;
}

-- A cluster that refuses new volumes.
abbrev reply : (c : ApiCall) → Result ApiError (ApiReply c)
reply (get_storage_class _) = ok data_class
reply (get_persistent_volume _) = err object_not_found
reply (get_volume_attachment _) = ok data_va
reply (get_persistent_volume_claim _ _) = ok copy_claim
reply (get_secret _ _) = ok []
reply (create_persistent_volume _) = err other_error
reply (update_persistent_volume _) = ok tt
reply (delete_persistent_volume _) = ok tt
reply (update_volume_attachment _) = ok tt
reply (update_attachment_status _) = ok tt
reply (cached_persistent_volume _) = ok data_pv
reply (cached_volume_attachment _) = ok data_va
reply (cached_csi_node _) = ok worker
reply (cached_persistent_volume_claim _ _) = ok copy_claim
reply cached_volume_attachments = ok (data_va ∷ [])

abbrev example_cluster : Cluster ℕ
example_cluster = record { answer = λ c s. (reply c, s) }

abbrev quiet : World ClusterCall ℕ
quiet = record { state = 0; trace = [] }

reconcile_persistent_volume_deletion-TakesAway_example :
    MakesOnly (TakesAway willing example_driver.name data_pv data_source data_any) (
      reconcile_persistent_volume_deletion example_cluster willing example_ids example_driver
        data_pv)
reconcile_persistent_volume_deletion-TakesAway_example =
    reconcile_persistent_volume_deletion-TakesAway example_cluster willing example_ids
      example_driver data_pv data_source data_any any_data refl

reconcile_persistent_volume_deletion-Rises_example : Rises deletion_phase 0 3 (
    reconcile_persistent_volume_deletion example_cluster willing example_ids example_driver data_pv)
reconcile_persistent_volume_deletion-Rises_example =
    reconcile_persistent_volume_deletion-Rises example_cluster willing example_ids example_driver
      data_pv

data_attached : any (attaches example_driver.name "pvc-1") (data_va ∷ []) ≡ true
unfolding trim_space example_driver
data_attached = refl

reconcile_persistent_volume_deletion-Spares_example :
    Spares
      (reconcile_persistent_volume_deletion example_cluster willing example_ids example_driver
        data_pv)
      quiet
reconcile_persistent_volume_deletion-Spares_example =
    reconcile_persistent_volume_deletion-Spares example_cluster willing example_ids example_driver
      data_pv (data_va ∷ []) 0 quiet refl data_attached

refusal_counts : ¬ (Path ApiError other_error object_already_exists)
refusal_counts e = cc

data_target : KnowsTarget data_any.decoded.protocol data_any
unfolding KnowsTarget trim_space
data_target = refl

publish_volume-TakesBack_example :
    IsTakenBack willing data_pv data_any 0 quiet
      (publish_volume example_cluster willing example_ids example_driver data_pv data_id quiet)
publish_volume-TakesBack_example =
    publish_volume-TakesBack example_cluster willing example_ids example_driver data_pv data_id
      data_any other_error 0 quiet refl refusal_counts refl any_data data_target

copies_data : IsClone copy_claim copy_source
unfolding pvc_data_source_ref trim_space
copies_data = record { refers = refl; is_named = refl }

reconcile_persistent_volume_claim-MakesNothing_example : MakesOnly MakesNothing (
    reconcile_persistent_volume_claim example_cluster willing example_ids example_driver copy_claim)
reconcile_persistent_volume_claim-MakesNothing_example =
    reconcile_persistent_volume_claim-MakesNothing example_cluster willing example_ids
      example_driver copy_claim copy_source copies_data

abbrev made_volume : Volume
made_volume = record {
  volume_id = data_id;
  capacity_bytes = pos 1073741824;
  volume_context = [];
  content_source = none;
}

volume_capability_for_pv-claim_example :
    volume_capability_for_pv
        (persistent_volume_for_claim driver_name copy_claim data_class "pvc-2" made_volume)
      ∷ []
    ≡ volume_capabilities_for_pvc copy_claim data_class
volume_capability_for_pv-claim_example =
    volume_capability_for_pv-claim driver_name copy_claim data_class "pvc-2" made_volume

has_string-unique_strings-remove_string_example :
    has_string (unique_strings (remove_string ("a" ∷ "b" ∷ "a" ∷ []) "b")) "a"
    ≡ (not (trim_space "a" == "") && not ("a" == "b") && has_string ("a" ∷ "b" ∷ "a" ∷ []) "a")
has_string-unique_strings-remove_string_example =
    has_string-unique_strings-remove_string ("a" ∷ "b" ∷ "a" ∷ []) "b" "a"

abbrev leaving_va : VolumeAttachment
leaving_va = record data_va { deleting = true; attached = true }

leaving-IsKnown :
    IsKnown example_cluster willing example_ids example_driver leaving_va data_pv data_source quiet
unfolding example_driver
leaving-IsKnown = record { is_named = refl; is_cached = refl; has_source = refl; is_own = refl }

data_protected : has_string leaving_va.finalizers va_protection_finalizer ≡ true
unfolding has_string
data_protected = refl

data_detaches :
    (reconcile_volume_attachment example_cluster willing example_ids example_driver leaving_va
      quiet).0
    ≡ ok tt
unfolding example_driver reconcile_volume_attachment attaching publishing decoder
    decode_any_volume_id parse_int target_name_from_vol_id invoke on_backend try_request request
data_detaches = refl

reconcile_volume_attachment-IsDetached_example :
    IsDetached example_cluster willing example_ids example_driver leaving_va data_source
      (reconcile_volume_attachment example_cluster willing example_ids example_driver leaving_va
        quiet).1
reconcile_volume_attachment-IsDetached_example =
    reconcile_volume_attachment-IsDetached example_cluster willing example_ids example_driver
      leaving_va data_pv data_source quiet leaving-IsKnown refl data_protected data_detaches

-- Keys with a slash behind a namespace that has none.
abbrev slash_keys : CacheKeys
unfolding contains_func cut
slash_keys = record {
  meta_key = λ namespace name.
      if contains_func (λ c. char_eq c "/") namespace
      then none
      else some (String.◌++◌ namespace (String.◌∷◌ "/" name));
  split_key = λ key. cut key "/";
}

split_at_slash :
    (t : Bool) (namespace name key : String)
    → contains_func (λ c. char_eq c "/") namespace ≡ t
    → Path
        (Option String)
        (if t then none else some (String.◌++◌ namespace (String.◌∷◌ "/" name)))
        (some key)
    → cut key "/" ≡ some (namespace, name)
split_at_slash true namespace name key h e = cc
split_at_slash false namespace name key h e =
    subst (λ k. cut k "/" ≡ some (namespace, name)) (cc) (cut-append "/" namespace name h)

slash_keys-SplitsKeys : SplitsKeys slash_keys
unfolding contains_func slash_keys
slash_keys-SplitsKeys = record {
  split = λ namespace name key made. split_at_slash _ namespace name key refl made;
}

copy_keyed : slash_keys.meta_key "default" "copy" ≡ some "default/copy"
unfolding contains_func slash_keys
copy_keyed = refl

reconcile-provisioner_pvc_keys_example :
    map
      (reconcile_internal_provisioner example_cluster willing example_ids example_driver slash_keys)
      (provisioner_pvc_keys slash_keys (object copy_claim))
    ≡ reconcile_pvc_key example_cluster willing example_ids example_driver "default" "copy" ∷ []
reconcile-provisioner_pvc_keys_example =
    reconcile-provisioner_pvc_keys example_cluster willing example_ids example_driver slash_keys
      copy_claim "default/copy" slash_keys-SplitsKeys copy_keyed
