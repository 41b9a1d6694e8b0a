-- ===== src/Kubernetes/Provisioner/Cloning.antt =====
-- The provisioner (pkg/iscsi/internal_kubernetes.go) and a claim with a data source
use csi_driver_for_windows_s.Prelude.{◌≡◌, not, ◌||◌, String, ◌==◌, Option, none, some, err, []}
use csi_driver_for_windows_s.Exec.{unknown}
use csi_driver_for_windows_s.Exec.Trace.{
  MakesOnly, MakesOnly-map, MakesOnly-pure, MakesOnly-lift, MakesOnly-if, MakesOnly-bind,
  MakesOnly-bind_yielded, Yields,
}
use csi_driver_for_windows_s.Backend.{Backend}
use csi_driver_for_windows_s.Driver.{Driver}
use csi_driver_for_windows_s.Controller.Ids.{IdCodec}
use csi_driver_for_windows_s.Controller.Messages.{other_source, CreateVolumeRequest}
use csi_driver_for_windows_s.Controller.Create.{create_volume}
use csi_driver_for_windows_s.Controller.Create.Sources.{create_volume-quiet, create_volume-refuses}
use csi_driver_for_windows_s.Kubernetes.Objects.{
  PersistentVolumeClaim, DataSource, StorageClass, SecretReference,
}
use csi_driver_for_windows_s.Kubernetes.Cluster.{
  ApiError, object_not_found, object_already_exists, other_error, Cluster, on_backend,
  get_storage_class, get_persistent_volume, get_secret,
}
use csi_driver_for_windows_s.Kubernetes.Secrets.{
  secret_data_from_ref, secret_data_for_operation, secret_ref_for_operation,
}
use csi_driver_for_windows_s.Kubernetes.Claims.{
  template_names, persistent_volume_name_for_claim, storage_class_name_for_pvc,
}
use csi_driver_for_windows_s.Kubernetes.Claims.Cloning.{
  MakesNothing, IsOther, IsClone, named_source-IsOther, named_source-MakesNothing,
  volume_content_source-named,
}
use csi_driver_for_windows_s.Kubernetes.Provisioner.{
  create_request, make_volume, after_search, provision, provision_class, waits_for_node,
  reconcile_persistent_volume_claim,
}
use csi_driver_for_windows_s.Kubernetes.Traces.{
  MakesOnly-with_answer, MakesOnly-request, MakesOnly-on_backend,
}

module _ {S : Type 0} (k : Cluster S) (b : Backend S) (ids : IdCodec) (d : Driver) where
  secret_data-MakesNothing :
      (o : Option SecretReference) → MakesOnly MakesNothing (secret_data_from_ref k o)
  unfolding secret_data_from_ref MakesNothing
  secret_data-MakesNothing none = MakesOnly-pure []
  secret_data-MakesNothing (some ref) =
      MakesOnly-if _ (λ _. MakesOnly-pure [])
        (λ _. MakesOnly-request k MakesNothing (get_secret ref.namespace ref.name) tt)

  -- What the controller service answers for a source that is a volume.
  refused :
      (req : CreateVolumeRequest)
      → req.content_source ≡ some other_source
      → Yields {S = S} (λ v. ⊥) (on_backend (create_volume b ids d req))
  unfolding on_backend
  refused req h = record { yield = λ w a e. (create_volume-refuses b ids d req h).yield _ a e }

  make_volume-MakesNothing :
      (pvc : PersistentVolumeClaim) (sc : StorageClass) (pv_name : String) (ref : DataSource)
      → IsClone pvc ref
      → MakesOnly MakesNothing (make_volume k b ids d pvc sc pv_name)
  unfolding make_volume secret_data_for_operation create_request MakesNothing
  make_volume-MakesNothing pvc sc pv_name ref clone =
      MakesOnly-bind
        (secret_data-MakesNothing
          (secret_ref_for_operation sc.parameters "provisioner" (template_names pvc pv_name)))
        λ secrets. rw (volume_content_source-named k d.name pvc ref clone) (
          MakesOnly-bind_yielded IsOther (named_source-MakesNothing k d.name pvc ref)
            (named_source-IsOther k d.name pvc ref)
            λ source is_other.
              MakesOnly-bind_yielded (λ v. ⊥)
                (MakesOnly-on_backend k MakesNothing (
                  MakesOnly-map (λ c p. p)
                    (create_volume-quiet b ids d (create_request pvc sc pv_name secrets source)
                      is_other)))
                (refused (create_request pvc sc pv_name secrets source) is_other)
                λ v never. elim never [ ])

  after_search-MakesNothing :
      (pvc : PersistentVolumeClaim) (sc : StorageClass) (pv_name : String) (ref : DataSource)
      → IsClone pvc ref
      → (e : ApiError) → MakesOnly MakesNothing (after_search k b ids d pvc sc pv_name e)
  unfolding after_search
  after_search-MakesNothing pvc sc pv_name ref clone object_not_found =
      make_volume-MakesNothing pvc sc pv_name ref clone
  after_search-MakesNothing pvc sc pv_name ref clone object_already_exists =
      MakesOnly-lift (err unknown)
  after_search-MakesNothing pvc sc pv_name ref clone other_error = MakesOnly-lift (err unknown)

  provision_class-MakesNothing :
      (pvc : PersistentVolumeClaim) (ref : DataSource) (class_name : String)
      → IsClone pvc ref
      → MakesOnly MakesNothing (provision_class k b ids d pvc class_name)
  unfolding provision_class provision MakesNothing
  provision_class-MakesNothing pvc ref class_name clone =
      MakesOnly-bind (MakesOnly-request k MakesNothing (get_storage_class class_name) tt) λ sc.
        MakesOnly-if (not (sc.provisioner == d.name) || waits_for_node sc pvc)
          (λ _. MakesOnly-pure tt)
          λ _.
            MakesOnly-with_answer k MakesNothing
              (get_persistent_volume (persistent_volume_name_for_claim pvc)) tt
              (λ _. MakesOnly-pure tt)
              (after_search-MakesNothing pvc sc (persistent_volume_name_for_claim pvc) ref clone)

  -- For a claim whose data source has a name, of whatever kind it is, the provisioner neither calls the
  -- backend nor creates an object: a source that is a claim is passed to `CreateVolume` as a volume, which
  -- that refuses.
  pub reconcile_persistent_volume_claim-MakesNothing :
      (pvc : PersistentVolumeClaim) (ref : DataSource)
      → IsClone pvc ref
      → MakesOnly MakesNothing (reconcile_persistent_volume_claim k b ids d pvc)
  unfolding reconcile_persistent_volume_claim
  reconcile_persistent_volume_claim-MakesNothing pvc ref clone =
      MakesOnly-if _ (λ _. MakesOnly-pure tt)
        (λ _. provision_class-MakesNothing pvc ref (storage_class_name_for_pvc pvc) clone)
