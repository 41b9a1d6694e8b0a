-- ===== src/Kubernetes/Claims/Cloning.antt =====
-- A claim with a data source (pkg/iscsi/internal_kubernetes.go)
use mathlib.Core.Path.{subst⁻¹}
use csi_driver_for_windows_s.Prelude.{◌≡◌, refl, false, not, ◌&&◌, String, ◌==◌, Option, some, err}
use csi_driver_for_windows_s.Text.{trim_space}
use csi_driver_for_windows_s.Exec.{unknown, stop_if}
use csi_driver_for_windows_s.Exec.Trace.{
  MakesOnly, MakesOnly-pure, MakesOnly-lift, MakesOnly-if, MakesOnly-bind, MakesOnly-stop_if,
  Yields, Yields-bind, Yields-pure, Yields-fail, Yields-if,
}
use csi_driver_for_windows_s.Controller.Messages.{ContentSource, other_source}
use csi_driver_for_windows_s.Kubernetes.Objects.{PersistentVolumeClaim, DataSource}
use csi_driver_for_windows_s.Kubernetes.Cluster.{
  Cluster, ClusterCall, api, backend, request, create_persistent_volume, get_persistent_volume,
  get_persistent_volume_claim,
}
use csi_driver_for_windows_s.Kubernetes.Claims.{
  claim_as_source, named_source, source_of_reference, volume_content_source_for_pvc,
  source_namespace, is_own_volume, trimmed, pvc_data_source_ref,
}
use csi_driver_for_windows_s.Kubernetes.Traces.{MakesOnly-request}

-- A call that makes nothing: neither a call of the backend nor the creation of an object.
unfoldable pub MakesNothing : ClusterCall → Type 0
MakesNothing (backend c) = ⊥
MakesNothing (api (create_persistent_volume pv)) = ⊥
MakesNothing (api _) = Unit

-- A volume as source.
abbrev pub IsOther : Option ContentSource → Type 0
IsOther o = o ≡ some other_source

-- A claim whose source has a name.
pub record IsClone (pvc : PersistentVolumeClaim) (ref : DataSource) : Type 0 where
  pub refers : pvc_data_source_ref pvc ≡ some ref
  pub is_named : (trim_space ref.name == "") ≡ false

module _ {S : Type 0} (k : Cluster S) (driver_name : String) where
  claim_as_source-IsOther :
      (namespace name : String) → Yields IsOther (claim_as_source k driver_name namespace name)
  unfolding claim_as_source
  claim_as_source-IsOther namespace name =
      Yields-bind (request k (get_persistent_volume_claim namespace name)) λ source.
        Yields-bind (stop_if (trim_space source.volume_name == "") unknown) λ _.
          Yields-bind (request k (get_persistent_volume source.volume_name)) λ pv.
            Yields-bind (stop_if (not (is_own_volume driver_name pv.csi)) unknown)
              λ _. Yields-pure (some other_source) refl

  claim_as_source-MakesNothing :
      (namespace name : String)
      → MakesOnly MakesNothing (claim_as_source k driver_name namespace name)
  unfolding claim_as_source MakesNothing
  claim_as_source-MakesNothing namespace name =
      MakesOnly-bind
        (MakesOnly-request k MakesNothing (get_persistent_volume_claim namespace name) tt)
        λ source.
          MakesOnly-bind (MakesOnly-stop_if (trim_space source.volume_name == "") unknown) λ _.
            MakesOnly-bind
              (MakesOnly-request k MakesNothing (get_persistent_volume source.volume_name) tt)
              λ pv.
                MakesOnly-bind (MakesOnly-stop_if _ unknown)
                  (λ _. MakesOnly-pure (some other_source))

  pub named_source-IsOther :
      (pvc : PersistentVolumeClaim) (ref : DataSource)
      → Yields IsOther (named_source k driver_name pvc ref)
  unfolding named_source
  named_source-IsOther pvc ref =
      Yields-bind (stop_if (not (source_namespace pvc ref == pvc.namespace)) unknown) λ _.
        Yields-if _ (claim_as_source-IsOther (source_namespace pvc ref) ref.name)
          (Yields-fail unknown)

  pub named_source-MakesNothing :
      (pvc : PersistentVolumeClaim) (ref : DataSource)
      → MakesOnly MakesNothing (named_source k driver_name pvc ref)
  unfolding named_source
  named_source-MakesNothing pvc ref =
      MakesOnly-bind (MakesOnly-stop_if (not (source_namespace pvc ref == pvc.namespace)) unknown)
        λ _.
          MakesOnly-if
            (trimmed ref.api_group == "" && trim_space ref.kind == "PersistentVolumeClaim")
            (λ _. claim_as_source-MakesNothing (source_namespace pvc ref) ref.name)
            (λ _. MakesOnly-lift (err unknown))

  -- A named source is a volume, or the claim is refused.
  pub volume_content_source-named :
      (pvc : PersistentVolumeClaim) (ref : DataSource)
      → IsClone pvc ref
      → volume_content_source_for_pvc k driver_name pvc ≡ named_source k driver_name pvc ref
  unfolding volume_content_source_for_pvc source_of_reference
  volume_content_source-named pvc ref h =
      subst⁻¹ (λ o. source_of_reference k driver_name pvc o ≡ named_source k driver_name pvc ref)
        h.refers (rw (h.is_named) refl)
