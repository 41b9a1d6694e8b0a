-- ===== src/Kubernetes/Provisioner/Attached.antt =====
-- The provisioner (pkg/iscsi/internal_kubernetes.go) spares a volume that is attached.
use mathlib.Core.List.{append-nil}
use csi_driver_for_windows_s.Prelude.{
  ◌≡◌, refl, sym, String, Bool, true, false, ◌==◌, Option, none, some, List, [], ◌∷◌, ◌++◌, any,
  All, ok, if◌then◌else◌,
}
use csi_driver_for_windows_s.Exec.{Code, World, unknown, pure, stop_if, ◌>>=◌, ◌▷◌}
use csi_driver_for_windows_s.Exec.Trace.{MakesOnly-pure, MakesOnly-if}
use csi_driver_for_windows_s.Backend.{Backend}
use csi_driver_for_windows_s.Driver.{Driver}
use csi_driver_for_windows_s.Controller.Ids.{IdCodec}
use csi_driver_for_windows_s.Kubernetes.Objects.{PersistentVolume, CsiSource, VolumeAttachment}
use csi_driver_for_windows_s.Kubernetes.Cluster.{
  Cluster, ClusterCall, api, backend, ClusterExec, try_request, request, update_persistent_volume,
  delete_persistent_volume, cached_volume_attachments,
}
use csi_driver_for_windows_s.Kubernetes.Provisioner.{
  attaches, update_pv_finalizers, volume_attachment_exists_for_pv, unprotect, delete_unattached,
  delete_own, delete_source, reconcile_persistent_volume_deletion,
}
use csi_driver_for_windows_s.Kubernetes.Strings.{has_string}
use csi_driver_for_windows_s.Kubernetes.Claims.{pv_protection_finalizer}
use csi_driver_for_windows_s.Kubernetes.Provisioner.Deletion.{unprotected}
use csi_driver_for_windows_s.Kubernetes.Traces.{MakesOnly-request}

-- A call that deletes nothing: neither a call of the backend nor the deletion of an object.
pub SparesVolumes : ClusterCall → Type 0
SparesVolumes (backend c) = ⊥
SparesVolumes (api (delete_persistent_volume name)) = ⊥
SparesVolumes (api _) = Unit

-- What `m` does in one world.
pub record Spares {S A : Type 0} (m : ClusterExec S A) (w : World ClusterCall S) : Type 0 where
  pub spared :
      (calls : List ClusterCall) × ((m w).1.trace ≡ w.trace ++ calls) × All SparesVolumes calls

module _ {S A : Type 0} {m n : ClusterExec S A} (w : World ClusterCall S) where
  Spares-if : (t : Bool) → Spares m w → Spares n w → Spares (if t then m else n) w
  Spares-if true h g = h
  Spares-if false h g = g

module _ {S A : Type 0} {m : ClusterExec S A} (w : World ClusterCall S) where
  Spares-stop_if : (t : Bool) (c : Code) → Spares m w → Spares (stop_if t c >>= λ _. m) w
  Spares-stop_if true c h = record { spared = ([], sym (append-nil w.trace), tt) }
  Spares-stop_if false c h = record { spared = h.spared }

Spares-pure : {S A : Type 0} (a : A) (w : World ClusterCall S) → Spares (pure a) w
Spares-pure a w = record { spared = ([], sym (append-nil w.trace), tt) }

module _ {S : Type 0} (k : Cluster S) (b : Backend S) (ids : IdCodec) (d : Driver)
    (pv : PersistentVolume) (vas : List VolumeAttachment) (s : S) (w : World ClusterCall S)
    (listed : k.answer cached_volume_attachments w.state ≡ (ok vas, s))
    (attached : any (attaches d.name pv.name) vas ≡ true) where
  unprotect-Spares : Spares (unprotect k b ids d pv) w
  unfolding unprotect update_pv_finalizers SparesVolumes
  unprotect-Spares = record {
    spared =
        (MakesOnly-if (has_string pv.finalizers pv_protection_finalizer)
            (λ _. MakesOnly-request k SparesVolumes (update_persistent_volume (unprotected pv)) tt)
            (λ _. MakesOnly-pure tt)).at
          w;
  }

  attachment_found :
      volume_attachment_exists_for_pv k b ids d pv.name w
      ≡ (ok true, record { state = s; trace = w.trace ▷ api cached_volume_attachments })
  unfolding volume_attachment_exists_for_pv request try_request
  attachment_found = rw listed (rw attached refl)

  delete_unattached-Spares : (id : String) → Spares (delete_unattached k b ids d pv id) w
  unfolding delete_unattached SparesVolumes
  delete_unattached-Spares id =
      Spares-stop_if w (id == "") unknown (record {
        spared = (api cached_volume_attachments ∷ [], rw attachment_found refl, (tt, tt));
      })

  delete_source-Spares : (o : Option CsiSource) → Spares (delete_source k b ids d pv o) w
  unfolding delete_source delete_own
  delete_source-Spares none = Spares-pure tt w
  delete_source-Spares (some csi) =
      Spares-if w _
        (Spares-if w _ (Spares-pure tt w) (
          Spares-if w _ (delete_unattached-Spares csi.volume_handle)
            (Spares-if w pv.deleting unprotect-Spares (Spares-pure tt w))))
        (Spares-pure tt w)

  -- Where the cached attachments list one of the driver for a volume, the provisioner deletes neither the
  -- backend's volume nor the object, whatever the volume's phase and policy are.
  pub reconcile_persistent_volume_deletion-Spares :
      Spares (reconcile_persistent_volume_deletion k b ids d pv) w
  unfolding reconcile_persistent_volume_deletion
  reconcile_persistent_volume_deletion-Spares = delete_source-Spares pv.csi
