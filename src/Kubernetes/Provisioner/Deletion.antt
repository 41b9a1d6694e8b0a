-- ===== src/Kubernetes/Provisioner/Deletion.antt =====
-- What the provisioner (pkg/iscsi/internal_kubernetes.go) takes away, and when.
use mathlib.Core.Path.{subst⁻¹}
use csi_driver_for_windows_s.Prelude.{
  ℕ, ◌≤◌, ◌≡◌, refl, arith, Bool, true, false, not, ◌||◌, String, ◌==◌, Option, none, some,
}
use csi_driver_for_windows_s.Exec.{unknown}
use csi_driver_for_windows_s.Exec.Trace.{
  MakesOnly, MakesOnly-map, MakesOnly-pure, MakesOnly-if, MakesOnly-bind, MakesOnly-behind,
}
use csi_driver_for_windows_s.Exec.Order.{Rises, Rises-bind, Rises-pure, Rises-if, Rises-stop_if}
use csi_driver_for_windows_s.Backend.{Backend}
use csi_driver_for_windows_s.Driver.{Driver}
use csi_driver_for_windows_s.Controller.Ids.{IdCodec, AnyVolumeId, decode_any_volume_id}
use csi_driver_for_windows_s.Controller.Delete.{delete_volume}
use csi_driver_for_windows_s.Controller.Delete.Scope.{
  IsPartOf, delete_volume-IsPartOf, delete_volume-calls,
}
use csi_driver_for_windows_s.Kubernetes.Objects.{PersistentVolume, CsiSource}
use csi_driver_for_windows_s.Kubernetes.Cluster.{
  Cluster, ClusterCall, api, backend, update_persistent_volume, delete_persistent_volume,
  cached_volume_attachments,
}
use csi_driver_for_windows_s.Kubernetes.Strings.{remove_string, unique_strings}
use csi_driver_for_windows_s.Kubernetes.Claims.{pv_protection_finalizer, is_reclaim_delete}
use csi_driver_for_windows_s.Kubernetes.Provisioner.{
  is_released, update_pv_finalizers, volume_attachment_exists_for_pv, unprotect, delete_object,
  delete_backend_volume, delete_unattached, delete_own, delete_source,
  reconcile_persistent_volume_deletion,
}
use csi_driver_for_windows_s.Kubernetes.Traces.{
  MakesOnly-with_answer, MakesOnly-accept_missing, Rises-accept_missing, MakesOnly-request,
  MakesOnly-on_backend, Rises-with_answer, Rises-request, Rises-on_backend,
}

not-eq-false : {t : Bool} → not t ≡ false → t ≡ true
not-eq-false {t = true} h = refl
not-eq-false {t = false} h = cc

-- A volume that the driver made, that is no longer used, and that is to be deleted then.
pub record MayDelete (driver_name : String) (pv : PersistentVolume) (csi : CsiSource) : Type 0 where
  pub is_made : pv.csi ≡ some csi
  pub is_own : (csi.driver == driver_name) ≡ true
  pub has_handle : (csi.volume_handle == "") ≡ false
  pub is_unused : (pv.deleting || is_released pv.phase) ≡ true
  pub is_to_be_deleted : is_reclaim_delete pv.reclaim_policy ≡ true

-- The volume without its protection.
abbrev pub unprotected : PersistentVolume → PersistentVolume
unprotected pv = record pv {
  finalizers = unique_strings (remove_string pv.finalizers pv_protection_finalizer);
}

-- A call that takes the volume away, for which it has to be one that may be deleted, or a call that looks
-- at the attachments or takes the protection off.
pub TakesAway :
    {S : Type 0}
    → Backend S
    → String
    → PersistentVolume
    → CsiSource
    → AnyVolumeId
    → ClusterCall
    → Type 0
TakesAway b driver_name pv csi v (backend c) = MayDelete driver_name pv csi × IsPartOf b v c
TakesAway b driver_name pv csi v (api (delete_persistent_volume name)) =
    MayDelete driver_name pv csi × (name ≡ pv.name)
TakesAway b driver_name pv csi v (api (update_persistent_volume changed)) = changed ≡ unprotected pv
TakesAway b driver_name pv csi v (api cached_volume_attachments) = Unit
TakesAway b driver_name pv csi v (api _) = ⊥

module _ {S : Type 0} (k : Cluster S) (b : Backend S) (ids : IdCodec) (d : Driver)
    (pv : PersistentVolume) (csi : CsiSource) (v : AnyVolumeId) where
  abbrev Takes : ClusterCall → Type 0
  Takes = TakesAway b d.name pv csi v

  unprotect-TakesAway : MakesOnly Takes (unprotect k b ids d pv)
  unfolding unprotect update_pv_finalizers TakesAway
  unprotect-TakesAway =
      MakesOnly-if _
        (λ _. MakesOnly-request k Takes (update_persistent_volume (unprotected pv)) refl)
        (λ _. MakesOnly-pure tt)

  delete_object-TakesAway :
      MayDelete d.name pv csi → MakesOnly Takes (delete_object k b ids d pv.name)
  unfolding delete_object TakesAway
  delete_object-TakesAway may =
      MakesOnly-with_answer k Takes (delete_persistent_volume pv.name) (may, refl)
        (λ _. MakesOnly-pure tt) (MakesOnly-accept_missing k Takes)

  delete_backend_volume-TakesAway :
      decode_any_volume_id ids csi.volume_handle ≡ some v
      → MayDelete d.name pv csi
      → MakesOnly Takes (delete_backend_volume k b ids d pv csi.volume_handle)
  unfolding delete_backend_volume TakesAway
  delete_backend_volume-TakesAway h may =
      MakesOnly-bind
        (MakesOnly-on_backend k Takes
          (MakesOnly-map (λ c p. (may, p)) (delete_volume-IsPartOf b ids csi.volume_handle v h)))
        λ _.
          MakesOnly-bind unprotect-TakesAway λ _.
            MakesOnly-if pv.deleting (λ _. MakesOnly-pure tt) (λ _. delete_object-TakesAway may)

  delete_own-TakesAway :
      decode_any_volume_id ids csi.volume_handle ≡ some v
      → pv.csi ≡ some csi
      → (csi.driver == d.name) ≡ true
      → MakesOnly Takes (delete_own k b ids d pv csi)
  unfolding delete_own delete_unattached volume_attachment_exists_for_pv TakesAway
  delete_own-TakesAway h made own =
      MakesOnly-if _ (λ _. MakesOnly-pure tt)
        λ unused.
          MakesOnly-if _
            (λ policy. MakesOnly-behind _ unknown λ handle.
              MakesOnly-bind
                (MakesOnly-bind (MakesOnly-request k Takes cached_volume_attachments tt)
                  (λ vas. MakesOnly-pure _))
                λ attached.
                  MakesOnly-if attached (λ _. MakesOnly-pure tt)
                    λ _. delete_backend_volume-TakesAway h (record {
                      is_made = made;
                      is_own = own;
                      has_handle = handle;
                      is_unused = not-eq-false unused;
                      is_to_be_deleted = policy;
                    }))
            (λ _. MakesOnly-if pv.deleting (λ _. unprotect-TakesAway) (λ _. MakesOnly-pure tt))

  -- For a volume with a CSI source whose handle can be decoded, whatever the cluster and the backend answer:
  -- the provisioner deletes a part of the backend's volume, or the object, only if the volume is the
  -- driver's, has a handle, is released or being deleted, and has the policy Delete. Then it deletes only
  -- disks, shares and targets of the handle, as `DeleteVolume` does. Its other calls list the attachments
  -- and take the protection off.
  pub reconcile_persistent_volume_deletion-TakesAway :
      decode_any_volume_id ids csi.volume_handle ≡ some v
      → pv.csi ≡ some csi
      → MakesOnly Takes (reconcile_persistent_volume_deletion k b ids d pv)
  unfolding reconcile_persistent_volume_deletion delete_source
  reconcile_persistent_volume_deletion-TakesAway h made =
      subst⁻¹ (λ o. MakesOnly Takes (delete_source k b ids d pv o)) made
        (MakesOnly-if _ (λ own. delete_own-TakesAway h made own) (λ _. MakesOnly-pure tt))

-- What a removal does in which order: the attachments are listed, the volume is deleted, its object is
-- changed, and then deleted.
pub deletion_phase : ClusterCall → Option ℕ
deletion_phase (api cached_volume_attachments) = some 0
deletion_phase (backend c) = some 1
deletion_phase (api (update_persistent_volume pv)) = some 2
deletion_phase (api (delete_persistent_volume name)) = some 3
deletion_phase (api _) = none

module _ {S : Type 0} (k : Cluster S) (b : Backend S) (ids : IdCodec) (d : Driver) where
  unprotect-Rises :
      (low high : ℕ) (pv : PersistentVolume)
      → low ≤ 2
      → 2 ≤ high
      → Rises deletion_phase low high (unprotect k b ids d pv)
  unfolding unprotect update_pv_finalizers deletion_phase
  unprotect-Rises low high pv h g =
      Rises-if _
        (Rises-request k deletion_phase low high (update_persistent_volume (unprotected pv)) (h, g))
        (Rises-pure tt (omega arith))

  delete_backend_volume-Rises :
      (pv : PersistentVolume) (id : String)
      → Rises deletion_phase 0 3 (delete_backend_volume k b ids d pv id)
  unfolding delete_backend_volume delete_object deletion_phase
  delete_backend_volume-Rises pv id =
      Rises-bind 0 1 3 (omega arith)
        (Rises-on_backend deletion_phase 0 1 (delete_volume b ids id)
          (λ w. let (calls, e, p) = (delete_volume-calls b ids id).at w in (calls, e)) (omega arith)
          (λ c. refl))
        λ _.
          Rises-bind 1 2 3 (omega arith) (unprotect-Rises 1 2 pv (omega arith) (omega arith)) λ _.
            Rises-if pv.deleting (Rises-pure tt (omega arith)) (
              Rises-with_answer k deletion_phase 2 3 (delete_persistent_volume pv.name)
                (omega arith, omega arith) (λ _. Rises-pure tt (omega arith))
                (λ e. Rises-accept_missing k deletion_phase 3 3 e (omega arith)))

  delete_own-Rises :
      (pv : PersistentVolume) (csi : CsiSource)
      → Rises deletion_phase 0 3 (delete_own k b ids d pv csi)
  unfolding delete_own delete_unattached volume_attachment_exists_for_pv deletion_phase
  delete_own-Rises pv csi = Rises-if _ (Rises-pure tt (omega arith)) (
      Rises-if _
        (Rises-bind 0 0 3 (omega arith)
          (Rises-stop_if (csi.volume_handle == "") unknown (omega arith))
          λ _.
            Rises-bind 0 0 3 (omega arith)
              (Rises-bind 0 0 0 (omega arith)
                (Rises-request k deletion_phase 0 0 cached_volume_attachments
                  (omega arith, omega arith))
                (λ vas. Rises-pure _ (omega arith)))
              λ attached.
                Rises-if attached (Rises-pure tt (omega arith))
                  (delete_backend_volume-Rises pv csi.volume_handle))
        (Rises-if pv.deleting (unprotect-Rises 0 3 pv (omega arith) (omega arith))
          (Rises-pure tt (omega arith))))

  delete_source-Rises :
      (pv : PersistentVolume) (o : Option CsiSource)
      → Rises deletion_phase 0 3 (delete_source k b ids d pv o)
  unfolding delete_source
  delete_source-Rises pv none = Rises-pure tt (omega arith)
  delete_source-Rises pv (some csi) =
      Rises-if _ (delete_own-Rises pv csi) (Rises-pure tt (omega arith))

  -- The provisioner takes a volume away in this order, whether it succeeds or fails: it lists the
  -- attachments, deletes the volume, takes the protection off its object, and deletes the object.
  pub reconcile_persistent_volume_deletion-Rises :
      (pv : PersistentVolume)
      → Rises deletion_phase 0 3 (reconcile_persistent_volume_deletion k b ids d pv)
  unfolding reconcile_persistent_volume_deletion
  reconcile_persistent_volume_deletion-Rises pv = delete_source-Rises pv pv.csi
