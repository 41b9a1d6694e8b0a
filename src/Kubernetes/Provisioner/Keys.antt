-- ===== src/Kubernetes/Provisioner/Keys.antt =====
-- The keys of the provisioner's queue (pkg/iscsi/internal_kubernetes.go) lead back to their objects.
use Prim.Native.String
use text.Mathlib.TextLemmas.{cons-append}
use csi_driver_for_windows_s.Prelude.{◌≡◌, refl, ap, ◌∙◌, false, String, some, [], ◌∷◌, map}
use csi_driver_for_windows_s.Text.{has_prefix, cut_prefix}
use csi_driver_for_windows_s.Text.Cut.{has_prefix-append, trim_prefix-append}
use csi_driver_for_windows_s.Backend.{Backend}
use csi_driver_for_windows_s.Driver.{Driver}
use csi_driver_for_windows_s.Controller.Ids.{IdCodec}
use csi_driver_for_windows_s.Kubernetes.Objects.{PersistentVolumeClaim}
use csi_driver_for_windows_s.Kubernetes.Cluster.{Cluster}
use csi_driver_for_windows_s.Kubernetes.Events.{
  CacheKeys, object, pv_key_prefix, pvc_key_prefix, provisioner_pvc_keys,
}
use csi_driver_for_windows_s.Kubernetes.Provisioner.{
  reconcile_pvc_key, reconcile_internal_provisioner,
}

-- What client-go documents of its keys: the second function gives back what the first was given.
pub record SplitsKeys (keys : CacheKeys) : Type 0 where
  pub split :
      (namespace name key : String)
      → keys.meta_key namespace name ≡ some key
      → keys.split_key key ≡ some (namespace, name)

is_no_volume : (key : String) → has_prefix (String.◌++◌ pvc_key_prefix key) pv_key_prefix ≡ false
unfolding has_prefix cut_prefix
is_no_volume key = rw (cons-append, cons-append, cons-append) refl

module _ {S : Type 0} (k : Cluster S) (b : Backend S) (ids : IdCodec) (d : Driver) where
  prefixed-claim :
      (keys : CacheKeys) (key namespace name : String)
      → keys.split_key key ≡ some (namespace, name)
      → reconcile_internal_provisioner k b ids d keys (String.◌++◌ pvc_key_prefix key)
        ≡ reconcile_pvc_key k b ids d namespace name
  unfolding reconcile_internal_provisioner
  prefixed-claim keys key namespace name h =
      rw
        (
          is_no_volume key,
          has_prefix-append pvc_key_prefix key,
          trim_prefix-append pvc_key_prefix key,
          h,
        )
        refl

  -- The key that the provisioner queues for a claim, where client-go makes one.
  claim_keys :
      (keys : CacheKeys) (pvc : PersistentVolumeClaim) (key : String)
      → keys.meta_key pvc.namespace pvc.name ≡ some key
      → provisioner_pvc_keys keys (object pvc) ≡ String.◌++◌ pvc_key_prefix key ∷ []
  unfolding provisioner_pvc_keys
  claim_keys keys pvc key h = rw h refl

  -- What an event puts into the queue for a claim is reconciled as the claim of that namespace and name
  -- that the cache then holds.
  pub reconcile-provisioner_pvc_keys :
      (keys : CacheKeys) (pvc : PersistentVolumeClaim) (key : String)
      → SplitsKeys keys
      → keys.meta_key pvc.namespace pvc.name ≡ some key
      → map (reconcile_internal_provisioner k b ids d keys) (provisioner_pvc_keys keys (object pvc))
        ≡ reconcile_pvc_key k b ids d pvc.namespace pvc.name ∷ []
  reconcile-provisioner_pvc_keys keys pvc key h made =
      ap (map (reconcile_internal_provisioner k b ids d keys)) (claim_keys keys pvc key made)
      ∙ ap (λ r. r ∷ [])
          (prefixed-claim keys key pvc.namespace pvc.name (h.split pvc.namespace pvc.name key made))
