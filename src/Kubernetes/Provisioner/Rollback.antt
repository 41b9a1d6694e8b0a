-- ===== src/Kubernetes/Provisioner/Rollback.antt =====
-- The provisioner (pkg/iscsi/internal_kubernetes.go) takes a volume back that it cannot publish.
use csi_driver_for_windows_s.Prelude.{
  ◌≡◌, refl, false, String, ◌==◌, some, [], ◌++◌, map, Result, err,
}
use csi_driver_for_windows_s.Exec.{Code, World, unknown, ◌▷◌}
use csi_driver_for_windows_s.Backend.{Backend}
use csi_driver_for_windows_s.Driver.{Driver}
use csi_driver_for_windows_s.Controller.Ids.{IdCodec, AnyVolumeId, decode_any_volume_id}
use csi_driver_for_windows_s.Backend.{Call}
use csi_driver_for_windows_s.Controller.Delete.{delete_volume}
use csi_driver_for_windows_s.Controller.Delete.Order.{
  EndsBy, KnowsTarget, deletion, delete_volume-EndsBy,
}
use csi_driver_for_windows_s.Kubernetes.Objects.{PersistentVolume}
use csi_driver_for_windows_s.Kubernetes.Cluster.{
  ApiError, object_not_found, object_already_exists, other_error, Cluster, ClusterCall, api,
  backend, on_backend, ignoring, try_request, create_persistent_volume,
}
use csi_driver_for_windows_s.Kubernetes.Provisioner.{publish_volume, after_refusal, roll_back}

-- After the refusal, which left the state `s`, the deletion of the volume was run, and nothing else; the
-- error is that of the refusal.
pub record IsTakenBack {S : Type 0} (b : Backend S) (pv : PersistentVolume) (v : AnyVolumeId)
    (s : S) (w : World ClusterCall S) (out : Result Code (Unit {0}) × World ClusterCall S)
    : Type 0 where
  pub fails : out.0 ≡ err unknown
  pub deleted : Result Code (Unit {0}) × World Call S
  pub ends : EndsBy b (deletion v.decoded.protocol v) (record { state = s; trace = [] }) deleted
  pub calls :
      out.1.trace ≡ (w.trace ▷ api (create_persistent_volume pv)) ++ map backend deleted.1.trace
  pub is_last : out.1.state ≡ deleted.1.state

module _ {S : Type 0} (k : Cluster S) (b : Backend S) (ids : IdCodec) (d : Driver)
    (pv : PersistentVolume) (id : String) (v : AnyVolumeId) where
  after_refusal-roll_back :
      (e : ApiError)
      → ¬ (e ≡ object_already_exists)
      → after_refusal k b ids d id e ≡ roll_back k b ids d id
  unfolding after_refusal
  after_refusal-roll_back object_not_found h = refl
  after_refusal-roll_back object_already_exists h = absurd (h refl)
  after_refusal-roll_back other_error h = refl

  rolled_back :
      (s : S) (w : World ClusterCall S)
      → (id == "") ≡ false
      → decode_any_volume_id ids id ≡ some v
      → KnowsTarget v.decoded.protocol v
      → IsTakenBack b pv v s w (
          roll_back k b ids d id
            (record { state = s; trace = w.trace ▷ api (create_persistent_volume pv) }))
  unfolding roll_back on_backend ignoring
  rolled_back s w named decoded known = rw named (record {
    fails = refl;
    deleted = delete_volume b ids id (record { state = s; trace = [] });
    ends = delete_volume-EndsBy b ids id v (record { state = s; trace = [] }) named decoded known;
    calls = refl;
    is_last = refl;
  })

  -- Where the cluster refuses the object of a volume for another reason than that it exists, the
  -- provisioner fails with the error of the refusal, and has worked through the calls that delete the
  -- volume, in their order: all of them, if the backend answers all, or those up to the first that the
  -- backend fails at. This is so for a volume ID that can be decoded and that is one of a share or names
  -- the target.
  pub publish_volume-TakesBack :
      (e : ApiError) (s : S) (w : World ClusterCall S)
      → k.answer (create_persistent_volume pv) w.state ≡ (err e, s)
      → ¬ (e ≡ object_already_exists)
      → (id == "") ≡ false
      → decode_any_volume_id ids id ≡ some v
      → KnowsTarget v.decoded.protocol v
      → IsTakenBack b pv v s w (publish_volume k b ids d pv id w)
  unfolding publish_volume try_request
  publish_volume-TakesBack e s w refused other named decoded known =
      rw refused (rw (after_refusal-roll_back e other) (rolled_back s w named decoded known))
