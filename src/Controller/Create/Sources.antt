-- ===== src/Controller/Create/Sources.antt =====
-- `CreateVolume` (pkg/iscsi/controllerserver.go) with a content source that is no snapshot
use csi_driver_for_windows_s.Prelude.{◌≡◌, refl, not, ◌==◌, some, true}
use csi_driver_for_windows_s.Backend.{Backend}
use csi_driver_for_windows_s.Backend.Exec.{invalid_argument, lift, stop_if}
use csi_driver_for_windows_s.Backend.Exec.Trace.{
  MakesOnly, MakesOnly-lift, MakesOnly-stop_if, MakesOnly-bind, MakesOnly-behind,
}
use csi_driver_for_windows_s.Exec.Trace.{Yields, Yields-bind, Yields-behind}
use csi_driver_for_windows_s.Driver.{Driver}
use csi_driver_for_windows_s.Controller.Ids.{IdCodec}
use csi_driver_for_windows_s.Controller.Messages.{
  CreateVolumeRequest, other_source, is_other_source,
}
use csi_driver_for_windows_s.Controller.Params.{protocol_from_params}
use csi_driver_for_windows_s.Controller.Create.{is_none, supports_all, create_volume}

module _ {S : Type 0} (b : Backend S) (ids : IdCodec) (d : Driver) (req : CreateVolumeRequest)
    (other : req.content_source ≡ some other_source) where
  is_other : is_other_source req.content_source ≡ true
  is_other = rw other refl

  -- No call is made.
  pub create_volume-quiet : MakesOnly (λ c. ⊥) (create_volume b ids d req)
  unfolding create_volume
  create_volume-quiet = MakesOnly-bind (MakesOnly-stop_if (req.name == "") _) λ _.
      MakesOnly-bind (MakesOnly-stop_if (is_none req.capabilities) _) λ _.
        MakesOnly-bind (MakesOnly-lift (protocol_from_params d req.parameters)) λ protocol.
          MakesOnly-bind (MakesOnly-stop_if (not (supports_all d protocol req.capabilities)) _)
            λ _. MakesOnly-behind (is_other_source req.content_source) invalid_argument λ e. cc

  -- No volume is answered.
  pub create_volume-refuses : Yields (λ v. ⊥) (create_volume b ids d req)
  unfolding create_volume
  create_volume-refuses = Yields-bind (stop_if (req.name == "") invalid_argument) λ _.
      Yields-bind (stop_if (is_none req.capabilities) invalid_argument) λ _.
        Yields-bind (lift (protocol_from_params d req.parameters)) λ protocol.
          Yields-bind (stop_if (not (supports_all d protocol req.capabilities)) invalid_argument)
            λ _. Yields-behind (is_other_source req.content_source) invalid_argument λ e. cc
