-- ===== src/Controller/Messages.antt =====
-- The requests and responses of the CSI controller service, as far as the driver reads and fills them.
use csi_driver_for_windows_s.Prelude.{
  Bool, true, false, String, ℤ, Option, none, some, StringMap, List,
}
use csi_driver_for_windows_s.Driver.{AccessMode}
use csi_driver_for_windows_s.Controller.Params.{CapacityRange}

-- `VolumeContentSource`: a snapshot's ID, or anything else.
pub data ContentSource : Type 0 where
  snapshot : String → ContentSource
  other_source : ContentSource

-- A capability is given by its access mode, `unknown` where it has none.
pub record CreateVolumeRequest : Type 0 where
  pub name : String
  pub capacity_range : Option CapacityRange
  pub capabilities : List AccessMode
  pub parameters : StringMap
  pub secrets : StringMap
  pub content_source : Option ContentSource

pub record Volume : Type 0 where
  pub volume_id : String
  pub capacity_bytes : ℤ
  pub volume_context : StringMap
  pub content_source : Option ContentSource

-- `src != nil && src.GetSnapshot() != nil`, and the snapshot's ID
abbrev pub snapshot_source : Option ContentSource → Option String
snapshot_source (some (snapshot id)) = some id
snapshot_source _ = none

-- `src != nil && src.GetSnapshot() == nil`
abbrev pub is_other_source : Option ContentSource → Bool
is_other_source (some other_source) = true
is_other_source _ = false

pub record ControllerPublishVolumeRequest : Type 0 where
  pub volume_id : String
  pub node_id : String
  pub access_mode : AccessMode
  pub secrets : StringMap

pub record SnapshotEntry : Type 0 where
  pub snapshot_id : String
  pub source_volume_id : String
  pub created_at : ℤ
  pub size_bytes : ℤ
  pub ready_to_use : Bool

pub record ExpandResponse : Type 0 where
  pub capacity_bytes : ℤ
  pub node_expansion_required : Bool

pub record GetVolumeResponse : Type 0 where
  pub volume : Volume
  pub published_node_ids : List String
  pub abnormal : Bool
