-- ===== src/Node/Query.antt =====
-- The other requests of the node service (pkg/iscsi/nodeserver.go): information, capabilities,
-- statistics and expansion
use csi_driver_for_windows_s.Prelude.{
  Bool, false, String, ◌==◌, ℤ, pos, List, [], ◌∷◌, Result, ok, err, with_error, if◌then◌else◌,
}
use csi_driver_for_windows_s.Text.{trim_space}
use csi_driver_for_windows_s.Strconv.{parse_int}
use csi_driver_for_windows_s.VolumeId.Scheme.{
  Protocol, VolumeIdError, parse_protocol_from_volume_id,
}
use csi_driver_for_windows_s.Driver.{Driver, is_file_share}
use csi_driver_for_windows_s.Exec.{
  invalid_argument, internal, pure, fail, lift, stop_if, ◌>>=◌, ◌>>◌,
}
use csi_driver_for_windows_s.Node.Host.{
  Host, HostError, NodeExec, FsUsage, with_reply, try_call, make_call, stat, run_command, fs_usage,
  expand_filesystem,
}

-- `NodeGetInfo`
pub node_get_info : Driver → String
node_get_info d = d.node_id

pub data NodeCapability : Type 0 where
  stage_unstage_volume expand_node_volume : NodeCapability

-- `NodeGetCapabilities`
pub node_get_capabilities : List NodeCapability
node_get_capabilities = stage_unstage_volume ∷ expand_node_volume ∷ []

pub data UsageUnit : Type 0 where
  bytes inodes : UsageUnit

-- The struct `csi.VolumeUsage`.
pub record VolumeUsage : Type 0 where
  pub unit : UsageUnit
  pub total : ℤ
  pub available : ℤ
  pub used : ℤ

abbrev pub no_usage : UsageUnit → VolumeUsage
no_usage unit = record { unit = unit; total = pos 0; available = pos 0; used = pos 0 }

abbrev block_usage : ℤ → List VolumeUsage
block_usage size = record { unit = bytes; total = size; available = size; used = pos 0 } ∷ []

abbrev fs_usages : FsUsage → List VolumeUsage
fs_usages u =
    record { unit = bytes; total = u.capacity; available = u.available; used = u.used }
    ∷ record { unit = inodes; total = u.inodes; available = u.inodes_free; used = u.inodes_used }
    ∷ []

-- `isBlockDevice`; its error is ignored.
abbrev is_block_device : Result HostError Bool → Bool
is_block_device (ok is_device) = is_device
is_block_device (err e) = false

module _ {S : Type 0} (h : Host S) where
  block_stats : String → NodeExec S (List VolumeUsage)
  unfolding make_call trim_space parse_int
  block_stats path = do
    output ← make_call h (run_command ("blockdev" ∷ "--getsize64" ∷ path ∷ []))
    size ← lift (with_error internal (parse_int (trim_space output)))
    pure (block_usage size)

  fs_stats : String → NodeExec S (List VolumeUsage)
  unfolding try_call
  fs_stats path =
      with_reply h (fs_usage path) (λ usage. pure (fs_usages usage))
        λ e. if e.not_exist then pure (no_usage bytes ∷ no_usage inodes ∷ []) else fail internal

  pub node_get_volume_stats : (volume_id volume_path : String) → NodeExec S (List VolumeUsage)
  unfolding try_call block_stats fs_stats
  node_get_volume_stats volume_id volume_path = do
    stop_if (volume_id == "") invalid_argument
    stop_if (volume_path == "") invalid_argument
    st ← try_call h (stat volume_path)
    if is_block_device st then block_stats volume_path else fs_stats volume_path

  -- `err == nil && (proto == ProtocolNFS || proto == ProtocolSMB)`
  abbrev is_known_share : Result VolumeIdError Protocol → Bool
  is_known_share (ok proto) = is_file_share proto
  is_known_share (err e) = false

  pub node_expand_volume : (volume_id volume_path : String) → NodeExec S (Unit {0})
  unfolding make_call parse_protocol_from_volume_id
  node_expand_volume volume_id volume_path = do
    stop_if (volume_id == "") invalid_argument
    stop_if (volume_path == "") invalid_argument
    if is_known_share (parse_protocol_from_volume_id volume_id)
        then pure tt
        else make_call h (expand_filesystem volume_path)
