-- ===== src/Examples/Ids.antt =====
-- Examples of volume IDs.
use csi_driver_for_windows_s.Prelude.{◌≡◌, refl, ◌≢◌, true, pos, some, ok}
use csi_driver_for_windows_s.VolumeId.{VolumeId, empty_volume_id}
use csi_driver_for_windows_s.VolumeId.Scheme.{iscsi, unset, parse_protocol_from_volume_id}
use csi_driver_for_windows_s.VolumeId.Decode.{decode_volume_id, decoder}
use csi_driver_for_windows_s.VolumeId.Complete.{IsComplete}
use csi_driver_for_windows_s.VolumeId.Decode.Agreement.{
  decode_volume_id-IsComplete, protocol-decode_volume_id,
}
use csi_driver_for_windows_s.Strconv.{parse_int}
use csi_driver_for_windows_s.Controller.Ids.{VolId, AnyVolumeId, decode_any_volume_id, legacy_of}
use csi_driver_for_windows_s.Examples.{plain_url, example_ids, data_id}

abbrev pub data_volume : VolumeId
data_volume = record (empty_volume_id iscsi) {
  target_portal = "10.0.0.5:3260";
  target_name = "data";
  target_iqn = "iqn.1991-05.com.microsoft:data";
  vhdx_path = "C:\\disks\\data.vhdx";
  lun_specified = true;
}

abbrev pub data_vol : VolId
data_vol = record {
  volume_name = "";
  target_portal = "10.0.0.5:3260";
  target_name = "data";
  target_iqn = "iqn.1991-05.com.microsoft:data";
  lun = pos 0;
  vhdx_path = "C:\\disks\\data.vhdx";
  size_bytes = pos 0;
}

abbrev pub data_any : AnyVolumeId
data_any = record { decoded = data_volume; legacy = data_vol }

pub decoded_data : decode_volume_id plain_url data_id ≡ ok data_volume
unfolding decoder parse_int
decoded_data = refl

pub any_data : decode_any_volume_id example_ids data_id ≡ some data_any
unfolding decode_any_volume_id decoder parse_int legacy_of
any_data = refl

scheme_data : parse_protocol_from_volume_id data_id ≡ ok iscsi
unfolding parse_protocol_from_volume_id
scheme_data = refl

iscsi_set : iscsi ≢ unset
iscsi_set h = cc

decode_volume_id-IsComplete_example : IsComplete data_volume
decode_volume_id-IsComplete_example =
    decode_volume_id-IsComplete plain_url data_id data_volume decoded_data

protocol-decode_volume_id_example : data_volume.protocol ≡ iscsi
protocol-decode_volume_id_example =
    protocol-decode_volume_id plain_url data_id data_volume iscsi decoded_data scheme_data iscsi_set
