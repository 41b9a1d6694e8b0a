-- ===== src/Controller/Smb.antt =====
-- The SMB parameters of a storage class (pkg/iscsi/controllerserver.go).
use csi_driver_for_windows_s.Prelude.{
  String, ◌==◌, StringMap, index, [], ◌∷◌, Result, ok, err, ◌>>=◌, if◌then◌else◌,
}
use csi_driver_for_windows_s.Text.{trim_space}
use csi_driver_for_windows_s.Strconv.{one_of}
use csi_driver_for_windows_s.Backend.{SmbShareOptions}
use csi_driver_for_windows_s.Backend.Exec.{Code, invalid_argument}
use csi_driver_for_windows_s.Controller.Params.{
  parse_bool_param, parse_uint32_param, split_csv_param,
}
use csi_driver_for_windows_s.Controller.Nfs.{word}

pub normalize_smb_caching_mode : String → Result Code String
normalize_smb_caching_mode value =
    if word value == ""
    then ok ""
    else if word value == "none"
    then ok "None"
    else if word value == "manual"
    then ok "Manual"
    else if word value == "documents"
    then ok "Documents"
    else if word value == "programs"
    then ok "Programs"
    else if one_of ("branchcache" ∷ "branch-cache" ∷ []) (word value)
    then ok "BranchCache"
    else err invalid_argument

pub normalize_smb_folder_enumeration_mode : String → Result Code String
normalize_smb_folder_enumeration_mode value =
    if word value == ""
    then ok ""
    else if one_of ("accessbased" ∷ "access-based" ∷ []) (word value)
    then ok "AccessBased"
    else if word value == "unrestricted"
    then ok "Unrestricted"
    else err invalid_argument

pub smb_options_from_params : StringMap → Result Code SmbShareOptions
smb_options_from_params params = do
  encrypt ← parse_bool_param params "smbEncryptData"
  compress ← parse_bool_param params "smbCompressData"
  available ← parse_bool_param params "smbContinuouslyAvailable"
  limit ← parse_uint32_param params "smbConcurrentUserLimit"
  caching ← normalize_smb_caching_mode (index "smbCachingMode" params)
  enumeration ← normalize_smb_folder_enumeration_mode (index "smbFolderEnumerationMode" params)
  ok (record {
    no_access = split_csv_param (index "smbNoAccess" params);
    description = trim_space (index "smbDescription" params);
    encrypt_data = encrypt;
    compress_data = compress;
    continuously_available = available;
    caching_mode = caching;
    folder_enumeration_mode = enumeration;
    concurrent_user_limit = limit;
  })
