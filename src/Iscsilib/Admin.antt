-- ===== src/Iscsilib/Admin.antt =====
-- The commands of iscsiadm: pkg/iscsilib/iscsiadm.go
use Prim.Native.String
use csi_driver_for_windows_s.Prelude.{
  Bool, true, false, ◌||◌, ◌&&◌, String, ◌==◌, none, some, List, [], ◌∷◌, ◌++◌, any, if◌then◌else◌,
}
use csi_driver_for_windows_s.Text.{trim_space, to_lower, contains}
use csi_driver_for_windows_s.Exec.{pure, fail, unknown, ◌>>=◌, ◌>>◌}
use csi_driver_for_windows_s.Iscsilib.{Secrets}
use csi_driver_for_windows_s.Iscsilib.Commands.{
  CommandError, CommandResult, Machine, MachineExec, iscsi_cmd, need,
}

abbrev pub node_args : (target_iqn portal : String) → List String
node_args target_iqn portal = "-m" ∷ "node" ∷ "-T" ∷ target_iqn ∷ "-p" ∷ portal ∷ []

-- An option that is only given if it has a value.
abbrev given_option : (key value : String) → List String
given_option key value = if value == "" then [] else "-n" ∷ key ∷ "-v" ∷ value ∷ []

abbrev chap_args : (prefix : String) → Secrets → List String
chap_args prefix secrets =
    "-o"
    ∷ "update"
    ∷ "-n"
    ∷ String.◌++◌ prefix "authmethod"
    ∷ "-v"
    ∷ "CHAP"
    ∷ "-n"
    ∷ String.◌++◌ prefix "username"
    ∷ "-v"
    ∷ secrets.user_name
    ∷ "-n"
    ∷ String.◌++◌ prefix "password"
    ∷ "-v"
    ∷ secrets.password
    ∷ (given_option (String.◌++◌ prefix "username_in") secrets.user_name_in
        ++ given_option (String.◌++◌ prefix "password_in") secrets.password_in)

abbrev chap_prefix : (discovery : Bool) → String
chap_prefix discovery = if discovery then "discovery.sendtargets.auth." else "node.session.auth."

-- The first markers of an absent session, in the output or in the error's text.
abbrev absent_markers : List String
absent_markers =
    "no matching sessions" ∷ "no records found" ∷ "no record found" ∷ "not currently logged in" ∷ []

-- The markers that count in the output only.
abbrev output_markers : List String
output_markers = "not found" ∷ "does not exist" ∷ "not exist" ∷ "could not find" ∷ []

-- `isISCSIAlreadyAbsent`, for a command that failed
unfoldable pub is_iscsi_already_absent : (output : String) → CommandError → Bool
unfolding to_lower contains trim_space
is_iscsi_already_absent output e =
    let output_msg = to_lower output in
    let msg = String.◌++◌ output_msg (String.◌++◌ " " (to_lower e.text)) in
    any (contains msg) absent_markers
    || (if trim_space output_msg == "" then false else any (contains output_msg) output_markers)

-- `isISCSINodeDBEntryAlreadyAbsent`, for a command that failed
unfoldable pub is_iscsi_node_db_entry_already_absent : (output : String) → CommandError → Bool
unfolding is_iscsi_already_absent
is_iscsi_node_db_entry_already_absent output e =
    let msg = to_lower (String.◌++◌ output (String.◌++◌ " " e.text)) in
    is_iscsi_already_absent output e
    || (if trim_space output == ""
        then false
        else contains msg "could not execute operation on all records"
          && contains msg "database failure")

-- The end of a removal: an error is none if it says that there is nothing to remove.
abbrev pub unless_absent :
    {S : Type 0} → (String → CommandError → Bool) → CommandResult → MachineExec S (Unit {0})
unless_absent is_absent result = elim result.error [
  | none ↦ pure tt
  | some e ↦ if is_absent result.output e then pure tt else fail unknown
]

abbrev pub logout_args : (target_iqn portal : String) → List String
logout_args target_iqn portal = node_args target_iqn portal ++ "-u" ∷ []

abbrev pub delete_node_args : (target_iqn : String) → List String
delete_node_args target_iqn = "-m" ∷ "node" ∷ "-T" ∷ target_iqn ∷ "-o" ∷ "delete" ∷ []

module _ {S : Type 0} (m : Machine S) where
  -- `ShowInterface`
  unfoldable pub show_interface : (iface : String) → MachineExec S CommandResult
  unfolding iscsi_cmd
  show_interface iface = iscsi_cmd m ("-m" ∷ "iface" ∷ "-o" ∷ "show" ∷ "-I" ∷ iface ∷ [])

  -- `DeleteIFace`, whose error is not looked at
  unfoldable pub delete_iface : (iface : String) → MachineExec S CommandResult
  unfolding iscsi_cmd
  delete_iface iface = iscsi_cmd m ("-m" ∷ "iface" ∷ "-I" ∷ iface ∷ "-o" ∷ "delete" ∷ [])

  -- `createCHAPEntries`
  unfoldable pub create_chap_entries :
      (base_args : List String) → Secrets → (discovery : Bool) → MachineExec S String
  unfolding iscsi_cmd
  create_chap_entries base_args secrets discovery =
      iscsi_cmd m (base_args ++ chap_args (chap_prefix discovery) secrets) >>= need

  -- `if secrets.SecretsType == "chap" { createCHAPEntries(…) }`
  unfoldable pub chap_if_set :
      (base_args : List String) → Secrets → (discovery : Bool) → MachineExec S String
  unfolding create_chap_entries
  chap_if_set base_args secrets discovery =
      if secrets.secrets_type == "chap"
      then create_chap_entries base_args secrets discovery
      else pure ""

  -- `CreateDBEntry`
  unfoldable pub create_db_entry :
      (target_iqn portal iface : String)
      → (discovery_secrets session_secrets : Secrets) → MachineExec S String
  unfolding iscsi_cmd chap_if_set
  create_db_entry target_iqn portal iface discovery_secrets session_secrets = do
    let base_args = node_args target_iqn portal
    iscsi_cmd m (base_args ++ "-I" ∷ iface ∷ "-o" ∷ "new" ∷ []) >>= need
    chap_if_set base_args discovery_secrets true
    chap_if_set base_args session_secrets false

  -- The record of a discovery that failed is deleted.
  discovered : (base_args : List String) → CommandResult → MachineExec S (Unit {0})
  unfolding iscsi_cmd
  discovered base_args result = elim result.error [
    | none ↦ pure tt
    | some e ↦ iscsi_cmd m (base_args ++ "-o" ∷ "delete" ∷ []) >> fail unknown
  ]

  -- `Discoverydb`
  unfoldable pub discoverydb :
      (portal iface : String) → Secrets → (chap_discovery : Bool) → MachineExec S (Unit {0})
  unfolding iscsi_cmd create_chap_entries discovered
  discoverydb portal iface discovery_secrets chap_discovery = do
    let base_args = "-m" ∷ "discoverydb" ∷ "-t" ∷ "sendtargets" ∷ "-p" ∷ portal ∷ "-I" ∷ iface ∷ []
    iscsi_cmd m (base_args ++ "-o" ∷ "new" ∷ []) >>= need
    if chap_discovery then create_chap_entries base_args discovery_secrets true else pure ""
    iscsi_cmd m (base_args ++ "--discover" ∷ []) >>= discovered base_args

  -- `GetSessions`
  unfoldable pub get_sessions : MachineExec S CommandResult
  unfolding iscsi_cmd
  get_sessions = iscsi_cmd m ("-m" ∷ "session" ∷ [])

  -- `Login`; the record of a node that cannot be logged in to is deleted.
  unfoldable pub login : (target_iqn portal : String) → MachineExec S (Unit {0})
  unfolding iscsi_cmd discovered
  login target_iqn portal =
      iscsi_cmd m (node_args target_iqn portal ++ "-l" ∷ [])
      >>= discovered (node_args target_iqn portal)

  -- `Logout`
  unfoldable pub logout : (target_iqn portal : String) → MachineExec S (Unit {0})
  unfolding iscsi_cmd is_iscsi_already_absent
  logout target_iqn portal =
      iscsi_cmd m (logout_args target_iqn portal) >>= unless_absent is_iscsi_already_absent

  -- `DeleteDBEntry`
  unfoldable pub delete_db_entry : (target_iqn : String) → MachineExec S (Unit {0})
  unfolding iscsi_cmd is_iscsi_node_db_entry_already_absent
  delete_db_entry target_iqn =
      iscsi_cmd m (delete_node_args target_iqn)
      >>= unless_absent is_iscsi_node_db_entry_already_absent
