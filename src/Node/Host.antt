-- ===== src/Node/Host.antt =====
-- What the node service asks of its host: files, mounts, commands and the iSCSI initiator. The Go code
-- reaches these through package `os`, k8s.io/mount-utils and function variables.
use csi_driver_for_windows_s.Prelude.{
  ℕ, Bool, false, not, some, none, ◌≤◌, ◌+◌, String, List, Option, Result, ok, err, ℤ,
}
use csi_driver_for_windows_s.Exec.{Exec, internal, pure, fail, ◌▷◌, ◌>>=◌}
use csi_driver_for_windows_s.Iscsilib.{Connector}

-- An error, as far as the code looks at it: `os.IsNotExist`, `errors.Is(err, os.ErrNotExist)`, its text.
pub record HostError : Type 0 where
  pub not_exist : Bool
  pub wraps_not_exist : Bool
  pub text : String

-- The results of `IsLikelyNotMountPoint`: the code reads the first also if there is an error.
pub record MountPoint : Type 0 where
  pub not_mounted : Bool
  pub error : Option HostError

-- A connector after a connection: `Connect` sets its devices.
pub record Connected : Type 0 where
  pub device : String
  pub connector : Connector

-- The results of `fsUsage`.
pub record FsUsage : Type 0 where
  pub available : ℤ
  pub capacity : ℤ
  pub used : ℤ
  pub inodes : ℤ
  pub inodes_free : ℤ
  pub inodes_used : ℤ

pub data HostCall : Type 0 where
  stat make_dir_all create_file create_new_file : (path : String) → HostCall
  sync_file close_file remove_file read_file : (path : String) → HostCall
  write_file : (path text : String) → HostCall
  is_likely_not_mount_point unmount cleanup_mount_point : (path : String) → HostCall
  mount : (source target fs_type : String) (options : List String) → HostCall
  mount_sensitive : (source target fs_type : String) (options sensitive : List String) → HostCall
  format_and_mount : (source target fs_type : String) (options : List String) → HostCall
  format_and_mount_sensitive :
      (source target fs_type : String) (options sensitive : List String) → HostCall
  connect disconnect_volume disconnect : Connector → HostCall
  persist : Connector → (path : String) → HostCall
  get_connector_from_file : (path : String) → HostCall
  run_command : (arguments : List String) → HostCall
  fs_usage : (path : String) → HostCall
  expand_filesystem : (path : String) → HostCall

-- `stat` tells whether the path is a device.
abbrev pub HostReply : HostCall → Type 0
HostReply (stat _) = Bool
HostReply (read_file _) = String
HostReply (is_likely_not_mount_point _) = MountPoint
HostReply (connect _) = Connected
HostReply (get_connector_from_file _) = Connector
HostReply (run_command _) = String
HostReply (fs_usage _) = FsUsage
HostReply _ = Unit

-- A host over a state of its own, with a clock in nanoseconds.
pub record Host (S : Type 0) : Type 0 where
  pub perform : (c : HostCall) → S → Result HostError (HostReply c) × S
  pub now : S → ℕ
  pub sleep : ℕ → S → S

-- What package `time` promises: the clock does not run backwards, and `Sleep` lasts as long as it says.
pub record HasClock {S : Type 0} (h : Host S) : Type 0 where
  pub forward : (c : HostCall) (s : S) → h.now s ≤ h.now (h.perform c s).1
  pub sleeps : (n : ℕ) (s : S) → h.now s + n ≤ h.now (h.sleep n s)

-- A handler of the node service.
abbrev pub NodeExec : Type 0 → Type 0 → Type 0
NodeExec S A = Exec HostCall S A

abbrev pub on_reply :
    {S A B : Type 0}
    → Result HostError A
    → (A → NodeExec S B)
    → (HostError → NodeExec S B)
    → NodeExec S B
on_reply (ok a) good bad = good a
on_reply (err e) good bad = bad e

module _ {S : Type 0} (h : Host S) where
  -- A call whose error the handler reads.
  unfoldable pub try_call : (c : HostCall) → NodeExec S (Result HostError (HostReply c))
  try_call c w =
      let (r, s) = h.perform c w.state in (ok r, record { state = s; trace = w.trace ▷ c })

  -- A call, and what the code does with its result or with its error.
  abbrev pub with_reply :
      {B : Type 0} (c : HostCall)
      → (HostReply c → NodeExec S B)
      → (HostError → NodeExec S B)
      → NodeExec S B
  with_reply c good bad = try_call c >>= λ r. on_reply r good bad

  -- `if err != nil { return nil, status.Errorf(codes.Internal, …) }` behind a call.
  unfoldable pub make_call : (c : HostCall) → NodeExec S (HostReply c)
  unfolding try_call
  make_call c = with_reply c pure (λ _. fail internal)

  -- `time.Now()`
  unfoldable pub read_clock : NodeExec S ℕ
  read_clock w = (ok (h.now w.state), w)

  -- `time.Sleep(…)`
  unfoldable pub pause : ℕ → NodeExec S (Unit {0})
  pause n w = (ok tt, record w { state = h.sleep n w.state })

-- `err != nil && !os.IsNotExist(err)`
abbrev pub is_failure : Option HostError → Bool
is_failure (some e) = not e.not_exist
is_failure none = false
