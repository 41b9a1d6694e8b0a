-- ===== src/Election.antt =====
-- pkg/iscsi/leader_election.go: the settings of the leader election of the controllers
pub mod Settings
use csi_driver_for_windows_s.Prelude.{
  Bool, ◌||◌, String, ◌==◌, ℤ, pos, leb_ℤ, is_zero, Option, Result, ok, with_error, reject_if,
  if◌then◌else◌, ◌>>=◌, ◌>>◌,
}
use csi_driver_for_windows_s.Text.{trim_space}
use csi_driver_for_windows_s.Driver.{Driver}

-- `LeaderElectionConfig`; a duration counts nanoseconds.
pub record LeaderElectionConfig : Type 0 where
  pub enabled : Bool
  pub lease_name : String
  pub lease_namespace : String
  pub identity : String
  pub lease_duration : ℤ
  pub renew_deadline : ℤ
  pub retry_period : ℤ

-- What the process reads of its surroundings: two variables, empty if they are not set, and the
-- name of the host, if it can be had.
pub record Surroundings : Type 0 where
  pub pod_namespace : String
  pub pod_name : String
  pub hostname : Option String

pub data ElectionError : Type 0 where
  namespace_required no_hostname identity_required : ElectionError
  durations_not_positive lease_not_longer renew_not_longer : ElectionError

abbrev pub default_lease_duration : ℤ
default_lease_duration = pos 15000000000

abbrev pub default_renew_deadline : ℤ
default_renew_deadline = pos 10000000000

abbrev pub default_retry_period : ℤ
default_retry_period = pos 2000000000

abbrev pub trimmed_or : String → String → String
trimmed_or value fallback =
    let trimmed = trim_space value in if trimmed == "" then fallback else trimmed

abbrev pub or_default : ℤ → ℤ → ℤ
or_default value fallback = if is_zero value then fallback else value

-- The identity: what is set, else the name of the pod, else the name of the host.
unfoldable pub election_identity : LeaderElectionConfig → Surroundings → Result ElectionError String
election_identity config around =
    let known = trimmed_or config.identity (trim_space around.pod_name) in
    let asked = with_error no_hostname around.hostname >>= λ name. ok (trim_space name) in
    if known == "" then asked else ok known

-- The three checks of the durations, in their order.
unfoldable pub check_durations : ℤ → ℤ → ℤ → Result ElectionError (Unit {0})
check_durations lease renew retry =
    reject_if (leb_ℤ lease (pos 0) || leb_ℤ renew (pos 0) || leb_ℤ retry (pos 0))
      durations_not_positive
    >> (reject_if (leb_ℤ lease renew) lease_not_longer
        >> reject_if (leb_ℤ renew retry) renew_not_longer)

abbrev pub with_settings : LeaderElectionConfig → Driver → String → String → LeaderElectionConfig
with_settings config d namespace identity = record {
  enabled = config.enabled;
  lease_name = trimmed_or config.lease_name d.name;
  lease_namespace = namespace;
  identity = identity;
  lease_duration = or_default config.lease_duration default_lease_duration;
  renew_deadline = or_default config.renew_deadline default_renew_deadline;
  retry_period = or_default config.retry_period default_retry_period;
}

abbrev pub checked : LeaderElectionConfig → Result ElectionError LeaderElectionConfig
checked full = check_durations full.lease_duration full.renew_deadline full.retry_period >> ok full

-- `withDefaults`
unfoldable pub with_defaults :
    LeaderElectionConfig → Driver → Surroundings → Result ElectionError LeaderElectionConfig
with_defaults config d around =
    let namespace = trimmed_or config.lease_namespace (trim_space around.pod_namespace) in
    reject_if (namespace == "") namespace_required
    >> (election_identity config around >>= λ identity.
        reject_if (identity == "") identity_required
        >> checked (with_settings config d namespace identity))
