-- ===== src/Election/Settings.antt =====
-- What the settings of the leader election keep (pkg/iscsi/leader_election.go).
use csi_driver_for_windows_s.Prelude.{
  ◌≡◌, refl, with_error, ap, ◌∙◌, Bool-cases, inl, inr, false, ◌||◌, String, ◌==◌, ℤ, pos, ◌<ℤ◌,
  leb_ℤ, ok, arith, reject_if-eq-ok, >>=-eq-ok, ok_eq,
}
use csi_driver_for_windows_s.Text.{trim_space}
use csi_driver_for_windows_s.Text.Trim.{trim_space_idem}
use mathlib.Core.Path.{subst}
use csi_driver_for_windows_s.Driver.{Driver}
use csi_driver_for_windows_s.Election.{
  no_hostname, default_lease_duration, default_renew_deadline, default_retry_period, checked,
  with_settings, trimmed_or, or_default, durations_not_positive, lease_not_longer,
  namespace_required, identity_required, LeaderElectionConfig, Surroundings, check_durations,
  with_defaults, election_identity,
}

-- The durations are as the leader election of client-go wants them: 0 < retry < renew < lease.
pub record AreOrdered (config : LeaderElectionConfig) : Type 0 where
  pub some_time : pos 0 <ℤ config.retry_period
  pub retry_first : config.retry_period <ℤ config.renew_deadline
  pub renew_first : config.renew_deadline <ℤ config.lease_duration

pub record IsUsable (config : LeaderElectionConfig) : Type 0 where
  pub namespace : (config.lease_namespace == "") ≡ false
  pub identified : (config.identity == "") ≡ false
  pub durations : AreOrdered config

check_durations-ordered :
    (lease renew retry : ℤ)
    → check_durations lease renew retry ≡ ok tt
    → (pos 0 <ℤ retry) × (retry <ℤ renew) × (renew <ℤ lease)
unfolding check_durations
check_durations-ordered lease renew retry h =
    let (positive, h1) =
      reject_if-eq-ok (leb_ℤ lease (pos 0) || leb_ℤ renew (pos 0) || leb_ℤ retry (pos 0))
        durations_not_positive _ h in
    let (longer, h2) = reject_if-eq-ok (leb_ℤ lease renew) lease_not_longer _ h1 in ground arith

checked-AreOrdered :
    (full config : LeaderElectionConfig)
    → checked full ≡ ok config
    → (full ≡ config) × AreOrdered full
checked-AreOrdered full config h =
    let (done, passed, answered) =
      >>=-eq-ok (check_durations full.lease_duration full.renew_deadline full.retry_period) _ h in
    let (some_time, retry_first, renew_first) = check_durations-ordered _ _ _ passed in
    (
      ok_eq answered,
      record { some_time = some_time; retry_first = retry_first; renew_first = renew_first },
    )

renew_some_time :
    (config : LeaderElectionConfig) → AreOrdered config → pos 0 <ℤ config.renew_deadline
renew_some_time config o = ground arith

lease_some_time :
    (config : LeaderElectionConfig) → AreOrdered config → pos 0 <ℤ config.lease_duration
lease_some_time config o = ground arith

trimmed_or_fixed :
    (value fallback : String)
    → trim_space value ≡ value
    → (value == "") ≡ false
    → trimmed_or value fallback ≡ value
trimmed_or_fixed value fallback t e = rw (t, e) refl

or_default_fixed : (value fallback : ℤ) → pos 0 <ℤ value → or_default value fallback ≡ value
or_default_fixed value fallback h = ground arith

ordered-checked : (config : LeaderElectionConfig) → AreOrdered config → checked config ≡ ok config
unfolding check_durations
ordered-checked config o = ground arith

-- The steps of a call of `withDefaults` that accepts the settings.
record IsAccepted (config : LeaderElectionConfig) (d : Driver) (around : Surroundings)
    (full : LeaderElectionConfig) : Type 0 where
  pub found : String
  pub answer : election_identity config around ≡ ok found
  pub same :
      with_settings config d
        (trimmed_or config.lease_namespace (trim_space around.pod_namespace))
        found
      ≡ full
  pub usable : IsUsable (
      with_settings config d
        (trimmed_or config.lease_namespace (trim_space around.pod_namespace))
        found)

with_defaults-IsAccepted :
    (config : LeaderElectionConfig) (d : Driver) (around : Surroundings)
    (full : LeaderElectionConfig)
    → with_defaults config d around ≡ ok full
    → IsAccepted config d around full
unfolding with_defaults
with_defaults-IsAccepted config d around full h =
    let namespace = trimmed_or config.lease_namespace (trim_space around.pod_namespace) in
    let (n, h1) = reject_if-eq-ok (namespace == "") namespace_required _ h in
    let (identity, e, h2) = >>=-eq-ok (election_identity config around) _ h1 in
    let (i, h3) = reject_if-eq-ok (identity == "") identity_required _ h2 in
    let (same, ordered) = checked-AreOrdered (with_settings config d namespace identity) full h3 in
    record {
      found = identity;
      answer = e;
      same = same;
      usable = record { namespace = n; identified = i; durations = ordered };
    }

-- Settings that `withDefaults` accepts name a namespace and an identity, and their durations are positive,
-- the retry period below the renew deadline and the deadline below the lease duration.
pub with_defaults-IsUsable :
    (config : LeaderElectionConfig) (d : Driver) (around : Surroundings)
    (full : LeaderElectionConfig)
    → with_defaults config d around ≡ ok full
    → IsUsable full
with_defaults-IsUsable config d around full h =
    let accepted = with_defaults-IsAccepted config d around full h in
    subst IsUsable accepted.same accepted.usable

election_identity_fixed :
    (config : LeaderElectionConfig) (around : Surroundings)
    → trim_space config.identity ≡ config.identity
    → (config.identity == "") ≡ false
    → election_identity config around ≡ ok config.identity
unfolding election_identity
election_identity_fixed config around t e =
    rw (trimmed_or_fixed config.identity (trim_space around.pod_name) t e) (rw e refl)

with_settings_fixed :
    (config : LeaderElectionConfig) (d : Driver)
    → trim_space config.lease_name ≡ config.lease_name
    → (config.lease_name == "") ≡ false
    → AreOrdered config
    → with_settings config d config.lease_namespace config.identity ≡ config
with_settings_fixed config d t e o =
    rw
      (
        trimmed_or_fixed config.lease_name d.name t e,
        or_default_fixed config.lease_duration default_lease_duration (lease_some_time config o),
        or_default_fixed config.renew_deadline default_renew_deadline (renew_some_time config o),
        or_default_fixed config.retry_period default_retry_period o.some_time,
      )
      refl

-- Settings that are usable, whose texts are trimmed and that name their lease, are left as they are.
pub with_defaults_fixed :
    (config : LeaderElectionConfig) (d : Driver) (around : Surroundings)
    → IsUsable config
    → (config.lease_name == "") ≡ false
    → trim_space config.lease_name ≡ config.lease_name
    → trim_space config.lease_namespace ≡ config.lease_namespace
    → trim_space config.identity ≡ config.identity
    → with_defaults config d around ≡ ok config
unfolding with_defaults
with_defaults_fixed config d around u l t1 t2 t3 =
    rw
      (
        trimmed_or_fixed config.lease_namespace (trim_space around.pod_namespace) t2 u.namespace,
        u.namespace,
        election_identity_fixed config around t3 u.identified,
        u.identified,
      )
      (ap checked (with_settings_fixed config d t1 l u.durations)
        ∙ ordered-checked config u.durations)

trimmed_or_trimmed :
    (value fallback : String)
    → trim_space fallback ≡ fallback
    → trim_space (trimmed_or value fallback) ≡ trimmed_or value fallback
trimmed_or_trimmed value fallback t = elim (Bool-cases (trim_space value == "")) [
  | inl h ↦ rw h t
  | inr h ↦ rw h (trim_space_idem value)
]

trimmed_or_named :
    (value fallback : String) → (fallback == "") ≡ false → (trimmed_or value fallback == "") ≡ false
trimmed_or_named value fallback n = elim (Bool-cases (trim_space value == "")) [
  | inl h ↦ rw h n
  | inr h ↦ rw h h
]

election_identity-trimmed :
    (config : LeaderElectionConfig) (around : Surroundings) (identity : String)
    → election_identity config around ≡ ok identity
    → trim_space identity ≡ identity
unfolding election_identity
election_identity-trimmed config around identity h =
    elim (Bool-cases (trimmed_or config.identity (trim_space around.pod_name) == "")) [
      | inl e ↦
          let (name, known, answer) =
            >>=-eq-ok (with_error no_hostname around.hostname) _ (rw e at h) in
          subst (λ s. trim_space s ≡ s) (ok_eq answer) (trim_space_idem name)
      | inr e ↦
          subst (λ s. trim_space s ≡ s) (ok_eq (rw e at h))
            (trimmed_or_trimmed config.identity (trim_space around.pod_name)
              (trim_space_idem around.pod_name))
    ]

-- What `withDefaults` gives is not changed by a second `withDefaults`, if the driver has a name without
-- spaces around it.
pub with_defaults_idem :
    (config : LeaderElectionConfig) (d : Driver) (around : Surroundings)
    (full : LeaderElectionConfig)
    → trim_space d.name ≡ d.name
    → (d.name == "") ≡ false
    → with_defaults config d around ≡ ok full
    → with_defaults full d around ≡ ok full
with_defaults_idem config d around full t n h =
    let accepted = with_defaults-IsAccepted config d around full h in
    let pod = trim_space around.pod_namespace in
    subst (λ c. with_defaults c d around ≡ ok c) accepted.same
      (with_defaults_fixed _ d around accepted.usable (trimmed_or_named config.lease_name d.name n)
        (trimmed_or_trimmed config.lease_name d.name t)
        (trimmed_or_trimmed config.lease_namespace pod (trim_space_idem around.pod_namespace))
        (election_identity-trimmed config around accepted.found accepted.answer))
