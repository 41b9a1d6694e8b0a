-- ===== src/Examples/Elections.antt =====
-- Examples of the settings of the leader election.
use csi_driver_for_windows_s.Prelude.{◌≡◌, refl, true, none, pos, ok}
use csi_driver_for_windows_s.Text.{trim_space}
use csi_driver_for_windows_s.Election.{
  LeaderElectionConfig, Surroundings, election_identity, check_durations, with_defaults,
}
use csi_driver_for_windows_s.Election.Settings.{IsUsable, with_defaults-IsUsable}
use csi_driver_for_windows_s.Examples.{example_driver}

abbrev unset_config : LeaderElectionConfig
unset_config = record {
  enabled = true;
  lease_name = "";
  lease_namespace = " ";
  identity = "";
  lease_duration = pos 0;
  renew_deadline = pos 0;
  retry_period = pos 0;
}

abbrev in_pod : Surroundings
in_pod = record { pod_namespace = "storage"; pod_name = "csi-0\n"; hostname = none }

abbrev full_config : LeaderElectionConfig
full_config = record {
  enabled = true;
  lease_name = "windows-storage.csi.windows.microsoft.com";
  lease_namespace = "storage";
  identity = "csi-0";
  lease_duration = pos 15000000000;
  renew_deadline = pos 10000000000;
  retry_period = pos 2000000000;
}

unset_config-with_defaults : with_defaults unset_config example_driver in_pod ≡ ok full_config
unfolding with_defaults trim_space election_identity check_durations example_driver
unset_config-with_defaults = refl

with_defaults-IsUsable_example : IsUsable full_config
with_defaults-IsUsable_example =
    with_defaults-IsUsable unset_config example_driver in_pod full_config unset_config-with_defaults
