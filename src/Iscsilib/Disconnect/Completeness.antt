-- ===== src/Iscsilib/Disconnect/Completeness.antt =====
-- `Disconnect` of pkg/iscsilib/iscsi.go: the commands that it runs
use mathlib.Core.List.{append_assoc}
use csi_driver_for_windows_s.Prelude.{
  ◌≡◌, refl, ap, ◌∙◌, Bool, true, false, String, ◌==◌, Option, none, some, List, [], ◌∷◌, ◌++◌,
  Bool-cases, inl, inr, if◌then◌else◌,
}
use csi_driver_for_windows_s.Text.{trim_space}
use csi_driver_for_windows_s.Exec.{World, unknown, stop_if, ignoring, ◌▷◌}
use csi_driver_for_windows_s.Iscsilib.Commands.{
  CommandError, Machine, MachineCall, run_limited, ask, iscsi_cmd,
}
use csi_driver_for_windows_s.Iscsilib.Admin.{
  logout_args, delete_node_args, unless_absent, logout, delete_db_entry, is_iscsi_already_absent,
  is_iscsi_node_db_entry_already_absent,
}
use csi_driver_for_windows_s.Iscsilib.Disconnect.{disconnect_from, disconnect_target}

-- The commands that take the sessions of a target away: a logout for each portal that is not blank, and
-- then the deletion of its record.
pub removals : (target_iqn : String) → List String → List MachineCall
removals target_iqn [] = run_limited "iscsiadm" (delete_node_args target_iqn) ∷ []
removals target_iqn (target ∷ targets) =
    let rest = removals target_iqn targets in
    if trim_space target == ""
    then rest
    else run_limited "iscsiadm" (logout_args target_iqn (trim_space target)) ∷ rest

module _ {S : Type 0} (w : World MachineCall S) where
  unless_absent-quiet :
      (is_absent : String → CommandError → Bool) (output : String) (error : Option CommandError)
      → (unless_absent {S = S} is_absent (record { output = output; error = error }) w).1 ≡ w
  unless_absent-quiet is_absent output none = refl
  unless_absent-quiet is_absent output (some e) = elim (Bool-cases (is_absent output e)) [
    | inl h ↦ rw h refl
    | inr h ↦ rw h refl
  ]

  stop_if-quiet : (t : Bool) → (stop_if {S = S} t unknown w).1 ≡ w
  stop_if-quiet true = refl
  stop_if-quiet false = refl

module _ {S : Type 0} (m : Machine S) (target_iqn : String) where
  logout-trace :
      (portal : String) (w : World MachineCall S)
      → (logout m target_iqn portal w).1.trace
        ≡ w.trace ▷ run_limited "iscsiadm" (logout_args target_iqn portal)
  unfolding logout iscsi_cmd ask
  logout-trace portal w =
      let result = (m.respond (run_limited "iscsiadm" (logout_args target_iqn portal)) w.state).0 in
      ap (λ x. x.trace)
        (unless_absent-quiet (iscsi_cmd m (logout_args target_iqn portal) w).1
          is_iscsi_already_absent result.output result.error)

  delete_db_entry-trace :
      (w : World MachineCall S)
      → (delete_db_entry m target_iqn w).1.trace
        ≡ w.trace ▷ run_limited "iscsiadm" (delete_node_args target_iqn)
  unfolding delete_db_entry iscsi_cmd ask
  delete_db_entry-trace w =
      let result = (m.respond (run_limited "iscsiadm" (delete_node_args target_iqn)) w.state).0 in
      ap (λ x. x.trace)
        (unless_absent-quiet (iscsi_cmd m (delete_node_args target_iqn) w).1
          is_iscsi_node_db_entry_already_absent result.output result.error)

  disconnect_from-removals :
      (targets : List String) (failed : Bool) (w : World MachineCall S)
      → (disconnect_from m target_iqn failed targets w).1.trace
        ≡ w.trace ++ removals target_iqn targets
  unfolding disconnect_from ignoring removals
  disconnect_from-removals [] failed w =
      ap (λ x. x.trace) (stop_if-quiet (delete_db_entry m target_iqn w).1 _)
      ∙ delete_db_entry-trace w
  disconnect_from-removals (target ∷ targets) failed w =
      elim (Bool-cases (trim_space target == "")) [
        | inl h ↦ rw h (disconnect_from-removals targets failed w)
        | inr h ↦ rw h (
            disconnect_from-removals targets _ (logout m target_iqn (trim_space target) w).1
            ∙ ap (λ t. t ++ removals target_iqn targets) (logout-trace (trim_space target) w)
            ∙ append_assoc w.trace
                (run_limited "iscsiadm" (logout_args target_iqn (trim_space target)) ∷ [])
                (removals target_iqn targets))
      ]

  -- Whatever the commands answer, `Disconnect` runs a logout for each portal that is not blank, in their
  -- order, and then deletes the record of the target: an error does not end it.
  pub disconnect_target-removals :
      (targets : List String) (w : World MachineCall S)
      → (disconnect_target m target_iqn targets w).1.trace ≡ w.trace ++ removals target_iqn targets
  unfolding disconnect_target
  disconnect_target-removals targets w = disconnect_from-removals targets false w
