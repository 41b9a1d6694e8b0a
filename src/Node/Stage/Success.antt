-- ===== src/Node/Stage/Success.antt =====
-- How `NodeStageVolume` stages an iSCSI volume, and how it takes a connection back
-- (pkg/iscsi/nodeserver.go).
use csi_driver_for_windows_s.Prelude.{
  ◌≡◌, refl, sym, ap, ◌∙◌, false, String, ◌==◌, List, [], ◌∷◌, ◌++◌, Result, ok, err, if◌then◌else◌,
  some, with_error,
}
use mathlib.Core.List.{append_assoc}
use csi_driver_for_windows_s.Exec.{
  Code, invalid_argument, lift, World, internal, ◌▷◌, stop_if, ◌>>◌, ◌>>=◌,
}
use csi_driver_for_windows_s.Node.Stage.Secrets.{mount_staged-HidesSecrets}
use csi_driver_for_windows_s.Node.Options.Secrets.{HidesSecrets}
use csi_driver_for_windows_s.Node.Traces.{MakesOnly-make_call}
use csi_driver_for_windows_s.Exec.Success.{>>=-ok, stop_if-ok, stop_if-false}
use csi_driver_for_windows_s.Exec.Trace.{MakesOnly, MakesOnly-if}
use csi_driver_for_windows_s.Filepath.{dir}
use csi_driver_for_windows_s.Iscsilib.{Connector}
use csi_driver_for_windows_s.Node.Host.{
  Host, HostCall, HostError, Connected, NodeExec, try_call, make_call, make_dir_all, connect,
  persist, disconnect, disconnect_volume,
}
use csi_driver_for_windows_s.Node.Options.{Access}
use csi_driver_for_windows_s.Node.Connectors.{stage_connector_file}
use csi_driver_for_windows_s.Node.Requests.{NodeStageVolumeRequest, StageParameters, parse_stage}
use csi_driver_for_windows_s.Node.Contexts.{publish_protocol}
use csi_driver_for_windows_s.VolumeId.{UrlPackage}
use csi_driver_for_windows_s.Driver.{is_file_share}
use mathlib.Core.Path.{subst}
use csi_driver_for_windows_s.Node.Stage.{
  node_stage_volume, stage_file_share_volume, is_block, connector_for, connected, keep_connector,
  mount_staged, stage_iscsi,
}
use csi_driver_for_windows_s.Node.Stage.Steps.{after, make_call-ok, connected-ok, keep_connector-ok}

-- The iSCSI volume of a request was connected, and its connector was kept, before anything else.
pub record IsStaged {S : Type 0} (h : Host S) (conn : Connector) (file : String)
    (w w' : World HostCall S) : Type 0 where
  pub done : Connected
  pub replied : (h.perform (connect conn) w.state).0 ≡ ok done
  pub has_device : (done.device == "") ≡ false
  pub made : (h.perform (make_dir_all (dir file)) (after h (connect conn) w).state).0 ≡ ok tt
  pub kept :
      (h.perform
        (persist done.connector file)
        (after h (make_dir_all (dir file)) (after h (connect conn) w)).state).0
      ≡ ok tt
  pub later : List HostCall
  pub calls :
      w'.trace
      ≡ w.trace ++ connect conn ∷ make_dir_all (dir file) ∷ persist done.connector file ∷ later

-- The volume is connected, but its connector cannot be written to the file.
pub record CannotKeep {S : Type 0} (h : Host S) (conn : Connector) (file : String)
    (w : World HostCall S) : Type 0 where
  pub done : Connected
  pub replied : (h.perform (connect conn) w.state).0 ≡ ok done
  pub has_device : (done.device == "") ≡ false
  pub made : (h.perform (make_dir_all (dir file)) (after h (connect conn) w).state).0 ≡ ok tt
  pub error : HostError
  pub not_kept :
      (h.perform
        (persist done.connector file)
        (after h (make_dir_all (dir file)) (after h (connect conn) w)).state).0
      ≡ err error

-- All calls of a handler that takes a connection back.
pub record TakesBack {S : Type 0} (conn : Connector) (file : String) (made : Connector)
    (w : World HostCall S) (r : Result Code (Unit {0}) × World HostCall S) : Type 0 where
  pub fails : r.0 ≡ err internal
  pub calls :
      r.1.trace
      ≡ w.trace
        ++ connect conn
          ∷ make_dir_all (dir file)
          ∷ persist made file
          ∷ disconnect_volume made
          ∷ disconnect made
          ∷ []

module _ {S : Type 0} (h : Host S) (req : NodeStageVolumeRequest) (capability : Access)
    (p : StageParameters) where
  -- What follows when the connector is kept.
  mount_part : Connected → NodeExec S (Unit {0})
  mount_part done =
      if is_block capability
      then make_call h (make_dir_all req.staging_target_path)
      else mount_staged h req.staging_target_path p done.device

  mount_part-MakesOnly : (done : Connected) → MakesOnly HidesSecrets (mount_part done)
  unfolding mount_part HidesSecrets
  mount_part-MakesOnly done =
      MakesOnly-if (is_block capability)
        (λ _. MakesOnly-make_call h HidesSecrets (make_dir_all req.staging_target_path) tt)
        (λ _. mount_staged-HidesSecrets h req.staging_target_path p done.device)

  stage_iscsi-IsStaged :
      (w : World HostCall S)
      → (stage_iscsi h req capability p w).0 ≡ ok tt
      → IsStaged h
          (connector_for req p)
          (stage_connector_file req.staging_target_path)
          w
          (stage_iscsi h req capability p w).1
  unfolding stage_iscsi mount_part
  stage_iscsi-IsStaged w e =
      let file = stage_connector_file req.staging_target_path in
      let made = make_call h (make_dir_all (dir file)) in
      let keep : Connected → NodeExec S (Unit {0}) = λ done. keep_connector h done.connector file in
      let (done, r1, e1) =
        >>=-ok (connected h (connector_for req p)) (λ d. made >>= λ _. keep d >>= λ _. mount_part d)
          w e in
      let (replied, n, m1) = connected-ok h (connector_for req p) w done r1 in
      let w1 = (connected h (connector_for req p) w).1 in
      let (_, r2, e2) =
        >>=-ok made (λ _. keep done >>= λ _. mount_part done) w1 (sym (ap (λ x. x.0) e1) ∙ e) in
      let (made_dir, m2) = make_call-ok h (make_dir_all (dir file)) w1 r2 in
      let w2 = (made w1).1 in
      let (_, r3, e3) =
        >>=-ok (keep done) (λ _. mount_part done) w2 (sym (ap (λ x. x.0) (e1 ∙ e2)) ∙ e) in
      let (persisted, m3) = keep_connector-ok h done.connector file w2 r3 in
      let (later, t, _) = (mount_part-MakesOnly done).at (keep done w2).1 in
      record {
        done = done;
        replied = replied;
        has_device = n;
        made =
            subst
              (λ (x : World HostCall S). (h.perform (make_dir_all (dir file)) x.state).0 ≡ ok tt) m1
              made_dir;
        kept =
            subst
              (λ (x : World HostCall S).
                (h.perform (persist done.connector file) x.state).0 ≡ ok tt)
              (m2 ∙ ap (after h (make_dir_all (dir file))) m1) persisted;
        later = later;
        calls =
            ap (λ x. x.1.trace) (e1 ∙ e2 ∙ e3)
            ∙ t
            ∙ ap (λ x. x.trace ++ later) m3
            ∙ ap (λ x. (x.trace ▷ persist done.connector file) ++ later) m2
            ∙ ap (λ x. ((x.trace ▷ make_dir_all (dir file)) ▷ persist done.connector file) ++ later)
                m1
            ∙ simp append_assoc;
      }

  -- The connection is taken back where the connector cannot be kept.
  stage_iscsi_taken_back :
      (w : World HostCall S)
      (failed : CannotKeep h (connector_for req p) (stage_connector_file req.staging_target_path) w)
      → TakesBack
          (connector_for req p)
          (stage_connector_file req.staging_target_path)
          failed.done.connector
          w
          (stage_iscsi h req capability p w)
  unfolding stage_iscsi connected make_call keep_connector try_call
  stage_iscsi_taken_back w f =
      rw (f.replied, f.has_device, f.made, f.not_kept)
        (record { fails = refl; calls = simp append_assoc })

module _ {S : Type 0} (h : Host S) (u : UrlPackage) (req : NodeStageVolumeRequest)
    (capability : Access) (p : StageParameters) (given : req.capability ≡ some capability)
    (is_iscsi : is_file_share
        (publish_protocol req.publish_context req.volume_context req.volume_id)
      ≡ false)
    (parsed : parse_stage u req capability ≡ ok p) where
  -- What follows the first two tests.
  behind_tests : NodeExec S (Unit {0})
  behind_tests = lift (with_error invalid_argument req.capability) >>= λ c.
      if is_file_share (publish_protocol req.publish_context req.volume_context req.volume_id)
      then stage_file_share_volume h u req c
          (publish_protocol req.publish_context req.volume_context req.volume_id)
      else (lift (parse_stage u req c) >>= λ q. stage_iscsi h req c q)

  behind_tests-iscsi : (w : World HostCall S) → behind_tests w ≡ stage_iscsi h req capability p w
  unfolding behind_tests
  behind_tests-iscsi w =
      let proto = publish_protocol req.publish_context req.volume_context req.volume_id in
      let staged : Access → NodeExec S (Unit {0}) =
        λ c. lift (parse_stage u req c) >>= λ q. stage_iscsi h req c q in
      ap
        (λ o.
          (lift (with_error invalid_argument o) >>= λ c.
          if is_file_share proto then stage_file_share_volume h u req c proto else staged c)
            w)
        given
      ∙ ap
          (λ t.
            (if t then stage_file_share_volume h u req capability proto else staged capability) w)
          is_iscsi
      ∙ ap (λ r. (lift r >>= λ q. stage_iscsi h req capability q) w) parsed

  -- A `NodeStageVolume` of an iSCSI volume that succeeds has first connected the volume and got a device
  -- for it, then made the directory of the file beside the staging path and kept the connector there, all
  -- without an error; its other calls come after these.
  pub node_stage_volume-IsStaged :
      (w : World HostCall S)
      → (node_stage_volume h u req w).0 ≡ ok tt
      → IsStaged h
          (connector_for req p)
          (stage_connector_file req.staging_target_path)
          w
          (node_stage_volume h u req w).1
  unfolding node_stage_volume behind_tests
  node_stage_volume-IsStaged w e =
      let (_, e1) =
        stop_if-ok (req.volume_id == "") invalid_argument
          (stop_if (req.staging_target_path == "") invalid_argument >> behind_tests) w e in
      let (_, e2) =
        stop_if-ok (req.staging_target_path == "") invalid_argument behind_tests w
          (sym (ap (λ x. x.0) e1) ∙ e) in
      let same : node_stage_volume h u req w ≡ stage_iscsi h req capability p w =
        e1 ∙ e2 ∙ behind_tests-iscsi w in
      subst
        (λ (r : Result Code (Unit {0}) × World HostCall S).
          IsStaged h (connector_for req p) (stage_connector_file req.staging_target_path) w r.1)
        (sym same) (stage_iscsi-IsStaged h req capability p w (sym (ap (λ x. x.0) same) ∙ e))

  -- Where the connector of an iSCSI volume cannot be kept, `NodeStageVolume` removes the device and
  -- closes the session again, mounts nothing, and fails with an internal error.
  pub node_stage_volume-TakesBack :
      (w : World HostCall S)
      → (req.volume_id == "") ≡ false
      → (req.staging_target_path == "") ≡ false
      → (failed : CannotKeep h
          (connector_for req p)
          (stage_connector_file req.staging_target_path)
          w)
      → TakesBack
          (connector_for req p)
          (stage_connector_file req.staging_target_path)
          failed.done.connector
          w
          (node_stage_volume h u req w)
  unfolding node_stage_volume behind_tests
  node_stage_volume-TakesBack w named staged failed =
      let same : node_stage_volume h u req w ≡ stage_iscsi h req capability p w =
        stop_if-false (req.volume_id == "") invalid_argument
          (stop_if (req.staging_target_path == "") invalid_argument >> behind_tests) w named
        ∙ stop_if-false (req.staging_target_path == "") invalid_argument behind_tests w staged
        ∙ behind_tests-iscsi w in
      subst
        (TakesBack (connector_for req p) (stage_connector_file req.staging_target_path)
          failed.done.connector w)
        (sym same) (stage_iscsi_taken_back h req capability p w failed)
