-- ===== src/Node/Stage/Steps.antt =====
-- What the successful steps of staging an iSCSI volume did (pkg/iscsi/nodeserver.go).
use csi_driver_for_windows_s.Prelude.{
  ◌≡◌, refl, sym, ap, ◌∙◌, false, String, ◌==◌, Result, ok, err, ok_eq,
}
use csi_driver_for_windows_s.Exec.{World, internal, pure, fail, ◌▷◌, stop_if, ◌>>◌}
use csi_driver_for_windows_s.Exec.Success.{>>=-ok, stop_if-ok}
use csi_driver_for_windows_s.Iscsilib.{Connector}
use csi_driver_for_windows_s.Node.Host.{
  Host, HostCall, HostReply, HostError, Connected, NodeExec, on_reply, try_call, make_call, connect,
  persist, disconnect, disconnect_volume,
}
use csi_driver_for_windows_s.Node.Stage.{connected, keep_connector}

module _ {S : Type 0} (h : Host S) where
  -- The world behind a call.
  abbrev pub after : HostCall → World HostCall S → World HostCall S
  after c w = record { state = (h.perform c w.state).1; trace = w.trace ▷ c }

  on_reply-internal :
      {A : Type 0} (r : Result HostError A) (w : World HostCall S) {a : A}
      → (on_reply r pure (λ _. fail internal) w).0 ≡ ok a
      → (r ≡ ok a) × ((on_reply r pure (λ _. fail internal) w).1 ≡ w)
  on_reply-internal (ok a) w e = (ap (λ x. x) (cc), refl)
  on_reply-internal (err x) w e = cc

  pub make_call-ok :
      (c : HostCall) (w : World HostCall S) {a : HostReply c}
      → (make_call h c w).0 ≡ ok a
      → ((h.perform c w.state).0 ≡ ok a) × ((make_call h c w).1 ≡ after c w)
  unfolding make_call try_call
  make_call-ok c w e = on_reply-internal (h.perform c w.state).0 (after c w) e

  pub connected-ok :
      (conn : Connector) (w : World HostCall S) (done : Connected)
      → (connected h conn w).0 ≡ ok done
      → ((h.perform (connect conn) w.state).0 ≡ ok done)
        × ((done.device == "") ≡ false)
        × ((connected h conn w).1 ≡ after (connect conn) w)
  unfolding connected
  connected-ok conn w done e =
      let rest : Connected → NodeExec S Connected =
        λ d. stop_if (d.device == "") internal >> pure d in
      let (d, r, e1) = >>=-ok (make_call h (connect conn)) rest w e in
      let (replied, moved) = make_call-ok (connect conn) w r in
      let (n, e2) =
        stop_if-ok (d.device == "") internal (pure d) (make_call h (connect conn) w).1
          (sym (ap (λ x. x.0) e1) ∙ e) in
      let same : d ≡ done = ok_eq (sym (ap (λ x. x.0) (e1 ∙ e2)) ∙ e) in
      (
        replied ∙ ap ok same,
        ap (λ x. x.device == "") (sym same) ∙ n,
        ap (λ x. x.1) (e1 ∙ e2) ∙ moved,
      )

  take_back : Connector → NodeExec S (Unit {0})
  take_back conn = do
    try_call h (disconnect_volume conn)
    try_call h (disconnect conn)
    fail internal

  kept_or_taken_back :
      (r : Result HostError (Unit {0})) (conn : Connector) (w : World HostCall S)
      → (on_reply r (λ _. pure tt) (λ _. take_back conn) w).0 ≡ ok tt
      → (r ≡ ok tt) × ((on_reply r (λ _. pure tt) (λ _. take_back conn) w).1 ≡ w)
  unfolding take_back try_call
  kept_or_taken_back (ok a) conn w e = (refl, refl)
  kept_or_taken_back (err x) conn w e = cc

  pub keep_connector-ok :
      (conn : Connector) (file : String) (w : World HostCall S)
      → (keep_connector h conn file w).0 ≡ ok tt
      → ((h.perform (persist conn file) w.state).0 ≡ ok tt)
        × ((keep_connector h conn file w).1 ≡ after (persist conn file) w)
  unfolding keep_connector try_call take_back
  keep_connector-ok conn file w e =
      kept_or_taken_back (h.perform (persist conn file) w.state).0 conn
        (after (persist conn file) w) e
