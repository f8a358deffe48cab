-- ===== src/Session/Controller/Examples.antt =====
-- A session's controller on a run, and its theorems at it.
use vcos.Base.{ℕ, ◌≡◌, List, [], ◌∷◌}
use vcos.Base.Text.{runes}
use vcos.Session.{RuntimeMeta, no_meta}
use vcos.Session.Controller.{overlaid, Controller, prompt_request, step_update, new_controller}
use vcos.Session.Controller.Emitting.{Steady}
use vcos.Session.Controller.Calls.{
  Call, initials, starts, receives, handle, run, Handled, new_controller-Steady, run-Steady,
  run-handle-Handled,
}
use vcos.Session.Controller.Snapshots.{snapshot, restore, restore-snapshot}

abbrev same_rune : ℕ → ℕ
same_rune c = c

abbrev asks_permission : RuntimeMeta
asks_permission = record no_meta {
  blocking_kind = runes "permission";
  permission_request_id = runes "p1";
  target_path = runes "x.go";
}

abbrev calls : List Call
calls =
    starts (runes "claude --resume r1") no_meta
    ∷ receives 5 (prompt_request asks_permission (runes "Edit x.go?"))
    ∷ initials
    ∷ []

abbrev step_call : Call
step_call = receives 6 (step_update no_meta (runes "Editing x.go") (runes "running") (runes "x.go"))

run-handle-Handled_example :
    Handled step_call
      (handle same_rune step_call (run same_rune calls (new_controller (runes "s1"))))
run-handle-Handled_example = run-handle-Handled same_rune (runes "s1") calls step_call

abbrev asked_session : Controller
asked_session = run same_rune calls (new_controller (runes "s1"))

asked_session-Steady : Steady asked_session
asked_session-Steady =
    run-Steady same_rune calls (new_controller (runes "s1")) (new_controller-Steady (runes "s1"))

restore-snapshot_example :
    restore (snapshot asked_session) (new_controller (runes "s2")) ≡ record asked_session {
      session_id = overlaid (new_controller (runes "s2")).session_id asked_session.session_id;
      last_log_msg = (new_controller (runes "s2")).last_log_msg;
      last_log_time = (new_controller (runes "s2")).last_log_time;
      last_step_msg = (new_controller (runes "s2")).last_step_msg;
      last_step_status = (new_controller (runes "s2")).last_step_status;
      last_prompt_msg = (new_controller (runes "s2")).last_prompt_msg;
    }
restore-snapshot_example =
    restore-snapshot asked_session (new_controller (runes "s2")) asked_session-Steady

abbrev asked_before : Controller
asked_before = record (new_controller (runes "s1")) { active_meta = asks_permission }
