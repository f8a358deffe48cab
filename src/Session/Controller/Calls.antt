-- ===== src/Session/Controller/Calls.antt =====
-- What every call of a session's controller keeps, and what its event says (session/session.go).
use vcos.Base.{ℕ, ◌≡◌, refl, false, inl, inr, List, [], ◌∷◌, if◌then◌else◌, Bool-cases}
use vcos.Base.Text.{Text, ◌==◌, is_empty, trim_space}
use vcos.Session.{RuntimeMeta}
use vcos.Session.Controller.{
  Controller, AgentStateEvent, RunnerEvent, new_controller, initial_event,
  normalize_claude_lifecycle, record_user_input, update_permission_mode,
}
use vcos.Session.Controller.Diffs.{pick_active}
use vcos.Session.Controller.Handlers.{
  on_exec_start, on_runner_event, on_input_sent, on_command_finished,
}
use vcos.Session.Controller.Emitting.{Steady, Says, emit_lem}
use vcos.Session.Controller.Steady.{
  on_exec_start-Good, on_runner_event-Good, on_input_sent-Good, on_command_finished-Good,
}
use vcos.Session.Controller.Snapshots.{ControllerSnapshot, restore, restore-Steady}

-- The calls of the methods of a controller that change it. InitialEvent does, as it refreshes the
-- lifecycle. Restore is called with a snapshot whose active meta has a normal lifecycle, as those
-- that Snapshot takes have.
pub data Call : Type 0 where
  initials : Call
  starts : Text → RuntimeMeta → Call
  receives : ℕ → RunnerEvent → Call
  sends : RuntimeMeta → Call
  finishes : RuntimeMeta → Call
  types : Text → Call
  permits : Text → Call
  restores :
      (s : ControllerSnapshot)
      → normalize_claude_lifecycle s.active_meta.claude_lifecycle ≡ s.active_meta.claude_lifecycle
      → Call

abbrev pub handle : (ℕ → ℕ) → Call → Controller → List AgentStateEvent × Controller
handle unicode_lower initials c = initial_event unicode_lower c
handle unicode_lower (starts command meta) c = on_exec_start unicode_lower command meta c
handle unicode_lower (receives now event) c = on_runner_event unicode_lower now event c
handle unicode_lower (sends meta) c = on_input_sent unicode_lower meta c
handle unicode_lower (finishes meta) c = on_command_finished unicode_lower meta c
handle unicode_lower (types input) c = ([], record_user_input input c)
handle unicode_lower (permits mode) c = ([], update_permission_mode mode c)
handle unicode_lower (restores s normal) c = ([], restore s c)

-- The event of InitialEvent says the state and the lifecycle, and never that input is awaited; an
-- event of any other call says all three as the controller has them.
abbrev pub SaysFor : Call → List AgentStateEvent → Controller → Type 0
SaysFor initials es c =
    (e : AgentStateEvent) × (es ≡ e ∷ [])
    × (e.state ≡ c.current_state)
    × (e.await_input ≡ false)
    × (e.runtime_meta.claude_lifecycle ≡ c.claude_lifecycle)
SaysFor _ es c = Says es c

pub record Handled (call : Call) (r : List AgentStateEvent × Controller) : Type 0 where
  pub steady : Steady r.1
  pub says : SaysFor call r.0 r.1

initial-Handled :
    (unicode_lower : ℕ → ℕ) (c : Controller)
    → Steady c
    → Handled initials (initial_event unicode_lower c)
unfolding initial_event
initial-Handled unicode_lower c h =
    let (steady, says) = emit_lem unicode_lower _ false c h.shown in
    record { steady = steady; says = says }

handle-Handled :
    (unicode_lower : ℕ → ℕ) (call : Call) (c : Controller)
    → Steady c
    → Handled call (handle unicode_lower call c)
unfolding record_user_input update_permission_mode
handle-Handled unicode_lower initials c h = initial-Handled unicode_lower c h
handle-Handled unicode_lower (restores s normal) c h = record {
  steady = restore-Steady s c normal;
  says = tt;
}
handle-Handled unicode_lower (starts command meta) c h =
    let g = on_exec_start-Good unicode_lower command meta c h in
    record { steady = g.steady; says = g.says }
handle-Handled unicode_lower (receives now event) c h =
    let g = on_runner_event-Good unicode_lower now event c h in
    record { steady = g.steady; says = g.says }
handle-Handled unicode_lower (sends meta) c h =
    let g = on_input_sent-Good unicode_lower meta c h in record { steady = g.steady; says = g.says }
handle-Handled unicode_lower (finishes meta) c h =
    let g = on_command_finished-Good unicode_lower meta c h in
    record { steady = g.steady; says = g.says }
handle-Handled unicode_lower (types input) c h = elim (Bool-cases (is_empty (trim_space input))) [
  | inl blank ↦ rw (blank, if◌then◌else◌) (record { steady = h; says = tt })
  | inr filled ↦
      rw (filled, if◌then◌else◌)
        (record {
          steady = record { normal = h.normal; agrees = h.agrees; shown = h.shown };
          says = tt;
        })
]
handle-Handled unicode_lower (permits mode) c h = record {
  steady = record { normal = h.normal; agrees = h.agrees; shown = h.shown };
  says = tt;
}

abbrev pub run : (ℕ → ℕ) → List Call → Controller → Controller
run unicode_lower [] c = c
run unicode_lower (call ∷ calls) c = run unicode_lower calls (handle unicode_lower call c).1

pub new_controller-Steady : (session_id : Text) → Steady (new_controller session_id)
unfolding new_controller pick_active normalize_claude_lifecycle trim_space ◌==◌
new_controller-Steady session_id = record { normal = refl; agrees = refl; shown = refl }

pub run-Steady :
    (unicode_lower : ℕ → ℕ) (calls : List Call) (c : Controller)
    → Steady c
    → Steady (run unicode_lower calls c)
run-Steady unicode_lower [] c h = h
run-Steady unicode_lower (call ∷ calls) c h =
    run-Steady unicode_lower calls (handle unicode_lower call c).1
      (handle-Handled unicode_lower call c h).steady

-- Whatever a session has been through since it was new, the next call of any method, InitialEvent and
-- Restore of a snapshot with a normal lifecycle included, leaves a controller whose two copies of the
-- lifecycle agree on a normal value and whose shown diff is the one that its recent diffs pick; and an
-- event of that call says the state that the controller is in, has the controller's lifecycle, and
-- waits for input exactly where that state is WAIT_INPUT, but for the event of InitialEvent, which
-- never does.
pub run-handle-Handled :
    (unicode_lower : ℕ → ℕ) (session_id : Text) (calls : List Call) (call : Call)
    → Handled call (handle unicode_lower call (run unicode_lower calls (new_controller session_id)))
run-handle-Handled unicode_lower session_id calls call =
    handle-Handled unicode_lower call (run unicode_lower calls (new_controller session_id)) (
      run-Steady unicode_lower calls (new_controller session_id) (new_controller-Steady session_id))
