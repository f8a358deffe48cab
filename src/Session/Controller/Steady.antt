-- ===== src/Session/Controller/Steady.antt =====
-- What every handler of a session's controller keeps (session/session.go).
use vcos.Base.{ℕ, ◌≡◌, refl, sym, true, false, inl, inr, [], ◌∷◌, arith, if◌then◌else◌, Bool-cases}
use vcos.Base.Text.{Text, runes, ◌==◌}
use vcos.Session.{RuntimeMeta}
use vcos.Session.Controller.{
  overlaid, Controller, RunnerEvent, prompt_request, step_update, file_diff, log, session_state,
  other_event, thinking, wait_input, normalize_claude_lifecycle, refresh_claude_lifecycle,
  new_agent_state_event, is_terminal_step_status, is_claude_command,
}
use vcos.Session.Controller.Diffs.{pick_active, pick_active_recent_diff}
use vcos.Session.Controller.Handlers.{
  take_lifecycle, take_meta, take_review, on_exec_start, on_prompt, on_step, on_file_diff, on_log,
  on_session_state, on_runner_event, on_input_sent, on_command_finished, started, same_prompt,
  asked, noted_step, same_step, stepping, diffed, take_session, noted_log, same_log, shows_prompt,
  prompted, sent, decides, denies, denied, allowed, finished, ready, waiting_message,
}
use vcos.Session.Controller.Emitting.{
  normalize-normalize, Steady, Good, thinking_busy, running_busy, idle_busy, waiting_waits, silent,
  Good-if, emit-Good,
}

module _ (unicode_lower : ℕ → ℕ) where
  pub on_exec_start-Good :
      (command : Text) (meta : RuntimeMeta) (c : Controller)
      → Steady c
      → Good (on_exec_start unicode_lower command meta c)
  unfolding on_exec_start
  on_exec_start-Good command meta c h =
      emit-Good unicode_lower _ false (started unicode_lower command meta c) h.shown thinking_busy

  on_prompt-Good :
      (e : RuntimeMeta) (message : Text) (c : Controller)
      → Steady c
      → Good (on_prompt unicode_lower e message c)
  unfolding on_prompt
  on_prompt-Good e message c h = elim (Bool-cases (same_prompt unicode_lower e message c)) [
    | inl same ↦ rw (same, if◌then◌else◌) (silent c h)
    | inr new ↦
        rw (new, if◌then◌else◌)
          (emit-Good unicode_lower _ true (asked unicode_lower e message c) h.shown waiting_waits)
  ]

  on_step-Good :
      (e : RuntimeMeta) (message status target : Text) (c : Controller)
      → Steady c
      → Good (on_step unicode_lower e message status target c)
  unfolding on_step
  on_step-Good e message status target c h =
      elim (Bool-cases (same_step unicode_lower message status c)) [
        | inl same ↦ rw (same, if◌then◌else◌) (silent c h)
        | inr new ↦ elim (Bool-cases (is_terminal_step_status unicode_lower status)) [
          | inl done ↦
              rw (new, done, if◌then◌else◌)
                (silent (noted_step unicode_lower message status c)
                  (record { normal = h.normal; agrees = h.agrees; shown = h.shown }))
          | inr running ↦
              rw (new, running, if◌then◌else◌)
                (emit-Good unicode_lower _ false (stepping unicode_lower e message status target c)
                  h.shown running_busy)
        ]
      ]

  on_file_diff-Good :
      (e : RuntimeMeta) (path title diff lang : Text) (c : Controller)
      → Good (on_file_diff unicode_lower e path title diff lang c)
  unfolding on_file_diff pick_active_recent_diff
  on_file_diff-Good e path title diff lang c =
      emit-Good unicode_lower _ false (diffed unicode_lower e path title diff lang c) refl
        running_busy

  take_lifecycle-Steady :
      (lifecycle : Text) (c : Controller)
      → normalize_claude_lifecycle lifecycle ≡ lifecycle
      → Steady c
      → Steady (take_lifecycle lifecycle c)
  take_lifecycle-Steady [] c e h = h
  take_lifecycle-Steady (x ∷ lifecycle) c e h = record {
    normal = e;
    agrees = refl;
    shown = h.shown;
  }

  take_session-Steady :
      (e : RuntimeMeta) (c : Controller) → Steady c → Steady (take_session unicode_lower e c)
  take_session-Steady e c h =
      take_lifecycle-Steady (normalize_claude_lifecycle e.claude_lifecycle)
        (record c { resume_session = overlaid c.resume_session e.resume_session_id })
        (normalize-normalize e.claude_lifecycle).0
        (record { normal = h.normal; agrees = h.agrees; shown = h.shown })

  noted_log-Steady :
      (now : ℕ) (message : Text) (c : Controller)
      → Steady c
      → Steady (noted_log unicode_lower now message c)
  noted_log-Steady now message c h = record {
    normal = h.normal;
    agrees = h.agrees;
    shown = h.shown;
  }

  prompted_lem :
      (e : RuntimeMeta) (c : Controller)
      → c.recent_diff ≡ pick_active c.recent_diffs
      → ((prompted unicode_lower e c).recent_diff
          ≡ pick_active (prompted unicode_lower e c).recent_diffs)
        × (true ≡ ((prompted unicode_lower e c).current_state == wait_input))
  prompted_lem e c h = elim (Bool-cases (is_claude_command unicode_lower c.current_command)) [
    | inl agent ↦ rw (agent, if◌then◌else◌) (h, waiting_waits)
    | inr other ↦ rw (other, if◌then◌else◌) (h, waiting_waits)
  ]

  on_log-Good :
      (now : ℕ) (e : RuntimeMeta) (message : Text) (c : Controller)
      → Steady c
      → Good (on_log unicode_lower now e message c)
  unfolding on_log
  on_log-Good now e message c h =
      let c' = take_session unicode_lower e c in
      let h' = take_session-Steady e c h in
      let noted = noted_log unicode_lower now message c' in
      elim (Bool-cases (same_log unicode_lower now message c')) [
        | inl same ↦ rw (same, if◌then◌else◌) (silent c' h')
        | inr new ↦ elim (Bool-cases (shows_prompt unicode_lower message c')) [
          | inl asks ↦
              let (shown, waits) = prompted_lem e noted h'.shown in
              rw (new, asks, if◌then◌else◌)
                (emit-Good unicode_lower _ true (prompted unicode_lower e noted) shown waits)
          | inr plain ↦
              rw (new, plain, if◌then◌else◌) (silent noted (noted_log-Steady now message c' h'))
        ]
      ]

  pub on_runner_event-Good :
      (now : ℕ) (event : RunnerEvent) (c : Controller)
      → Steady c
      → Good (on_runner_event unicode_lower now event c)
  unfolding on_runner_event on_session_state
  on_runner_event-Good now (prompt_request e message) c h = on_prompt-Good e message c h
  on_runner_event-Good now (step_update e message status target) c h =
      on_step-Good e message status target c h
  on_runner_event-Good now (file_diff e path title diff lang) c h =
      on_file_diff-Good e path title diff lang c
  on_runner_event-Good now (log e message) c h = on_log-Good now e message c h
  on_runner_event-Good now (session_state e) c h = silent _ (take_session-Steady e c h)
  on_runner_event-Good now other_event c h = silent c h

  take_meta-shown :
      (meta : RuntimeMeta) (c : Controller)
      → c.recent_diff ≡ pick_active c.recent_diffs
      → (take_meta meta c).recent_diff ≡ pick_active (take_meta meta c).recent_diffs
  unfolding take_meta
  take_meta-shown meta c h = ground arith

  take_review-shown :
      (meta : RuntimeMeta) (c : Controller)
      → c.recent_diff ≡ pick_active c.recent_diffs
      → (take_review meta c).recent_diff ≡ pick_active (take_review meta c).recent_diffs
  unfolding take_review pick_active_recent_diff
  take_review-shown meta c h = elim (Bool-cases (meta.source == runes "review-decision")) [
    | inl reviews ↦ rw (reviews, if◌then◌else◌) refl
    | inr other ↦ rw (other, if◌then◌else◌) h
  ]

  pub on_input_sent-Good :
      (meta : RuntimeMeta) (c : Controller) → Steady c → Good (on_input_sent unicode_lower meta c)
  unfolding on_input_sent
  on_input_sent-Good meta c h =
      let c' = sent unicode_lower meta c in
      let shown = take_review-shown meta (take_meta meta c) (take_meta-shown meta c h.shown) in
      elim (Bool-cases (denies unicode_lower meta)) [
        | inl deny ↦
            rw (deny, if◌then◌else◌)
              (emit-Good unicode_lower _ true (denied unicode_lower c') shown waiting_waits)
        | inr not_deny ↦ elim (Bool-cases (decides unicode_lower meta)) [
          | inl allow ↦
              rw (not_deny, allow, if◌then◌else◌)
                (emit-Good unicode_lower _ false (allowed unicode_lower c') shown thinking_busy)
          | inr input ↦
              rw (not_deny, input, if◌then◌else◌)
                (emit-Good unicode_lower _ false (record c' { current_state = thinking }) shown
                  thinking_busy)
        ]
      ]

  pub on_command_finished-Good :
      (meta : RuntimeMeta) (c : Controller)
      → Steady c
      → Good (on_command_finished unicode_lower meta c)
  unfolding on_command_finished refresh_claude_lifecycle
  on_command_finished-Good meta c h =
      let c' = take_meta meta c in
      let shown = take_meta-shown meta c h.shown in
      let refreshed = ready unicode_lower (refresh_claude_lifecycle unicode_lower c') in
      Good-if (c'.current_state == wait_input)
        (new_agent_state_event unicode_lower (waiting_message unicode_lower c') true refreshed) _
        (λ waits.
          emit-Good unicode_lower (waiting_message unicode_lower c') true refreshed shown
            (sym waits))
        (λ other. emit-Good unicode_lower _ false (finished unicode_lower meta c') shown idle_busy)
