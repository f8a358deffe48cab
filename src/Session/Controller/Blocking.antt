-- ===== src/Session/Controller/Blocking.antt =====
-- What an event says of the blocking interaction (session/session.go).
use vcos.Base.{ℕ, ◌≡◌, refl, false, List, [], ◌∷◌, if◌then◌else◌}
use vcos.Base.Text.{Text}
use vcos.Session.{RuntimeMeta}
use vcos.Session.Controller.{
  Controller, AgentStateEvent, merge_runtime_meta, refresh_claude_lifecycle, new_agent_state_event,
  is_terminal_step_status,
}
use vcos.Session.Controller.Handlers.{on_step, same_step}

abbrev pub kinds : List AgentStateEvent → List Text
kinds [] = []
kinds (e ∷ es) = e.runtime_meta.blocking_kind ∷ kinds es

-- A stale interaction: an event that does not wait for input still has the blocking kind of the
-- active meta. So a new step after a permission prompt, when the session runs again, is announced
-- with the prompt's kind.
step_keeps_kind :
    (unicode_lower : ℕ → ℕ) (e : RuntimeMeta) (message status target : Text) (c : Controller)
    → same_step unicode_lower message status c ≡ false
    → is_terminal_step_status unicode_lower status ≡ false
    → kinds (on_step unicode_lower e message status target c).0 ≡ c.active_meta.blocking_kind ∷ []
unfolding on_step new_agent_state_event refresh_claude_lifecycle merge_runtime_meta
step_keeps_kind unicode_lower e message status target c new running =
    rw (new, running, if◌then◌else◌) refl
