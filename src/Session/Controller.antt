-- ===== src/Session/Controller.antt =====
-- session/session.go, Controller: what a session is doing, from the events of its runner and the
-- calls of its user. States, lifecycles and kinds are Go strings. A time is in nanoseconds, 0 the
-- zero time; a handler returns its events and the controller that it leaves.
pub mod Handlers
pub mod Diffs
pub mod Emitting
pub mod Steady
pub mod Calls
pub mod Snapshots
pub mod Blocking
mod Examples
use vcos.Base.{
  ℕ, Bool, true, false, not, ◌&&◌, ◌||◌, List, [], ◌∷◌, ◌++◌, map, if◌then◌else◌, any, nat_eq,
  length,
}
use vcos.Base.Text.{
  Text, runes, ◌==◌, is_empty, trim_space, to_lower, has_suffix, has_prefix, contains, fields,
}
use vcos.Session.{RuntimeMeta, no_meta}

-- `if overlay != "" { merged = overlay }`
abbrev pub overlaid : Text → Text → Text
overlaid base [] = base
overlaid base (c ∷ s) = c ∷ s

unfoldable pub merge_runtime_meta : RuntimeMeta → RuntimeMeta → RuntimeMeta
merge_runtime_meta base overlay = record {
  source = overlaid base.source overlay.source;
  skill_name = overlaid base.skill_name overlay.skill_name;
  target = overlaid base.target overlay.target;
  target_type = overlaid base.target_type overlay.target_type;
  target_path = overlaid base.target_path overlay.target_path;
  result_view = overlaid base.result_view overlay.result_view;
  resume_session_id = overlaid base.resume_session_id overlay.resume_session_id;
  execution_id = overlaid base.execution_id overlay.execution_id;
  group_id = overlaid base.group_id overlay.group_id;
  group_title = overlaid base.group_title overlay.group_title;
  context_id = overlaid base.context_id overlay.context_id;
  context_title = overlaid base.context_title overlay.context_title;
  target_text = overlaid base.target_text overlay.target_text;
  command = overlaid base.command overlay.command;
  engine = overlaid base.engine overlay.engine;
  model = overlaid base.model overlay.model;
  reasoning_effort = overlaid base.reasoning_effort overlay.reasoning_effort;
  cwd = overlaid base.cwd overlay.cwd;
  permission_mode = overlaid base.permission_mode overlay.permission_mode;
  permission_request_id = overlaid base.permission_request_id overlay.permission_request_id;
  claude_lifecycle = overlaid base.claude_lifecycle overlay.claude_lifecycle;
  claude_session_uuid = overlaid base.claude_session_uuid overlay.claude_session_uuid;
  blocking_kind = overlaid base.blocking_kind overlay.blocking_kind;
}

pub record DiffContext : Type 0 where
  pub context_id : Text
  pub title : Text
  pub path : Text
  pub diff : Text
  pub lang : Text
  pub pending_review : Bool
  pub execution_id : Text
  pub group_id : Text
  pub group_title : Text
  pub review_status : Text

-- DiffContext{}
abbrev pub no_diff : DiffContext
no_diff = record {
  context_id = [];
  title = [];
  path = [];
  diff = [];
  lang = [];
  pending_review = false;
  execution_id = [];
  group_id = [];
  group_title = [];
  review_status = [];
}

abbrev pub idle : Text
idle = runes "IDLE"

abbrev pub thinking : Text
thinking = runes "THINKING"

abbrev pub wait_input : Text
wait_input = runes "WAIT_INPUT"

abbrev pub running_tool : Text
running_tool = runes "RUNNING_TOOL"

pub record Controller : Type 0 where
  pub session_id : Text
  pub current_state : Text
  pub current_command : Text
  pub claude_lifecycle : Text
  pub last_step : Text
  pub last_tool : Text
  pub resume_session : Text
  pub last_user_input : Text
  pub active_meta : RuntimeMeta
  pub recent_diffs : List DiffContext
  pub recent_diff : DiffContext
  pub last_log_msg : Text
  pub last_log_time : ℕ
  pub last_step_msg : Text
  pub last_step_status : Text
  pub last_prompt_msg : Text

unfoldable pub new_controller : Text → Controller
new_controller session_id = record {
  session_id = session_id;
  current_state = idle;
  current_command = [];
  claude_lifecycle = [];
  last_step = [];
  last_tool = [];
  resume_session = [];
  last_user_input = [];
  active_meta = no_meta;
  recent_diffs = [];
  recent_diff = no_diff;
  last_log_msg = [];
  last_log_time = 0;
  last_step_msg = [];
  last_step_status = [];
  last_prompt_msg = [];
}

pub record AgentStateEvent : Type 0 where
  pub session_id : Text
  pub runtime_meta : RuntimeMeta
  pub state : Text
  pub message : Text
  pub await_input : Bool
  pub command : Text
  pub step : Text
  pub tool : Text

-- The events of OnRunnerEvent, with the fields that it reads.
pub data RunnerEvent : Type 0 where
  prompt_request : RuntimeMeta → (message : Text) → RunnerEvent
  step_update : RuntimeMeta → (message status target : Text) → RunnerEvent
  file_diff : RuntimeMeta → (path title diff lang : Text) → RunnerEvent
  log : RuntimeMeta → (message : Text) → RunnerEvent
  session_state : RuntimeMeta → RunnerEvent
  other_event : RunnerEvent

unfoldable pub first_non_empty : List Text → Text
first_non_empty [] = []
first_non_empty (v ∷ vs) =
    let rest = first_non_empty vs in if is_empty (trim_space v) then rest else trim_space v

abbrev pub one_of : List Text → Text → Bool
one_of words s = any (λ w. w == s) words

abbrev pub lifecycles : List Text
lifecycles =
    runes "inactive"
    ∷ runes "starting"
    ∷ runes "active"
    ∷ runes "waiting_input"
    ∷ runes "resumable"
    ∷ runes "unknown"
    ∷ []

unfoldable pub normalize_claude_lifecycle : Text → Text
normalize_claude_lifecycle value =
    if one_of lifecycles (trim_space value) then trim_space value else []

unfoldable pub record_user_input : Text → Controller → Controller
record_user_input input c =
    if is_empty (trim_space input) then c else record c { last_user_input = input }

unfoldable pub update_permission_mode : Text → Controller → Controller
update_permission_mode mode c = record c {
  active_meta = record c.active_meta { permission_mode = trim_space mode };
}

-- The word after the first `--resume` that has one.
abbrev pub after_resume : Text → List Text → Text
after_resume fallback [] = fallback
after_resume fallback (w ∷ []) = fallback
after_resume fallback (w ∷ v ∷ ws) =
    let rest = after_resume fallback (v ∷ ws) in if w == runes "--resume" then v else rest

unfoldable pub extract_resume_session_id : Text → Text → Text
extract_resume_session_id command fallback = after_resume fallback (fields (trim_space command))

unfoldable pub is_ai_prompt : Text → Bool
is_ai_prompt message =
    let trimmed = trim_space message in
    not (is_empty trimmed)
    && (contains trimmed (runes ">   Type your message")
        || trimmed == runes ">"
        || has_suffix trimmed (runes " >")
        || has_suffix trimmed (runes "\n>"))

unfoldable pub normalize_claude_permission_mode : Text → Text
normalize_claude_permission_mode mode =
    let m = trim_space mode in
    if m == runes "bypassPermissions" then m else if m == runes "default" then m else runes "auto"

unfoldable pub should_auto_accept_review : List Text → Bool
unfolding first_non_empty normalize_claude_permission_mode
should_auto_accept_review values =
    let mode = first_non_empty values in
    not (is_empty mode) && not (normalize_claude_permission_mode mode == runes "default")

-- Of the name at the head of a command: the name itself, at the end of a path, or with `.exe`. The
-- raw string of the Windows path has two backslashes.
abbrev named : Text → Text → Bool
named head name =
    head == name
    || has_suffix head (runes "/" ++ name)
    || has_suffix head (runes "\\\\" ++ name)
    || head == name ++ runes ".exe"

abbrev pub claude_or_codex : Text → Bool
claude_or_codex head = named head (runes "claude") || named head (runes "codex")

module _ (unicode_lower : ℕ → ℕ) where
  abbrev pub blocking_kinds : List Text
  blocking_kinds =
      runes "permission" ∷ runes "review" ∷ runes "plan" ∷ runes "reply" ∷ runes "ready" ∷ []

  unfoldable pub normalize_blocking_kind : Text → Text
  normalize_blocking_kind value =
      let v = trim_space (to_lower unicode_lower value) in if one_of blocking_kinds v then v else []

  abbrev head_is : (Text → Bool) → List Text → Bool
  head_is test [] = false
  head_is test (w ∷ ws) = test (to_lower unicode_lower w)

  unfoldable pub is_claude_command : Text → Bool
  is_claude_command command = head_is claude_or_codex (fields (trim_space command))

  unfoldable pub is_ai_command : Text → Bool
  is_ai_command command =
      head_is (λ h. named h (runes "claude") || named h (runes "gemini") || named h (runes "codex"))
        (fields (trim_space command))

  unfoldable pub is_terminal_step_status : Text → Bool
  is_terminal_step_status status =
      one_of
        (runes "done"
          ∷ runes "completed"
          ∷ runes "complete"
          ∷ runes "success"
          ∷ runes "succeeded"
          ∷ [])
        (trim_space (to_lower unicode_lower status))

  abbrev derived : Controller → Text
  derived c =
      let claude = is_claude_command c.current_command in
      let resumes = not (is_empty (trim_space c.resume_session)) in
      if c.current_state == wait_input && (claude || resumes)
      then runes "waiting_input"
      else if (c.current_state == thinking || c.current_state == running_tool) && claude
      then runes "active"
      else if resumes
      then runes "resumable"
      else if claude
      then runes "unknown"
      else runes "inactive"

  unfoldable pub derive_claude_lifecycle : Controller → Text
  unfolding is_claude_command normalize_claude_lifecycle
  derive_claude_lifecycle c =
      let lifecycle = normalize_claude_lifecycle c.active_meta.claude_lifecycle in
      overlaid (derived c) lifecycle

  -- refreshClaudeLifecycleLocked
  unfoldable pub refresh_claude_lifecycle : Controller → Controller
  unfolding derive_claude_lifecycle
  refresh_claude_lifecycle c =
      let lifecycle = derive_claude_lifecycle c in
      record c {
        claude_lifecycle = lifecycle;
        active_meta = record c.active_meta {
          claude_lifecycle = overlaid c.active_meta.claude_lifecycle lifecycle;
        };
      }

  abbrev pub awaited_kind : Bool → Text → Text
  awaited_kind false kind = []
  awaited_kind true kind = overlaid (runes "ready") (normalize_blocking_kind kind)

  unfoldable pub new_agent_state_event :
      Text → Bool → Controller → List AgentStateEvent × Controller
  unfolding refresh_claude_lifecycle merge_runtime_meta normalize_blocking_kind
  new_agent_state_event message await_input c =
      let c' = refresh_claude_lifecycle c in
      (
        record {
          session_id = c.session_id;
          runtime_meta = merge_runtime_meta c'.active_meta (record no_meta {
            resume_session_id = c'.resume_session;
            claude_lifecycle = c'.claude_lifecycle;
            blocking_kind = awaited_kind await_input c'.active_meta.blocking_kind;
          });
          state = c.current_state;
          message = message;
          await_input = await_input;
          command = c.current_command;
          step = c.last_step;
          tool = c.last_tool;
        }
            ∷ [],
        c',
      )

  unfoldable pub initial_event : Controller → List AgentStateEvent × Controller
  unfolding new_agent_state_event
  initial_event c = new_agent_state_event (runes "空闲") false c
