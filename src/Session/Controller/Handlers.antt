-- ===== src/Session/Controller/Handlers.antt =====
-- session/session.go: the handlers of a controller, each a critical section of its mutex.
use vcos.Base.{ℕ, ◌-◌, Bool, true, false, not, ◌&&◌, ◌||◌, List, [], ◌∷◌, ◌++◌, if◌then◌else◌, ltb}
use vcos.Base.Text.{Text, runes, ◌==◌, is_empty, trim_space, to_lower}
use vcos.Session.{RuntimeMeta}
use vcos.Session.Controller.{
  overlaid, merge_runtime_meta, Controller, AgentStateEvent, RunnerEvent, prompt_request,
  step_update, file_diff, log, session_state, other_event, thinking, wait_input, running_tool, idle,
  first_non_empty, normalize_claude_lifecycle, extract_resume_session_id, is_ai_prompt,
  should_auto_accept_review, normalize_blocking_kind, is_claude_command, is_ai_command,
  is_terminal_step_status, refresh_claude_lifecycle, new_agent_state_event, DiffContext,
}
use vcos.Session.Controller.Diffs.{
  upsert_recent_diff, pick_active_recent_diff, mark_recent_diff_pending,
}

-- Both copies of the lifecycle are set.
abbrev pub set_lifecycle : Text → Controller → Controller
set_lifecycle lifecycle c = record c {
  claude_lifecycle = lifecycle;
  active_meta = record c.active_meta { claude_lifecycle = lifecycle };
}

-- `if lifecycle := normalize(value); lifecycle != "" { … }`
abbrev pub take_lifecycle : Text → Controller → Controller
take_lifecycle lifecycle c = if is_empty lifecycle then c else set_lifecycle lifecycle c

-- The condition under which a meta is merged into the active one.
abbrev says_something : RuntimeMeta → Bool
says_something m =
    not (is_empty m.source)
    || not (is_empty m.skill_name)
    || not (is_empty m.resume_session_id)
    || not (is_empty m.context_id)
    || not (is_empty m.context_title)
    || not (is_empty m.target_text)
    || not (is_empty m.target_path)

unfoldable pub take_meta : RuntimeMeta → Controller → Controller
unfolding merge_runtime_meta
take_meta meta c =
    if says_something meta
    then record c { active_meta = merge_runtime_meta c.active_meta meta }
    else c

abbrev review_mark : RuntimeMeta → Controller → Controller
review_mark meta c =
    let id = trim_space meta.context_id in
    let path = trim_space meta.target_path in
    let text = trim_space meta.target_text in
    if text == runes "accept" || text == runes "revert"
    then mark_recent_diff_pending id path false c
    else if text == runes "revise"
    then mark_recent_diff_pending id path true c
    else c

unfoldable pub take_review : RuntimeMeta → Controller → Controller
unfolding mark_recent_diff_pending pick_active_recent_diff
take_review meta c =
    if meta.source == runes "review-decision"
    then pick_active_recent_diff (review_mark meta c)
    else c

module _ (unicode_lower : ℕ → ℕ) where
  abbrev starting_lifecycle : Text → RuntimeMeta → Text → Text
  starting_lifecycle command meta resume = first_non_empty (
      normalize_claude_lifecycle meta.claude_lifecycle
      ∷ (if is_claude_command unicode_lower command
          then runes "starting"
          else if is_empty (trim_space resume)
          then runes "inactive"
          else runes "resumable")
      ∷ [])

  -- The controller of a command that starts.
  abbrev pub started : Text → RuntimeMeta → Controller → Controller
  started command meta c =
      let resume = extract_resume_session_id command meta.resume_session_id in
      let lifecycle = starting_lifecycle command meta resume in
      record c {
        current_command = command;
        current_state = thinking;
        last_step = [];
        last_tool = [];
        active_meta = record meta { claude_lifecycle = lifecycle };
        resume_session = resume;
        claude_lifecycle = lifecycle;
        last_user_input = [];
      }

  unfoldable pub on_exec_start : Text → RuntimeMeta → Controller → List AgentStateEvent × Controller
  unfolding extract_resume_session_id normalize_claude_lifecycle first_non_empty is_claude_command
      new_agent_state_event
  on_exec_start command meta c =
      new_agent_state_event unicode_lower
        (if is_empty meta.skill_name then runes "思考中" else runes "执行 skill：" ++ meta.skill_name)
        false (started command meta c)

  abbrev with_permission : RuntimeMeta → RuntimeMeta → RuntimeMeta
  with_permission e m =
      if m.blocking_kind == runes "permission"
      then record m {
        permission_request_id = trim_space e.permission_request_id;
        context_id = trim_space e.context_id;
        context_title = trim_space e.context_title;
        target_path = trim_space e.target_path;
        target = trim_space e.target;
        target_type = trim_space e.target_type;
      }
      else m

  abbrev pub same_prompt : RuntimeMeta → Text → Controller → Bool
  same_prompt e message c =
      let id = trim_space e.permission_request_id in
      message == c.last_prompt_msg
      && c.current_state == wait_input
      && (is_empty id || id == trim_space c.active_meta.permission_request_id)

  -- The controller that a prompt leaves.
  abbrev pub asked : RuntimeMeta → Text → Controller → Controller
  asked e message c = record c {
    last_prompt_msg = message;
    current_state = wait_input;
    resume_session = overlaid c.resume_session e.resume_session_id;
    active_meta = with_permission e (record (merge_runtime_meta c.active_meta e) {
      claude_lifecycle = runes "waiting_input";
      blocking_kind = normalize_blocking_kind unicode_lower e.blocking_kind;
    });
    claude_lifecycle = runes "waiting_input";
  }

  unfoldable pub on_prompt : RuntimeMeta → Text → Controller → List AgentStateEvent × Controller
  unfolding merge_runtime_meta normalize_blocking_kind new_agent_state_event
  on_prompt e message c =
      if same_prompt e message c
      then ([], c)
      else new_agent_state_event unicode_lower (overlaid (runes "等待输入") message) true
          (asked e message c)

  -- The lifecycle of a step or a diff: the event's, or "active" under an agent's command.
  abbrev working_lifecycle : RuntimeMeta → Controller → Text
  working_lifecycle e c = first_non_empty (
      normalize_claude_lifecycle e.claude_lifecycle
      ∷ (if is_claude_command unicode_lower c.current_command
          then runes "active"
          else c.claude_lifecycle)
      ∷ [])

  abbrev pub noted_step : Text → Text → Controller → Controller
  noted_step message status c = record c { last_step_msg = message; last_step_status = status }

  -- The controller of a step that runs.
  abbrev pub stepping : RuntimeMeta → Text → Text → Text → Controller → Controller
  stepping e message status target c =
      set_lifecycle (working_lifecycle e c) (record (noted_step message status c) {
        last_step = overlaid c.last_step message;
        current_state = running_tool;
        last_tool = target;
      })

  abbrev pub same_step : Text → Text → Controller → Bool
  same_step message status c =
      message == c.last_step_msg && (status == c.last_step_status || is_empty status)

  unfoldable pub on_step :
      RuntimeMeta → Text → Text → Text → Controller → List AgentStateEvent × Controller
  unfolding first_non_empty normalize_claude_lifecycle is_claude_command is_terminal_step_status
      new_agent_state_event
  on_step e message status target c =
      if same_step message status c
      then ([], c)
      else if is_terminal_step_status unicode_lower status
      then ([], noted_step message status c)
      else new_agent_state_event unicode_lower (overlaid (runes "执行工具中") message) false
          (stepping e message status target c)

  abbrev diff_context : RuntimeMeta → Text → Text → Text → Text → Bool → DiffContext
  diff_context e path title diff lang pending = record {
    context_id = first_non_empty (e.context_id ∷ path ∷ title ∷ []);
    title = first_non_empty (title ∷ e.context_title ∷ runes "Diff 预览" ∷ []);
    path = first_non_empty (path ∷ e.target_path ∷ []);
    diff = diff;
    lang = lang;
    pending_review = pending;
    execution_id = [];
    group_id = [];
    group_title = [];
    review_status = if pending then runes "pending" else runes "accepted";
  }

  -- The controller of a new diff, which it shows or not.
  abbrev pub diffed : RuntimeMeta → Text → Text → Text → Text → Controller → Controller
  diffed e path title diff lang c =
      let working =
        set_lifecycle (working_lifecycle e c)
          (record c { current_state = running_tool; last_tool = overlaid c.last_tool path }) in
      let pending =
        not (should_auto_accept_review (e.permission_mode ∷ c.active_meta.permission_mode ∷ [])) in
      pick_active_recent_diff
        (upsert_recent_diff (diff_context e path title diff lang pending) working)

  unfoldable pub on_file_diff :
      RuntimeMeta → Text → Text → Text → Text → Controller → List AgentStateEvent × Controller
  unfolding first_non_empty normalize_claude_lifecycle is_claude_command should_auto_accept_review
      upsert_recent_diff pick_active_recent_diff new_agent_state_event
  on_file_diff e path title diff lang c =
      new_agent_state_event unicode_lower (overlaid (runes "查看代码改动") title) false
        (diffed e path title diff lang c)

  -- What LogEvent and SessionStateEvent say of the session.
  abbrev pub take_session : RuntimeMeta → Controller → Controller
  take_session e c =
      take_lifecycle (normalize_claude_lifecycle e.claude_lifecycle)
        (record c { resume_session = overlaid c.resume_session e.resume_session_id })

  abbrev pub prompted : RuntimeMeta → Controller → Controller
  prompted e c =
      if is_claude_command unicode_lower c.current_command
      then record c {
        current_state = wait_input;
        claude_lifecycle = runes "waiting_input";
        active_meta = record c.active_meta {
          claude_lifecycle = runes "waiting_input";
          blocking_kind = normalize_blocking_kind unicode_lower e.blocking_kind;
        };
      }
      else record c { current_state = wait_input }

  -- 300 ms
  abbrev pub repeat_window : ℕ
  repeat_window = 300000000

  abbrev pub noted_log : ℕ → Text → Controller → Controller
  noted_log now message c = record c { last_log_msg = message; last_log_time = now }

  abbrev pub same_log : ℕ → Text → Controller → Bool
  same_log now message c = message == c.last_log_msg && ltb (now - c.last_log_time) repeat_window

  abbrev pub shows_prompt : Text → Controller → Bool
  shows_prompt message c =
      is_ai_command unicode_lower c.current_command
      && c.current_state == thinking
      && is_ai_prompt message

  unfoldable pub on_log : ℕ → RuntimeMeta → Text → Controller → List AgentStateEvent × Controller
  unfolding normalize_claude_lifecycle normalize_blocking_kind is_claude_command is_ai_command
      is_ai_prompt new_agent_state_event
  on_log now e message c =
      let c' = take_session e c in
      if same_log now message c'
      then ([], c')
      else if shows_prompt message c'
      then new_agent_state_event unicode_lower
          (if is_empty (trim_space message) then runes "等待输入" else message) true
          (prompted e (noted_log now message c'))
      else ([], noted_log now message c')

  unfoldable pub on_session_state : RuntimeMeta → Controller → List AgentStateEvent × Controller
  unfolding normalize_claude_lifecycle
  on_session_state e c = ([], take_session e c)

  unfoldable pub on_runner_event : ℕ → RunnerEvent → Controller → List AgentStateEvent × Controller
  unfolding on_prompt on_step on_file_diff on_log on_session_state
  on_runner_event now (prompt_request e message) c = on_prompt e message c
  on_runner_event now (step_update e message status target) c = on_step e message status target c
  on_runner_event now (file_diff e path title diff lang) c = on_file_diff e path title diff lang c
  on_runner_event now (log e message) c = on_log now e message c
  on_runner_event now (session_state e) c = on_session_state e c
  on_runner_event now other_event c = ([], c)

  abbrev pub sent : RuntimeMeta → Controller → Controller
  sent meta c =
      let c' = take_review meta (take_meta meta c) in
      let lifecycle =
        overlaid
          (if is_claude_command unicode_lower c'.current_command
            then runes "active"
            else c'.claude_lifecycle)
          (normalize_claude_lifecycle meta.claude_lifecycle) in
      record c' {
        claude_lifecycle = lifecycle;
        active_meta = record c'.active_meta {
          permission_mode = overlaid c'.active_meta.permission_mode meta.permission_mode;
          blocking_kind = normalize_blocking_kind unicode_lower meta.blocking_kind;
          claude_lifecycle = lifecycle;
        };
      }

  abbrev pub decides : RuntimeMeta → Bool
  decides meta = meta.source == runes "permission-decision"

  abbrev pub denies : RuntimeMeta → Bool
  denies meta = decides meta && trim_space (to_lower unicode_lower meta.target_text) == runes "deny"

  abbrev pub denied : Controller → Controller
  denied c = record c {
    current_state = wait_input;
    active_meta = record c.active_meta {
      blocking_kind = runes "ready";
      permission_request_id = [];
    };
  }

  abbrev pub allowed : Controller → Controller
  allowed c = record c {
    current_state = thinking;
    active_meta = record c.active_meta { blocking_kind = []; permission_request_id = [] };
  }

  unfoldable pub on_input_sent : RuntimeMeta → Controller → List AgentStateEvent × Controller
  unfolding take_meta take_review normalize_claude_lifecycle normalize_blocking_kind
      is_claude_command new_agent_state_event
  on_input_sent meta c =
      if denies meta
      then new_agent_state_event unicode_lower (runes "已拒绝权限，可继续输入") true (denied (sent meta c))
      else if decides meta
      then new_agent_state_event unicode_lower (runes "根据权限决策继续处理中") false (allowed (sent meta c))
      else new_agent_state_event unicode_lower (runes "思考中") false
          (record (sent meta c) { current_state = thinking })

  abbrev pub finished : RuntimeMeta → Controller → Controller
  finished meta c =
      let lifecycle =
        overlaid (if is_empty c.resume_session then runes "inactive" else runes "resumable")
          (normalize_claude_lifecycle meta.claude_lifecycle) in
      set_lifecycle lifecycle (record c {
        current_state = idle;
        current_command = [];
        last_step = [];
        last_tool = [];
        last_log_msg = [];
        last_step_msg = [];
        last_step_status = [];
        last_prompt_msg = [];
      })

  abbrev pub ready : Controller → Controller
  ready c = record c { active_meta = record c.active_meta { blocking_kind = runes "ready" } }

  abbrev pub waiting_message : Controller → Text
  waiting_message c =
      if is_empty (trim_space c.last_prompt_msg) then runes "等待输入" else c.last_prompt_msg

  unfoldable pub on_command_finished : RuntimeMeta → Controller → List AgentStateEvent × Controller
  unfolding take_meta normalize_claude_lifecycle refresh_claude_lifecycle new_agent_state_event
  on_command_finished meta c =
      let c' = take_meta meta c in
      if c'.current_state == wait_input
      then new_agent_state_event unicode_lower (waiting_message c') true
          (ready (refresh_claude_lifecycle unicode_lower c'))
      else new_agent_state_event unicode_lower
          (if is_empty c'.resume_session then runes "空闲" else runes "会话已暂停，可继续对话") false
          (finished meta c')
