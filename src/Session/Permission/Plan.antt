-- ===== src/Session/Permission/Plan.antt =====
-- session/permission_router.go: what is done with the user's decision on a permission prompt.
pub mod Decisions
use vcos.Base.{ℕ, Bool, true, false, not, ◌&&◌, ◌||◌, List, [], ◌∷◌, ◌++◌, if◌then◌else◌, any}
use vcos.Base.Text.{
  Text, runes, ◌==◌, is_empty, trim_space, to_lower, contains, has_suffix, fields, join,
}
use vcos.Session.{
  RuntimeMeta, no_meta, PermissionDecisionRequestEvent, SessionRuntime, ControllerSnapshot,
}
use vcos.Session.Permission.{first_non_empty_string, head_or_empty, shell_kind, write_kind}

pub data PermissionDecisionAction : Type 0 where
  direct deny_then_input auto_then_direct : PermissionDecisionAction

pub record PermissionDecisionPlan : Type 0 where
  pub action : PermissionDecisionAction
  pub decision : Text
  pub meta : RuntimeMeta
  pub prompt : Text

-- The errors: a decision that is missing, and one that is neither approve nor deny.
pub data PlanError : Type 0 where
  decision_required decision_unknown : PlanError

pub data Result {ℓ} (A : Type ℓ) : Type ℓ where
  ok : A → Result A
  err : PlanError → Result A

abbrev pub approve : Text
approve = runes "approve"

abbrev pub deny : Text
deny = runes "deny"

abbrev pub read_kind : Text
read_kind = runes "read"

abbrev newline : Text
newline = 10 ∷ []

-- `if value != "" { lines = append(lines, label + value) }`
abbrev line : Text → Text → List Text
line label value = if is_empty value then [] else (label ++ value) ∷ []

unfoldable pub prompt_lines : PermissionDecisionRequestEvent → List Text
prompt_lines req =
    line (runes "PermissionRequestID: ") req.permission_request_id
    ++ (line (runes "ResumeSessionID: ") req.resume_session_id
        ++ (line (runes "TargetPath: ") req.target_path
            ++ (line (runes "ContextID: ") req.context_id
                ++ (line (runes "ContextTitle: ") req.context_title
                    ++ (line (runes "PermissionMode: ") req.permission_mode
                        ++ line (runes "OriginalPrompt: ") (trim_space req.prompt_message))))))

unfoldable pub subject_of : PermissionDecisionRequestEvent → Text
subject_of req =
    let path = trim_space req.target_path in
    let title = trim_space req.context_title in
    if is_empty path then (if is_empty title then runes "刚才请求的操作" else title) else path

-- The formats of the prompts end alike, in the subject and the lines.
pub prompt_text : Text → PermissionDecisionRequestEvent → Text
unfolding prompt_lines subject_of
prompt_text message req =
    message
    ++ (runes "目标："
        ++ (subject_of req ++ (newline ++ (join (prompt_lines req) newline ++ newline))))

abbrev pub read_approved : Text
read_approved = runes "用户已批准刚才请求的只读/查看权限。请在当前已保存的会话上下文中继续刚才被权限拦截的读取或查看操作，不要执行编辑、写入或其它副作用动作。"

abbrev pub shell_approved : Text
shell_approved = runes "用户已批准刚才请求的命令执行权限。请在当前已保存的会话上下文中继续刚才被权限拦截的命令执行；请重新发起新的命令调用，不要把该权限解释为文件写入任务。"

abbrev pub write_approved : Text
write_approved =
    runes
      "用户已批准刚才请求的文件修改/写入权限。请在当前已保存的会话上下文中继续刚才被权限拦截的任务。执行要求：先重新读取目标文件的当前内容，再基于最新内容继续刚才的修改；只有在重新读取完成后，才重试刚才被拦截的编辑或写入工具调用。不要再次向用户请求同一权限，直接继续完成即可。"

abbrev pub denied : Text
denied = runes "用户拒绝了刚才请求的文件修改/写入权限。请不要继续写入或编辑该目标，并基于当前上下文给出不写文件的替代方案或下一步建议。"

module _ (unicode_lower : ℕ → ℕ) where
  pub permission_decision_intent : PermissionDecisionRequestEvent → Text
  permission_decision_intent req =
      let text = to_lower unicode_lower (
        trim_space (
          join (req.prompt_message ∷ req.fallback_target_type ∷ req.fallback_command ∷ [])
            (runes " "))) in
      if any (contains text) (runes "read" ∷ runes "view" ∷ runes "查看" ∷ runes "读取" ∷ [])
      then read_kind
      else (if any (contains text) (runes "bash" ∷ runes "command" ∷ runes "命令" ∷ [])
          then shell_kind
          else write_kind)

  -- The inner switch, on what is approved.
  pub approved_message : Text → Text
  approved_message intent =
      if intent == read_kind
      then read_approved
      else (if intent == shell_kind then shell_approved else write_approved)

  unfoldable pub build_permission_decision_prompt :
      Text → PermissionDecisionRequestEvent → Result Text
  unfolding prompt_text approved_message permission_decision_intent
  build_permission_decision_prompt given req =
      let decision = trim_space (to_lower unicode_lower given) in
      if is_empty decision
      then err decision_required
      else (if decision == approve
          then ok (prompt_text (approved_message (permission_decision_intent req)) req)
          else (if decision == deny then ok (prompt_text denied req) else err decision_unknown))

  -- The third suffix is a raw string: it has two backslashes.
  unfoldable pub is_claude_head : Text → Bool
  is_claude_head head =
      head == runes "claude"
      || has_suffix head (runes "/claude")
      || has_suffix head (92 ∷ 92 ∷ runes "claude")
      || head == runes "claude.exe"

  -- Without fields the head is empty, which is none of the names.
  unfoldable pub is_claude_command_like : Text → Bool
  unfolding is_claude_head head_or_empty
  is_claude_command_like command =
      is_claude_head
        (to_lower unicode_lower (trim_space (head_or_empty (fields (trim_space command)))))

  unfoldable pub effective_permission_mode :
      PermissionDecisionRequestEvent → SessionRuntime → ControllerSnapshot → Text
  effective_permission_mode req runtime controller =
      let own = trim_space req.permission_mode in
      let active = trim_space controller.active_meta.permission_mode in
      if is_empty own
      then (if is_empty active then trim_space runtime.permission_mode else active)
      else own

  unfoldable pub plan_meta :
      PermissionDecisionRequestEvent → SessionRuntime → ControllerSnapshot → RuntimeMeta
  unfolding effective_permission_mode first_non_empty_string
  plan_meta req runtime controller =
      let active = controller.active_meta in
      let first : List Text → Text = first_non_empty_string in
      record no_meta {
        source = runes "permission-decision";
        resume_session_id = first (
            req.resume_session_id ∷ controller.resume_session ∷ active.resume_session_id
            ∷ runtime.resume_session_id ∷ []);
        context_id = first (req.context_id ∷ active.context_id ∷ []);
        context_title = first (req.context_title ∷ active.context_title ∷ []);
        target_path = first (req.target_path ∷ active.target_path ∷ []);
        target_text = trim_space (to_lower unicode_lower req.decision);
        command = first (
            req.fallback_command ∷ runtime.command ∷ controller.current_command ∷ active.command
            ∷ []);
        engine = first (req.fallback_engine ∷ active.engine ∷ []);
        cwd = first (req.fallback_cwd ∷ active.cwd ∷ runtime.cwd ∷ []);
        target = first (req.fallback_target ∷ active.target ∷ []);
        target_type = first (req.fallback_target_type ∷ active.target_type ∷ []);
        permission_mode = effective_permission_mode req runtime controller;
        permission_request_id = trim_space req.permission_request_id;
      }

  abbrev pub direct_plan : Text → RuntimeMeta → Result PermissionDecisionPlan
  direct_plan decision meta =
      ok (record { action = direct; decision = decision; meta = meta; prompt = [] })

  -- What the plan makes of the prompt.
  abbrev pub deny_plan : Text → RuntimeMeta → Result Text → Result PermissionDecisionPlan
  deny_plan decision meta (err e) = err e
  deny_plan decision meta (ok prompt) =
      ok (record { action = deny_then_input; decision = decision; meta = meta; prompt = prompt })

  unfoldable pub build_permission_decision_plan :
      PermissionDecisionRequestEvent
      → SessionRuntime
      → ControllerSnapshot
      → Result PermissionDecisionPlan
  unfolding plan_meta is_claude_command_like build_permission_decision_prompt
  build_permission_decision_plan req runtime controller =
      let decision = trim_space (to_lower unicode_lower req.decision) in
      let meta = plan_meta req runtime controller in
      if not (is_claude_command_like meta.command)
      then direct_plan decision meta
      else (if decision == deny
          then deny_plan decision meta (build_permission_decision_prompt decision req)
          else direct_plan decision meta)
