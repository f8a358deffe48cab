-- ===== src/Session/Permission.antt =====
-- session/permission_rules.go: what a permission prompt asks for, and which rule answers it. Of the
-- projection only the session's runtime is read.
pub mod Matching
pub mod Plan
pub mod Editing
pub mod Prompts
mod Examples
use vcos.Base.{
  ℕ, suc, Bool, true, false, not, ◌&&◌, ◌||◌, List, [], ◌∷◌, ◌++◌, map, Option, none, some,
  if◌then◌else◌, any, leb, length,
}
use vcos.Base.Text.{Text, runes, ◌==◌, is_empty, trim_space, to_lower, contains, has_prefix, fields}
use vcos.Session.{
  RuntimeMeta, PermissionDecisionRequestEvent, PromptRequestEvent, InteractionAction,
  InteractionRequestEvent, SessionRuntime, ControllerSnapshot, PermissionRule,
}

pub record PermissionMatchContext : Type 0 where
  pub engine : Text
  pub kind : Text
  pub command_head : Text
  pub target_path : Text

pub first_non_empty_string : List Text → Text
first_non_empty_string [] = []
first_non_empty_string (v ∷ vs) =
    let rest = first_non_empty_string vs in if is_empty (trim_space v) then rest else trim_space v

abbrev pub network_kind : Text
network_kind = runes "network"

abbrev pub shell_kind : Text
shell_kind = runes "shell"

abbrev pub write_kind : Text
write_kind = runes "write"

abbrev pub generic_kind : Text
generic_kind = runes "generic"

abbrev pub network_words : List Text
network_words = runes "network" ∷ runes "联网" ∷ runes "网络" ∷ []

abbrev pub command_words : List Text
command_words = runes "command" ∷ runes "命令" ∷ []

abbrev pub write_words : List Text
write_words = runes "修改文件" ∷ runes "write" ∷ runes "edit" ∷ runes "文件" ∷ []

abbrev pub any_engine : Text
any_engine = runes "any"

pub head_or_empty : List Text → Text
head_or_empty [] = []
head_or_empty (w ∷ ws) = w

-- The guards of the loop of MatchPermissionRule.
pub matches_rule : PermissionMatchContext → PermissionRule → Bool
matches_rule ctx item =
    item.enabled
    && (is_empty item.engine || item.engine == any_engine || item.engine == ctx.engine)
    && (is_empty item.kind || item.kind == generic_kind || item.kind == ctx.kind)
    && (is_empty item.command_head || item.command_head == ctx.command_head)
    && (is_empty item.target_path_prefix || has_prefix ctx.target_path item.target_path_prefix)

pub match_permission_rule : List PermissionRule → PermissionMatchContext → Option PermissionRule
unfolding matches_rule
match_permission_rule [] ctx = none
match_permission_rule (item ∷ items) ctx =
    let rest = match_permission_rule items ctx in if matches_rule ctx item then some item else rest

abbrev pub count_match : ℕ → Text → PermissionRule → PermissionRule
count_match now id item =
    if item.id == id
    then record item { match_count = suc item.match_count; last_matched_at = now }
    else item

pub mark_permission_rule_matched : ℕ → List PermissionRule → Text → List PermissionRule
mark_permission_rule_matched now [] id = []
mark_permission_rule_matched now (item ∷ items) id =
    count_match now id item ∷ mark_permission_rule_matched now items id

pub permission_rule_id : PermissionRule → Text
permission_rule_id rule =
    trim_space rule.scope
    ++ (runes "|"
        ++ (trim_space rule.engine
            ++ (runes "|"
                ++ (trim_space rule.kind
                    ++ (runes "|"
                        ++ (trim_space rule.command_head
                            ++ (runes "|" ++ trim_space rule.target_path_prefix)))))))

unfoldable pub build_permission_decision_from_event :
    Text → RuntimeMeta → SessionRuntime → ControllerSnapshot → PermissionDecisionRequestEvent
build_permission_decision_from_event message meta runtime controller =
    let active = controller.active_meta in
    record {
      action = runes "permission_decision";
      decision = runes "approve";
      scope = [];
      permission_mode =
          first_non_empty_string
            (meta.permission_mode ∷ active.permission_mode ∷ runtime.permission_mode ∷ []);
      permission_request_id = trim_space meta.permission_request_id;
      resume_session_id = first_non_empty_string (
          meta.resume_session_id ∷ controller.resume_session ∷ active.resume_session_id
          ∷ runtime.resume_session_id ∷ []);
      target_path = trim_space meta.target_path;
      context_id = trim_space meta.context_id;
      context_title = trim_space meta.context_title;
      prompt_message = trim_space message;
      fallback_command =
          first_non_empty_string
            (meta.command ∷ runtime.command ∷ controller.current_command ∷ active.command ∷ []);
      fallback_cwd = first_non_empty_string (meta.cwd ∷ active.cwd ∷ runtime.cwd ∷ []);
      fallback_engine = first_non_empty_string (meta.engine ∷ active.engine ∷ runtime.engine ∷ []);
      fallback_target = trim_space meta.target;
      fallback_target_type = trim_space meta.target_type;
    }

module _ (unicode_lower : ℕ → ℕ) where
  pub classify_permission_kind : Text → Text → Text → Text
  classify_permission_kind prompt_message target_path command =
      let prompt = to_lower unicode_lower (trim_space prompt_message) in
      let lower_command = to_lower unicode_lower (trim_space command) in
      if any (contains prompt) network_words
      then network_kind
      else (if any (contains prompt) command_words
            || (not (is_empty (trim_space lower_command)) && is_empty target_path)
          then shell_kind
          else (if any (contains prompt) write_words then write_kind else generic_kind))

  unfoldable pub permission_command_head : Text → Text
  unfolding head_or_empty
  permission_command_head command =
      head_or_empty (fields (trim_space (to_lower unicode_lower command)))

  -- `if engine == "" { engine = "any" }`
  abbrev pub engine_or_any : Text → Text
  engine_or_any name =
      let engine = trim_space (to_lower unicode_lower name) in
      if is_empty engine then any_engine else engine

  pub permission_context_from_decision :
      PermissionDecisionRequestEvent → SessionRuntime → ControllerSnapshot → PermissionMatchContext
  unfolding first_non_empty_string classify_permission_kind permission_command_head
  permission_context_from_decision req runtime controller =
      let active = controller.active_meta in
      let command = first_non_empty_string (
        req.fallback_command ∷ runtime.command ∷ controller.current_command ∷ active.command
        ∷ []) in
      let target_path =
        first_non_empty_string (req.target_path ∷ active.target_path ∷ runtime.cwd ∷ []) in
      record {
        engine =
            engine_or_any
              (first_non_empty_string (req.fallback_engine ∷ active.engine ∷ runtime.engine ∷ []));
        kind = classify_permission_kind req.prompt_message target_path command;
        command_head = permission_command_head command;
        target_path = target_path;
      }

  pub permission_context_from_prompt :
      Text → RuntimeMeta → SessionRuntime → ControllerSnapshot → PermissionMatchContext
  unfolding first_non_empty_string classify_permission_kind permission_command_head
  permission_context_from_prompt prompt_message meta runtime controller =
      let active = controller.active_meta in
      let command =
        first_non_empty_string
          (meta.command ∷ runtime.command ∷ controller.current_command ∷ active.command ∷ []) in
      let target_path = first_non_empty_string (meta.target_path ∷ active.target_path ∷ []) in
      record {
        engine =
            engine_or_any
              (first_non_empty_string (meta.engine ∷ active.engine ∷ runtime.engine ∷ []));
        kind = classify_permission_kind prompt_message target_path command;
        command_head = permission_command_head command;
        target_path = target_path;
      }

  -- `summarize` stands for SummarizePermissionRule, whose text can hold a byte that is not UTF-8.
  pub build_permission_rule :
      (PermissionMatchContext → Text)
      → ℕ
      → PermissionDecisionRequestEvent
      → Text
      → SessionRuntime
      → ControllerSnapshot
      → PermissionRule
  unfolding permission_context_from_decision permission_rule_id
  build_permission_rule summarize now req scope runtime controller =
      let ctx = permission_context_from_decision req runtime controller in
      let trimmed = trim_space scope in
      let rule : PermissionRule = record {
        id = [];
        scope = if is_empty trimmed then runes "session" else trimmed;
        enabled = true;
        engine = ctx.engine;
        kind = ctx.kind;
        command_head = ctx.command_head;
        target_path_prefix = trim_space req.target_path;
        summary = summarize ctx;
        created_at = now;
        last_matched_at = 0;
        match_count = 0;
      } in
      record rule { id = permission_rule_id rule }
