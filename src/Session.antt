-- ===== src/Session.antt =====
-- The data of session/ that the permission rules read: protocol/event.go (RuntimeMeta and the
-- requests), data/store.go (the runtime of a session) and session/info.go (the controller).
pub mod Permission
pub mod Controller
use vcos.Base.{ℕ, Bool, List, []}
use vcos.Base.Text.{Text}

pub record RuntimeMeta : Type 0 where
  pub source : Text
  pub skill_name : Text
  pub target : Text
  pub target_type : Text
  pub target_path : Text
  pub result_view : Text
  pub resume_session_id : Text
  pub execution_id : Text
  pub group_id : Text
  pub group_title : Text
  pub context_id : Text
  pub context_title : Text
  pub target_text : Text
  pub command : Text
  pub engine : Text
  pub model : Text
  pub reasoning_effort : Text
  pub cwd : Text
  pub permission_mode : Text
  pub permission_request_id : Text
  pub claude_session_uuid : Text
  pub claude_lifecycle : Text
  pub blocking_kind : Text

-- RuntimeMeta{}
abbrev pub no_meta : RuntimeMeta
no_meta = record {
  source = [];
  skill_name = [];
  target = [];
  target_type = [];
  target_path = [];
  result_view = [];
  resume_session_id = [];
  execution_id = [];
  group_id = [];
  group_title = [];
  context_id = [];
  context_title = [];
  target_text = [];
  command = [];
  engine = [];
  model = [];
  reasoning_effort = [];
  cwd = [];
  permission_mode = [];
  permission_request_id = [];
  claude_session_uuid = [];
  claude_lifecycle = [];
  blocking_kind = [];
}

-- The embedded ClientEvent by its action.
pub record PermissionDecisionRequestEvent : Type 0 where
  pub action : Text
  pub decision : Text
  pub scope : Text
  pub permission_mode : Text
  pub permission_request_id : Text
  pub resume_session_id : Text
  pub target_path : Text
  pub context_id : Text
  pub context_title : Text
  pub prompt_message : Text
  pub fallback_command : Text
  pub fallback_cwd : Text
  pub fallback_engine : Text
  pub fallback_target : Text
  pub fallback_target_type : Text

-- The fields of these events that the permission rules read.
pub record PromptRequestEvent : Type 0 where
  pub runtime_meta : RuntimeMeta
  pub message : Text
  pub options : List Text

pub record InteractionAction : Type 0 where
  pub label : Text
  pub value : Text
  pub decision : Text

pub record InteractionRequestEvent : Type 0 where
  pub runtime_meta : RuntimeMeta
  pub kind : Text
  pub title : Text
  pub message : Text
  pub actions : List InteractionAction
  pub target_path : Text

pub record SessionRuntime : Type 0 where
  pub resume_session_id : Text
  pub command : Text
  pub engine : Text
  pub permission_mode : Text
  pub cwd : Text
  pub claude_lifecycle : Text
  pub source : Text

pub record ControllerSnapshot : Type 0 where
  pub current_command : Text
  pub resume_session : Text
  pub active_meta : RuntimeMeta

-- A time 0 is the zero time. Scopes and kinds are Go strings.
pub record PermissionRule : Type 0 where
  pub id : Text
  pub scope : Text
  pub enabled : Bool
  pub engine : Text
  pub kind : Text
  pub command_head : Text
  pub target_path_prefix : Text
  pub summary : Text
  pub created_at : ℕ
  pub last_matched_at : ℕ
  pub match_count : ℕ
