-- ===== src/Kernel/Eventbus/Topic.antt =====
-- kernel/eventbus/topic.go, and `executionIDOf` of kernel/watchdog/watchdog.go: what is read off an
-- event's payload. A payload is one of the event types of protocol/event.go by value, of which the
-- embedded `Event` is modelled by the fields that the kernel reads or writes; a value of any other
-- type, by its type's name; or nil.
use vcos.Base.{Bool, true, false, [], if◌then◌else◌}
use vcos.Base.Text.{Text}

-- The types that `TopicOf` lists, but for `ErrorEvent`.
pub data EventKind : Type 0 where
  event log_event progress_event client_action_ack_event prompt_request_event : EventKind
  interaction_request_event session_state_event agent_state_event ai_status_event : EventKind
  runtime_phase_event task_snapshot_event step_update_event file_diff_event : EventKind
  fs_list_result_event fs_read_result_event session_created_event : EventKind
  session_list_result_event session_history_event session_delta_event : EventKind
  session_resume_result_event session_resume_notice_event review_state_event : EventKind
  skill_catalog_result_event memory_list_result_event : EventKind
  catalog_authoring_result_event session_context_result_event : EventKind
  permission_rule_list_result_event permission_auto_applied_event : EventKind
  skill_sync_result_event catalog_sync_status_event catalog_sync_result_event : EventKind
  runtime_info_result_event runtime_process_list_result_event : EventKind
  runtime_process_log_result_event adb_devices_result_event adb_stream_state_event : EventKind
  adb_frame_event adb_webrtc_answer_event adb_webrtc_state_event : EventKind

pub record Event : Type 0 where
  pub type : Text
  pub session_id : Text
  pub execution_id : Text
  pub blocking_kind : Text

pub data Payload : Type 0 where
  of_event : EventKind → Event → Payload
  of_error : (base : Event) (message code : Text) → Payload
  of_other : (type_name : Text) → Payload
  of_nil : Payload

unfoldable pub topic_of : Payload → Text
topic_of (of_event k e) = e.type
topic_of (of_error e message code) = e.type
topic_of (of_other name) = name
topic_of of_nil = []

-- The event types that `SessionIDOf` does not list.
abbrev pub is_adb : EventKind → Bool
is_adb adb_devices_result_event = true
is_adb adb_stream_state_event = true
is_adb adb_frame_event = true
is_adb adb_webrtc_answer_event = true
is_adb adb_webrtc_state_event = true
is_adb _ = false

unfoldable pub session_id_of : Payload → Text
session_id_of (of_event k e) = if is_adb k then [] else e.session_id
session_id_of (of_error e message code) = e.session_id
session_id_of (of_other name) = []
session_id_of of_nil = []

-- The event types that `executionIDOf` lists.
abbrev pub is_activity : EventKind → Bool
is_activity log_event = true
is_activity progress_event = true
is_activity agent_state_event = true
is_activity ai_status_event = true
is_activity runtime_phase_event = true
is_activity step_update_event = true
is_activity file_diff_event = true
is_activity interaction_request_event = true
is_activity prompt_request_event = true
is_activity _ = false

unfoldable pub execution_id_of : Payload → Text
execution_id_of (of_event k e) = if is_activity k then e.execution_id else []
execution_id_of (of_error e message code) = e.execution_id
execution_id_of (of_other name) = []
execution_id_of of_nil = []
