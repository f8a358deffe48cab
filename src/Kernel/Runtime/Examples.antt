-- ===== src/Kernel/Runtime/Examples.antt =====
-- Runs of a session's runtime, and its theorems at concrete states.
use mathlib.Core.List.Perm
use vcos.Base.{◌≡◌, ◌≤◌, ◌*◌, ℕ, refl, arith, List, [], ◌∷◌, ◌++◌, length, keep, drop}
use vcos.Base.Text.{Text, runes}
use vcos.Base.Int.{pos}
use vcos.Base.Dict.{Dict}
use vcos.Kernel.Eventbus.Topic.{Event, EventKind, of_event, log_event, task_snapshot_event}
use vcos.Kernel.Runtime.{
  RuntimeEvent, RuntimeSession, new_runtime_session, pending_since, mark_client_action,
  pending_limit, to_processor, apply_event_cursor, append_pending, listener_count,
}
use vcos.Kernel.Runtime.Replay.{append_all, numbered, shown, replay_complete}
use vcos.Kernel.Runtime.Actions.{Shuffles, mark_client_action_bounded, accepts, accepted_once}
use vcos.Kernel.Runtime.Sink.{run, send_all, drain_all, serving, sink_in_order}

abbrev at_session : Event
at_session = record {
  type = runes "log";
  session_id = runes "s1";
  execution_id = [];
  blocking_kind = [];
}

abbrev of_kind : EventKind → RuntimeEvent
of_kind k = record { payload = of_event k at_session; event_cursor = 0; permission_request_id = [] }

abbrev three : List (ℕ × RuntimeEvent)
three = (5, of_kind log_event) ∷ (6, of_kind task_snapshot_event) ∷ (7, of_kind log_event) ∷ []

-- Of the three events, the client that has seen none gets the first and the third.
snapshot_not_replayed :
    pending_since (pos 0) (append_all three (new_runtime_session 0))
    ≡ apply_event_cursor (of_kind log_event) 1 ∷ apply_event_cursor (of_kind log_event) 3 ∷ []
unfolding pending_since append_pending new_runtime_session
snapshot_not_replayed = refl

replay_complete_example :
    pending_since (pos 1) (append_all three (new_runtime_session 0))
    ≡ keep shown (drop 1 (numbered 0 three))
replay_complete_example = replay_complete 0 three 1 (omega arith)

abbrev as_is : Dict ℕ → Dict ℕ
as_is m = m

as_is-Shuffles : Shuffles as_is
as_is-Shuffles m = Perm.refl m

mark_client_action_bounded_example :
    length (mark_client_action as_is 7 (runes "a1") (new_runtime_session 0)).1.client_actions
    ≤ pending_limit * 4
unfolding new_runtime_session
mark_client_action_bounded_example =
    mark_client_action_bounded as_is as_is-Shuffles 7 (runes "a1") (new_runtime_session 0)
      (omega arith)

abbrev twice : List (ℕ × Text)
twice = (5, runes "a1") ∷ (6, runes "a2") ∷ (7, runes " a1 ") ∷ []

accepted_once_example : accepts as_is (runes "a1") twice (new_runtime_session 0) ≤ 1
accepted_once_example = accepted_once as_is 0 (runes "a1") twice refl (omega arith)

abbrev heard : RuntimeSession
heard = record (new_runtime_session 0) { listeners = (runes "phone", 1) ∷ [] }

abbrev log : RuntimeEvent
log = of_kind log_event

abbrev snapshot : RuntimeEvent
snapshot = of_kind task_snapshot_event

sink_in_order_example :
    (run
      (send_all (log ∷ []) ++ drain_all (snapshot ∷ log ∷ []) 9)
      (serving heard 4 (snapshot ∷ []))).1
    ≡ to_processor 4 snapshot ∷ to_processor 4 log ∷ []
unfolding listener_count
sink_in_order_example =
    sink_in_order (log ∷ []) (snapshot ∷ []) 4 9 heard (omega arith) (refl, tt) (omega arith)
