-- ===== src/Kernel/Runtime.antt =====
-- kernel/registry.go, RuntimeSession: the events that a session keeps for clients that come back,
-- the client's actions that it has seen, its listeners and its buffered sink. A listener and a
-- processor are known by a number. A session has an identity, its pointer. The Go mutexes make each
-- function here one step; what leaves a session is a list of deliveries.
pub mod Replay
pub mod Actions
pub mod Sink
mod Examples
use vcos.Base.{
  ℕ, suc, ◌+◌, ◌-◌, ◌*◌, Bool, true, false, not, ◌&&◌, ◌||◌, List, [], ◌∷◌, ◌++◌, map, Option, none,
  some, if◌then◌else◌, leb, ltb, nat_eq, length, keep, drop,
}
use vcos.Base.Text.{Text, runes, ◌==◌, is_empty, trim_space}
use vcos.Base.Dict.{Dict, lookup, insert, remove}
use vcos.Base.Int.{ℤ, pos, negsuc}
use vcos.Kernel.Eventbus.Topic.{Payload, EventKind, of_event, of_error, of_other, of_nil}

-- A payload with the cursor that stands in its Event, and for a prompt the permission it asks for.
pub record RuntimeEvent : Type 0 where
  pub payload : Payload
  pub event_cursor : ℕ
  pub permission_request_id : Text

abbrev pub present : RuntimeEvent → Bool
present e = elim e.payload [ of_nil ↦ false | _ ↦ true ]

-- The event types that ApplyEventCursor does not list.
abbrev pub kind_takes_cursor : EventKind → Bool
kind_takes_cursor EventKind.client_action_ack_event = false
kind_takes_cursor EventKind.adb_devices_result_event = false
kind_takes_cursor EventKind.adb_stream_state_event = false
kind_takes_cursor EventKind.adb_frame_event = false
kind_takes_cursor EventKind.adb_webrtc_answer_event = false
kind_takes_cursor EventKind.adb_webrtc_state_event = false
kind_takes_cursor _ = true

abbrev takes_cursor : Payload → Bool
takes_cursor (of_event k e) = kind_takes_cursor k
takes_cursor (of_error e message code) = true
takes_cursor _ = false

unfoldable pub apply_event_cursor : RuntimeEvent → ℕ → RuntimeEvent
apply_event_cursor e cursor =
    if nat_eq cursor 0
    then e
    else if takes_cursor e.payload
    then record e { event_cursor = cursor }
    else e

-- EventCursorFromEvent lists two types less.
abbrev pub kind_shows_cursor : EventKind → Bool
kind_shows_cursor EventKind.session_delta_event = false
kind_shows_cursor EventKind.task_snapshot_event = false
kind_shows_cursor k = kind_takes_cursor k

abbrev pub shows_cursor : Payload → Bool
shows_cursor (of_event k e) = kind_shows_cursor k
shows_cursor (of_error e message code) = true
shows_cursor _ = false

unfoldable pub event_cursor_from_event : RuntimeEvent → ℕ
event_cursor_from_event e = if shows_cursor e.payload then e.event_cursor else 0

-- `sink` is the content of sinkCh, if there is a channel, and `sink_fn` the processor.
-- `release_timer` is the time at which the pending timer is due.
pub record RuntimeSession : Type 0 where
  pub identity : ℕ
  pub listeners : Dict ℕ
  pub release_timer : Option ℕ
  pub pending_cursor : ℕ
  pub pending_events : List RuntimeEvent
  pub last_output_at : ℕ
  pub client_actions : Dict ℕ
  pub persisted_cursor : ℕ
  pub sink : Option (List RuntimeEvent)
  pub sink_fn : Option ℕ
  pub sink_closed : Bool

abbrev pub pending_limit : ℕ
pending_limit = 512

abbrev pub sink_buffer_size : ℕ
sink_buffer_size = 1024

unfoldable pub new_runtime_session : ℕ → RuntimeSession
new_runtime_session identity = record {
  identity = identity;
  listeners = [];
  release_timer = none;
  pending_cursor = 0;
  pending_events = [];
  last_output_at = 0;
  client_actions = [];
  persisted_cursor = 0;
  sink = none;
  sink_fn = none;
  sink_closed = false;
}

unfoldable pub set_listener : Text → Option ℕ → RuntimeSession → RuntimeSession
set_listener id none s = s
set_listener id (some l) s =
    if is_empty (trim_space id) then s else record s { listeners = insert id l s.listeners }

unfoldable pub remove_listener : Text → RuntimeSession → RuntimeSession
remove_listener id s =
    if is_empty (trim_space id) then s else record s { listeners = remove id s.listeners }

unfoldable pub listener_count : RuntimeSession → ℕ
listener_count s = length s.listeners

-- Keeping at most the last `n` items, as `xs[len(xs)-n:]` does where there are more.
abbrev pub last_n {ℓ} : {A : Type ℓ} → ℕ → List A → List A
last_n n xs = drop (length xs - n) xs

-- nil is not appended.
unfoldable pub append_pending : ℕ → RuntimeEvent → RuntimeSession → RuntimeSession
unfolding apply_event_cursor
append_pending now e s =
    if present e
    then record s {
      pending_cursor = s.pending_cursor + 1;
      last_output_at = now;
      pending_events =
          last_n pending_limit
            (s.pending_events ++ apply_event_cursor e (s.pending_cursor + 1) ∷ []);
    }
    else s

unfoldable pub mark_persisted : ℤ → RuntimeSession → RuntimeSession
mark_persisted (pos n) s = if nat_eq n 0 then s else record s { persisted_cursor = n }
mark_persisted (negsuc n) s = s

-- The event comes after the cursor: the negation of `EventCursorFromEvent(event) <= cursor`.
abbrev pub later : ℤ → RuntimeEvent → Bool
later (pos c) e = not (leb (event_cursor_from_event e) c)
later (negsuc c) e = true

unfoldable pub pending_since : ℤ → RuntimeSession → List RuntimeEvent
unfolding event_cursor_from_event
pending_since cursor s = keep (later cursor) s.pending_events

abbrev is_prompt : RuntimeEvent → Bool
is_prompt e = elim e.payload [
  | of_event k base ↦ elim k [ EventKind.prompt_request_event ↦ true | _ ↦ false ]
  | _ ↦ false
]

abbrev blocking_kind_of : Payload → Text
blocking_kind_of (of_event k e) = e.blocking_kind
blocking_kind_of _ = []

-- The last item that passes a test: a loop from the end.
abbrev pub find_last : (RuntimeEvent → Bool) → List RuntimeEvent → Option RuntimeEvent
find_last p [] = none
find_last p (e ∷ es) = elim (find_last p es) [
  | none ↦ if p e then some e else none
  | some found ↦ some found
]

abbrev asks_for : Text → RuntimeEvent → Bool
asks_for request_id e =
    is_prompt e
    && trim_space (blocking_kind_of e.payload) == runes "permission"
    && trim_space e.permission_request_id == request_id

unfoldable pub latest_pending_permission_prompt : Text → RuntimeSession → Option RuntimeEvent
latest_pending_permission_prompt id s =
    let request_id = trim_space id in
    if is_empty request_id then none else find_last (asks_for request_id) s.pending_events

unfoldable pub latest_pending_prompt : RuntimeSession → Option RuntimeEvent
latest_pending_prompt s = find_last is_prompt s.pending_events

-- 2 hours
abbrev pub two_hours : ℕ
two_hours = 7200000000000

-- `if len(actions) > limit`, over entries last seen before the cutoff.
abbrev drop_old : ℕ → Dict ℕ → Dict ℕ
drop_old cutoff m =
    if ltb (pending_limit * 4) (length m) then keep (λ x. not (ltb x.1 cutoff)) m else m

-- `shuffle` is the order in which Go iterates over the map: the first entries of it go until half
-- of the limit is left.
abbrev evict : (Dict ℕ → Dict ℕ) → Dict ℕ → Dict ℕ
evict shuffle m =
    if ltb (pending_limit * 4) (length m)
    then drop (length m - pending_limit * 2) (shuffle m)
    else m

abbrev note_action :
    (Dict ℕ → Dict ℕ) → ℕ → Text → Option ℕ → RuntimeSession → Bool × RuntimeSession
note_action shuffle now id (some seen) s = (false, s)
note_action shuffle now id none s = (
  true,
  record s {
    client_actions = evict shuffle (drop_old (now - two_hours) (insert id now s.client_actions));
  },
)

unfoldable pub mark_client_action :
    (Dict ℕ → Dict ℕ) → ℕ → Text → RuntimeSession → Bool × RuntimeSession
mark_client_action shuffle now client_action_id s =
    let id = trim_space client_action_id in
    if is_empty id then (true, s) else note_action shuffle now id (lookup id s.client_actions) s

-- What a session hands out: an event to a listener, or to the processor of its sink.
pub data Delivery : Type 0 where
  to_listener : ℕ → RuntimeEvent → Delivery
  to_processor : ℕ → RuntimeEvent → Delivery

-- Emit, to the listeners that it finds.
unfoldable pub emit : ℕ → RuntimeEvent → RuntimeSession → RuntimeSession × List Delivery
emit now e s = (record s { last_output_at = now }, map (λ x. to_listener x.1 e) s.listeners)

abbrev or_keep : Option ℕ → Option ℕ → Option ℕ
or_keep none old = old
or_keep (some new) old = some new

abbrev or_make : Option (List RuntimeEvent) → List RuntimeEvent
or_make none = []
or_make (some es) = es

unfoldable pub ensure_buffered_sink_with_processor : Option ℕ → RuntimeSession → RuntimeSession
ensure_buffered_sink_with_processor processor s =
    if s.sink_closed
    then s
    else record s { sink_fn = or_keep processor s.sink_fn; sink = some (or_make s.sink) }

abbrev offer : RuntimeEvent → Option (List RuntimeEvent) → RuntimeSession → RuntimeSession
offer e none s = s
offer e (some es) s =
    if ltb (length es) sink_buffer_size then record s { sink = some (es ++ e ∷ []) } else s

abbrev process : RuntimeEvent → Option ℕ → RuntimeSession → RuntimeSession × List Delivery
process e none s = (offer e s.sink s, [])
process e (some p) s = (s, to_processor p e ∷ [])

-- The function that the sink returns. A send on a full channel is given up after two seconds in
-- which nothing is received; `recover` swallows the panic of a send on a closed one. The listeners, the
-- processor and the channel are read in critical sections of their own, and the send comes after
-- them: this is the call in which no other goroutine changes the session in between.
unfoldable pub sink_event : RuntimeEvent → RuntimeSession → RuntimeSession × List Delivery
unfolding listener_count
sink_event e s =
    if not (present e) || s.sink_closed
    then (s, [])
    else if nat_eq (listener_count s) 0
    then process e s.sink_fn s
    else (offer e s.sink s, [])

abbrev deliver_buffered :
    ℕ → RuntimeEvent → Option ℕ → RuntimeSession → RuntimeSession × List Delivery
deliver_buffered now e none s = emit now e s
deliver_buffered now e (some p) s = (s, to_processor p e ∷ [])

unfoldable pub emit_buffered_event :
    ℕ → RuntimeEvent → RuntimeSession → RuntimeSession × List Delivery
unfolding emit
emit_buffered_event now e s = if s.sink_closed then (s, []) else deliver_buffered now e s.sink_fn s

-- The goroutine of the sink takes the oldest event.
unfoldable pub drain : ℕ → RuntimeSession → RuntimeSession × List Delivery
unfolding emit_buffered_event
drain now s = elim s.sink [
  | none ↦ (s, [])
  | some es ↦ elim es [
    | [] ↦ (s, [])
    | e ∷ later' ↦ emit_buffered_event now e (record s { sink = some later' })
  ]
]

unfoldable pub shutdown_sink : RuntimeSession → RuntimeSession
shutdown_sink s =
    if s.sink_closed then s else record s { sink_closed = true; sink_fn = none; sink = none }
