-- ===== src/Kernel/Eventbus/Examples.antt =====
-- Runs of the bus, and its theorems at concrete states.
use vcos.Base.{◌≡◌, ◌⊎◌, ◌<◌, ◌≤◌, refl, arith, List, [], ◌∷◌, some, true, false}
use vcos.Base.Text.{runes, decimal, ◌==◌}
use vcos.Base.Dict.{lookup, insert}
use vcos.Kernel.Eventbus.{session, kernel, user, Envelope, Filter, contains_source, matches}
use vcos.Kernel.Eventbus.Topic.{Event, log_event, adb_frame_event, of_event, session_id_of}
use vcos.Kernel.Eventbus.Bus.{
  Bus, Options, Subscription, Call, assigns, enqueues, dispatches, subscribes, handles, new, assign,
  take_at, enqueue, handle_one, deliver, deliver_all, dispatch, subscription_id, subscribe, handle,
  step, run,
}
use vcos.Kernel.Eventbus.Bus.Cursors.{count, handled_once}
use vcos.Kernel.Eventbus.Bus.Delivery.{Delivered, Serves, dispatch_delivers, run-new-Serves}

abbrev log : Event
log = record {
  type = runes "log";
  session_id = runes "s1";
  execution_id = runes "e1";
  blocking_kind = [];
}

abbrev logged : Envelope
logged = record {
  cursor = 1;
  source = session;
  topic = runes "log";
  session_id = runes "s1";
  timestamp = 5;
  payload = of_event log_event log;
}

abbrev of_sessions : Filter
of_sessions = record { sources = session ∷ kernel ∷ []; topics = []; session_ids = [] }

rejected : matches of_sessions (record logged { source = user }) ≡ false
unfolding matches contains_source
rejected = refl

adb_lost : session_id_of (of_event adb_frame_event log) ≡ []
unfolding session_id_of
adb_lost = refl

abbrev small : Options
small = record { publish_buffer = 2; subscriber_buffer = 1 }

abbrev one_round : List Call
one_round =
    subscribes (runes "w") of_sessions true
    ∷ assigns 5 logged
    ∷ enqueues 0 false
    ∷ dispatches (λ _. false)
    ∷ handles (runes "w#1")
    ∷ []

-- The one subscription after its round.
abbrev served : Subscription
served = record { filter = of_sessions; queue = []; handled = logged ∷ []; dropped = 0 }

one_round_lem : lookup (runes "w#1") (run (new small) one_round).subs ≡ some served
unfolding run step new assign enqueue take_at dispatch deliver_all deliver matches contains_source
    subscribe subscription_id decimal handle handle_one lookup insert ◌==◌
one_round_lem = refl

-- Two publishers send in the other order than they took their cursors.
abbrev crossed : List Call
crossed = assigns 5 logged ∷ assigns 6 logged ∷ enqueues 0 false ∷ enqueues 0 false ∷ []

crossed_lem :
    (run (new small) crossed).inbox
    ≡ record logged { cursor = 2 } ∷ record logged { cursor = 1 } ∷ []
unfolding run step new assign enqueue take_at
crossed_lem = refl

handled_once_example :
    (count 1 served.handled ≤ 1)
    × ((run (new small) one_round).cursor < 1 → count 1 served.handled ≡ 0)
handled_once_example = handled_once small one_round (runes "w#1") served 1 one_round_lem

run-new-Serves_example : Serves (run (new small) one_round)
run-new-Serves_example = run-new-Serves small one_round (omega arith)

abbrev idle_subscription : Subscription
idle_subscription = record { filter = of_sessions; queue = []; handled = []; dropped = 0 }

abbrev ready : Bus
ready = record {
  options = small;
  cursor = 1;
  seq = 1;
  subs = (runes "w#1", idle_subscription) ∷ [];
  publishing = [];
  inbox = logged ∷ [];
  stopped = false;
}

dispatch_delivers_example :
    (s' : Subscription) × (lookup (runes "w#1") (dispatch (λ _. true) ready).subs ≡ some s')
    × (((matches of_sessions logged ≡ false) × (s' ≡ idle_subscription))
        ⊎ ((matches of_sessions logged ≡ true)
            × Delivered small.subscriber_buffer true logged idle_subscription s'))
unfolding lookup ◌==◌
dispatch_delivers_example =
    (dispatch_delivers (λ _. true) ready logged [] (runes "w#1") idle_subscription refl refl).1
