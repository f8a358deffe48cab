-- ===== src/Kernel/Eventbus/Bus.antt =====
-- kernel/eventbus/bus.go: the bus in memory. `Publish` takes its cursor and then waits to send, so
-- it is two steps, `assign` and `enqueue`; the dispatcher, the subscribers' goroutines and `Close`
-- run between them in any order. A subscription's handler is what it has been given so far.
pub mod Cursors
pub mod Delivery
pub mod Ids
use vcos.Base.{
  ℕ, zero, suc, ◌+◌, Bool, true, false, not, ◌&&◌, ◌||◌, Option, none, some, List, [], ◌∷◌, ◌++◌,
  map, length, ltb, nat_eq, if◌then◌else◌,
}
use vcos.Base.Text.{Text, runes, is_empty, decimal}
use vcos.Base.Dict.{Dict, lookup, insert, remove}
use vcos.Base.Int.{ℤ, positive_or}
use vcos.Kernel.Eventbus.{Envelope, Filter, matches}

pub record Options : Type 0 where
  pub publish_buffer : ℕ
  pub subscriber_buffer : ℕ

-- `withDefaults`; the time limit of a delivery is the choice `timed_out` of `deliver`.
unfoldable pub with_defaults : ℤ → ℤ → Options
with_defaults publish subscriber = record {
  publish_buffer = positive_or publish 4096;
  subscriber_buffer = positive_or subscriber 256;
}

pub record Subscription : Type 0 where
  pub filter : Filter
  pub queue : List Envelope
  pub handled : List Envelope
  pub dropped : ℕ

-- `publishing` holds the envelopes whose `Publish` has taken its cursor and not yet returned.
-- A subscription that is detached is no longer in `subs`.
pub record Bus : Type 0 where
  pub options : Options
  pub cursor : ℕ
  pub seq : ℕ
  pub subs : Dict Subscription
  pub publishing : List Envelope
  pub inbox : List Envelope
  pub stopped : Bool

unfoldable pub new : Options → Bus
new o = record {
  options = o;
  cursor = 0;
  seq = 0;
  subs = [];
  publishing = [];
  inbox = [];
  stopped = false;
}

-- `Publish` up to `b.cursor.Add(1)`; the cursor is its result.
unfoldable pub assign : ℕ → Envelope → Bus → Bus × ℕ
assign now env b =
    let stamped = if nat_eq env.timestamp 0 then record env { timestamp = now } else env in
    let cursor = suc b.cursor in
    (
      record b { cursor = cursor; publishing = record stamped { cursor = cursor } ∷ b.publishing },
      cursor,
    )

-- The envelope at an index of `publishing`, and the others.
unfoldable pub take_at : ℕ → List Envelope → Option (Envelope × List Envelope)
take_at i [] = none
take_at zero (e ∷ es) = some (e, es)
take_at (suc i) (e ∷ es) = elim (take_at i es) [ none ↦ none | some (x, rest) ↦ some (x, e ∷ rest) ]

send : Bool → Option (Envelope × List Envelope) → Bus → Bus
send give_up none b = b
send give_up (some (e, rest)) b =
    if ltb (length b.inbox) b.options.publish_buffer && not (b.stopped && give_up)
    then record b { publishing = rest; inbox = b.inbox ++ e ∷ [] }
    else (if b.stopped then record b { publishing = rest } else b)

-- The `select` of `Publish` for one of the waiting publishers: a full inbox blocks it, and a stopped
-- bus may let it give up.
unfoldable pub enqueue : ℕ → Bool → Bus → Bus
unfolding send
enqueue i give_up b = send give_up (take_at i b.publishing) b

-- A handler is called outside the locks; its panic is recovered, so each envelope is handled once.
handle_queue : List Envelope → Subscription → Subscription
handle_queue [] s = s
handle_queue (e ∷ rest) s = record s { queue = rest; handled = s.handled ++ e ∷ [] }

-- One round of `subscription.run`.
unfoldable pub handle_one : Subscription → Subscription
unfolding handle_queue
handle_one s = handle_queue s.queue s

-- `deliver`: a full queue makes the dispatcher wait, until the subscriber has handled an envelope or
-- the time is up.
unfoldable pub deliver : ℕ → Bool → Envelope → Subscription → Subscription
deliver capacity timed_out env s =
    if ltb (length s.queue) capacity
    then record s { queue = s.queue ++ env ∷ [] }
    else (if timed_out
        then record s { dropped = suc s.dropped }
        else (let s' = handle_one s in record s' { queue = s'.queue ++ env ∷ [] }))

-- The loop of `dispatch` over the subscriptions: each that matches gets the envelope.
unfoldable pub deliver_all : ℕ → (Text → Bool) → Envelope → Dict Subscription → Dict Subscription
deliver_all capacity slow env [] = []
deliver_all capacity slow env ((id, s) ∷ subs) =
    (id, if matches s.filter env then deliver capacity (slow id) env s else s)
    ∷ deliver_all capacity slow env subs

dispatch_first : (Text → Bool) → List Envelope → Bus → Bus
dispatch_first slow [] b = b
dispatch_first slow (env ∷ rest) b = record b {
  inbox = rest;
  subs = deliver_all b.options.subscriber_buffer slow env b.subs;
}

-- One round of the dispatcher. On a stopped bus its `select` may still choose the inbox.
unfoldable pub dispatch : (Text → Bool) → Bus → Bus
unfolding dispatch_first
dispatch slow b = dispatch_first slow b.inbox b

unfoldable pub subscription_id : Text → ℕ → Text
subscription_id name seq =
    (if is_empty name then runes "sub" else name) ++ (runes "#" ++ decimal seq)

-- A nil handler makes no subscription.
unfoldable pub subscribe : Text → Filter → Bool → Bus → Bus × Option Text
subscribe name f has_handler b =
    if has_handler
    then (let seq = suc b.seq in
        let id = subscription_id name seq in
        let s : Subscription = record { filter = f; queue = []; handled = []; dropped = 0 } in
        (record b { seq = seq; subs = insert id s b.subs }, some id))
    else (b, none)

unfoldable pub detach : Text → Bus → Bus
detach id b = record b { subs = remove id b.subs }

-- A subscriber's goroutine takes its turn.
unfoldable pub handle : Text → Bus → Bus
handle id b = elim (lookup id b.subs) [
  | none ↦ b
  | some s ↦ record b { subs = insert id (handle_one s) b.subs }
]

unfoldable pub close : Bus → Bus
close b = if b.stopped then b else record b { stopped = true; subs = [] }

pub data Call : Type 0 where
  assigns : (now : ℕ) → Envelope → Call
  enqueues : (index : ℕ) (give_up : Bool) → Call
  dispatches : (slow : Text → Bool) → Call
  subscribes : (name : Text) → Filter → (has_handler : Bool) → Call
  detaches handles : (id : Text) → Call
  closes : Call

unfoldable pub step : Bus → Call → Bus
step b (assigns now env) = (assign now env b).0
step b (enqueues i give_up) = enqueue i give_up b
step b (dispatches slow) = dispatch slow b
step b (subscribes name f has_handler) = (subscribe name f has_handler b).0
step b (detaches id) = detach id b
step b (handles id) = handle id b
step b closes = close b

unfoldable pub run : Bus → List Call → Bus
run b [] = b
run b (c ∷ cs) = run (step b c) cs
