-- ===== src/Kernel/Eventbus/Bus/Delivery.antt =====
-- What the subscribers of kernel/eventbus/bus.go are given: envelopes that match, in order, or
-- counted as dropped.
use vcos.Base.{
  ℕ, suc, ◌-◌, ◌≤◌, ◌<◌, ◌≡◌, ◌⊎◌, refl, sym, ap, ◌∙◌, Bool, true, false, not, ◌&&◌, Option, none,
  some, List, [], ◌∷◌, ◌++◌, append_assoc, arith, length, length-append, All, All-append, ltb,
  if◌then◌else◌, inl, inr, Bool-cases,
}
use vcos.Base.Text.{Text, ◌==◌, eq_iff}
use vcos.Base.Dict.{Dict, lookup, insert, Entries, Entries-insert, Entries-remove, Entries-lookup}
use vcos.Kernel.Eventbus.{Envelope, matches}
use vcos.Kernel.Eventbus.Bus.{
  Bus, Options, Subscription, new, assign, take_at, send, enqueue, handle_queue, handle_one,
  deliver, deliver_all, dispatch_first, dispatch, subscribe, detach, handle, close, Call, assigns,
  enqueues, dispatches, subscribes, detaches, handles, closes, step, run,
}

-- What a subscription was given, oldest first.
abbrev pub given : Subscription → List Envelope
given s = s.handled ++ s.queue

given-handle_one : (s : Subscription) → given (handle_one s) ≡ given s
unfolding handle_one
given-handle_one s = go s.queue refl
  where
    go : (q : List Envelope) → s.queue ≡ q → given (handle_queue q s) ≡ given s
    go [] e = unfold handle_queue in refl
    go (x ∷ rest) e =
        unfold handle_queue in append_assoc s.handled (x ∷ []) rest ∙ ap (◌++◌ s.handled) (sym e)

handle_one-keeps :
    (s : Subscription)
    → ((handle_one s).filter ≡ s.filter)
      × ((handle_one s).dropped ≡ s.dropped)
      × (length (handle_one s).queue ≡ length s.queue - 1)
unfolding handle_one
handle_one-keeps s = go s.queue refl
  where
    go :
        (q : List Envelope)
        → s.queue ≡ q
        → ((handle_queue q s).filter ≡ s.filter)
          × ((handle_queue q s).dropped ≡ s.dropped)
          × (length (handle_queue q s).queue ≡ length s.queue - 1)
    go [] e = unfold handle_queue in (refl, refl, ground (arith, ap length e))
    go (x ∷ rest) e = unfold handle_queue in (refl, refl, ground (arith, ap length e))

-- The envelope comes last among what is given; or the queue is full, the time is up, and the
-- envelope is dropped and counted.
abbrev pub Delivered : ℕ → Bool → Envelope → Subscription → Subscription → Type 0
Delivered capacity timed_out env s s' =
    ((given s' ≡ given s ++ env ∷ []) × (s'.dropped ≡ s.dropped))
    ⊎ ((given s' ≡ given s)
        × (s'.dropped ≡ suc s.dropped)
        × (capacity ≤ length s.queue)
        × (timed_out ≡ true))

deliver-Delivered :
    (capacity : ℕ) (timed_out : Bool) (env : Envelope) (s : Subscription)
    → Delivered capacity timed_out env s (deliver capacity timed_out env s)
unfolding deliver
deliver-Delivered capacity timed_out env s = ground (
  arith,
  append_assoc s.handled s.queue (env ∷ []),
  append_assoc (handle_one s).handled (handle_one s).queue (env ∷ []),
  given-handle_one s,
  handle_one-keeps s,
)

deliver_all-lookup :
    (capacity : ℕ) (slow : Text → Bool) (env : Envelope) (id : Text) (m : Dict Subscription)
    {s : Subscription}
    → lookup id m ≡ some s
    → lookup id (deliver_all capacity slow env m)
      ≡ some (if matches s.filter env then deliver capacity (slow id) env s else s)
unfolding deliver_all lookup
deliver_all-lookup capacity slow env id [] h = cc
deliver_all-lookup capacity slow env id ((j, t) ∷ m) {s} h = elim (Bool-cases (j == id)) [
  | inl same ↦ let e : t ≡ s = ground arith in rw (same, if◌then◌else◌, (eq_iff j id).0 same, e)
  | inr other ↦ ground (arith, deliver_all-lookup capacity slow env id m {s = s})
]

-- A round of the dispatcher over an inbox that begins with an envelope leaves the rest of the inbox,
-- and leaves each attached subscription attached: as it was, if the filter rejects the envelope;
-- else the envelope comes after all that the subscription was given before, or, only where the queue
-- is full and the time for the subscriber is up, it is missing there and the count of dropped
-- envelopes is one higher.
pub dispatch_delivers :
    (slow : Text → Bool) (b : Bus) (env : Envelope) (rest : List Envelope) (id : Text)
    (s : Subscription)
    → b.inbox ≡ env ∷ rest
    → lookup id b.subs ≡ some s
    → ((dispatch slow b).inbox ≡ rest)
      × ((s' : Subscription) × (lookup id (dispatch slow b).subs ≡ some s')
          × (((matches s.filter env ≡ false) × (s' ≡ s))
              ⊎ ((matches s.filter env ≡ true)
                  × Delivered b.options.subscriber_buffer (slow id) env s s')))
unfolding dispatch
dispatch_delivers slow b env rest id s e found = rw e (unfold dispatch_first in (refl, go))
  where
    capacity : ℕ
    capacity = b.options.subscriber_buffer

    after :
        (lookup id (deliver_all capacity slow env b.subs)
          ≡ some (if matches s.filter env then deliver capacity (slow id) env s else s))
    after = deliver_all-lookup capacity slow env id b.subs found

    go :
        (s' : Subscription) × (lookup id (deliver_all capacity slow env b.subs) ≡ some s')
        × (((matches s.filter env ≡ false) × (s' ≡ s))
            ⊎ ((matches s.filter env ≡ true) × Delivered capacity (slow id) env s s'))
    go = elim (Bool-cases (matches s.filter env)) [
      | inl fits ↦ (
        deliver capacity (slow id) env s,
        rw (fits, if◌then◌else◌) at after,
        inr (fits, deliver-Delivered capacity (slow id) env s),
      )
      | inr other ↦ (s, rw (other, if◌then◌else◌) at after, inl (other, refl))
    ]

-- A subscription has been given only what its filter accepts, and its queue is within its capacity.
abbrev pub IsServed : ℕ → Subscription → Type 0
IsServed capacity s = All (λ e. matches s.filter e ≡ true) (given s) × (length s.queue ≤ capacity)

abbrev pub Serves : Bus → Type 0
Serves b =
    (length b.inbox ≤ b.options.publish_buffer)
    × (0 < b.options.subscriber_buffer)
    × Entries (λ _ s. IsServed b.options.subscriber_buffer s) b.subs

handle_one-IsServed :
    (capacity : ℕ) (s : Subscription) → IsServed capacity s → IsServed capacity (handle_one s)
handle_one-IsServed capacity s (all, fits) =
    let k = handle_one-keeps s in (rw (k.0, given-handle_one s) all, omega (arith, k.2))

deliver-filter :
    (capacity : ℕ) (timed_out : Bool) (env : Envelope) (s : Subscription)
    → (deliver capacity timed_out env s).filter ≡ s.filter
unfolding deliver
deliver-filter capacity timed_out env s = ground (arith, handle_one-keeps s)

deliver-room :
    (capacity : ℕ) (timed_out : Bool) (env : Envelope) (s : Subscription)
    → 0 < capacity
    → length s.queue ≤ capacity
    → length (deliver capacity timed_out env s).queue ≤ capacity
unfolding deliver
deliver-room capacity timed_out env s h room = ground (
  arith,
  handle_one-keeps s,
  length-append s.queue (env ∷ []),
  length-append (handle_one s).queue (env ∷ []),
)

deliver-IsServed :
    (capacity : ℕ) (timed_out : Bool) (env : Envelope) (s : Subscription)
    → 0 < capacity
    → matches s.filter env ≡ true
    → IsServed capacity s
    → IsServed capacity (deliver capacity timed_out env s)
deliver-IsServed capacity timed_out env s h fits (all, room) = (
  rw (deliver-filter capacity timed_out env s) (elim (deliver-Delivered capacity timed_out env s) [
    | inl (e, _) ↦ rw e (All-append _ (given s) (env ∷ []) all (fits, tt))
    | inr lost ↦ rw lost.0 all
  ]),
  deliver-room capacity timed_out env s h room,
)

deliver_all-IsServed :
    (capacity : ℕ) (slow : Text → Bool) (env : Envelope) (m : Dict Subscription)
    → 0 < capacity
    → Entries (λ _ s. IsServed capacity s) m
    → Entries (λ _ s. IsServed capacity s) (deliver_all capacity slow env m)
unfolding deliver_all
deliver_all-IsServed capacity slow env [] h subs = tt
deliver_all-IsServed capacity slow env ((id, s) ∷ m) h (own, subs) = (
  elim (Bool-cases (matches s.filter env)) [
    | inl fits ↦ rw (fits, if◌then◌else◌) (deliver-IsServed capacity (slow id) env s h fits own)
    | inr other ↦ rw (other, if◌then◌else◌) own
  ],
  deliver_all-IsServed capacity slow env m h subs,
)

send-Serves :
    (give_up : Bool) (o : Option (Envelope × List Envelope)) (b : Bus)
    → Serves b
    → Serves (send give_up o b)
unfolding send
send-Serves give_up none b v = v
send-Serves give_up (some (e, rest)) b v =
    elim (Bool-cases
      (ltb (length b.inbox) b.options.publish_buffer && not (b.stopped && give_up))) [
        | inl room ↦
            rw (room, if◌then◌else◌) (ground (arith, length-append b.inbox (e ∷ [])), v.1, v.2)
        | inr full ↦
            rw (full, if◌then◌else◌)
              (elim (Bool-cases b.stopped) [
                | inl done ↦ rw (done, if◌then◌else◌) v
                | inr more ↦ rw (more, if◌then◌else◌) v
              ])
      ]

dispatch_first-Serves :
    (slow : Text → Bool) (q : List Envelope) (b : Bus)
    → b.inbox ≡ q
    → Serves b
    → Serves (dispatch_first slow q b)
unfolding dispatch_first
dispatch_first-Serves slow [] b e v = v
dispatch_first-Serves slow (env ∷ rest) b e (room, some_room, subs) = (
  ground (arith, ap length e),
  some_room,
  deliver_all-IsServed b.options.subscriber_buffer slow env b.subs some_room subs,
)

handle-Serves : (id : Text) (b : Bus) → Serves b → Serves (handle id b)
unfolding handle
handle-Serves id b (room, some_room, subs) = go (lookup id b.subs) refl
  where
    go :
        (o : Option Subscription)
        → lookup id b.subs ≡ o
        → Serves (elim o as (λ _. Bus) [
          | none ↦ b
          | some s ↦ record b { subs = insert id (handle_one s) b.subs }
        ])
    go none found = (room, some_room, subs)
    go (some s) found =
        let own =
          Entries-lookup (λ _ s. IsServed b.options.subscriber_buffer s) id b.subs found subs in
        (
          room,
          some_room,
          Entries-insert (λ _ s. IsServed b.options.subscriber_buffer s) id (handle_one s) b.subs
              (handle_one-IsServed b.options.subscriber_buffer s own) subs,
        )

step-Serves : (b : Bus) (c : Call) → Serves b → Serves (step b c)
unfolding step
step-Serves b (assigns now env) v = unfold assign in v
step-Serves b (enqueues i give_up) v =
    unfold enqueue in send-Serves give_up (take_at i b.publishing) b v
step-Serves b (dispatches slow) v = unfold dispatch in dispatch_first-Serves slow b.inbox b refl v
step-Serves b (subscribes name f true) v =
    unfold subscribe in (v.0, v.1, Entries-insert _ _ _ b.subs (tt, omega arith) v.2)
step-Serves b (subscribes name f false) v = unfold subscribe in v
step-Serves b (detaches id) v = unfold detach in (v.0, v.1, Entries-remove _ id b.subs v.2)
step-Serves b (handles id) v = handle-Serves id b v
step-Serves b closes v = elim (Bool-cases b.stopped) [
  | inl done ↦ unfold close in rw (done, if◌then◌else◌) v
  | inr more ↦ unfold close in rw (more, if◌then◌else◌) (v.0, v.1, tt)
]

run-Serves : (b : Bus) (cs : List Call) → Serves b → Serves (run b cs)
unfolding run
run-Serves b [] v = v
run-Serves b (c ∷ cs) v = run-Serves (step b c) cs (step-Serves b c v)

-- From a new bus with room in its queues, in any order of its calls and of its goroutines: the inbox
-- stays within its buffer, each attached subscription's queue within its own, and every envelope
-- that was handed to a handler or queued for it satisfies the subscription's filter.
pub run-new-Serves :
    (o : Options) (cs : List Call) → 0 < o.subscriber_buffer → Serves (run (new o) cs)
run-new-Serves o cs h = run-Serves (new o) cs (unfold new in (omega arith, h, tt))
