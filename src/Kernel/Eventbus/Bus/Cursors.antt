-- ===== src/Kernel/Eventbus/Bus/Cursors.antt =====
-- The cursors of kernel/eventbus/bus.go: no envelope is handled twice.
use vcos.Base.{
  ℕ, zero, suc, ◌+◌, ◌≤◌, ◌<◌, ◌≡◌, refl, ap, Bool, true, false, Option, none, some, List, [], ◌∷◌,
  ◌++◌, arith, nat_eq, if◌then◌else◌, inl, inr, Bool-cases, Option-cases,
}
use vcos.Base.Text.{Text}
use vcos.Base.Dict.{Dict, lookup, insert, Entries, Entries-insert, Entries-remove, Entries-lookup}
use vcos.Kernel.Eventbus.{Envelope}
use vcos.Kernel.Eventbus.Bus.{
  Bus, Options, Subscription, new, assign, take_at, send, enqueue, handle_queue, handle_one,
  deliver, deliver_all, dispatch_first, dispatch, subscribe, detach, handle, close, Call, assigns,
  enqueues, dispatches, subscribes, detaches, handles, closes, step, run,
}

-- How many envelopes of a list have a cursor.
abbrev pub count : ℕ → List Envelope → ℕ
count c [] = 0
count c (e ∷ es) = (if nat_eq e.cursor c then 1 else 0) + count c es

count-append : (c : ℕ) (xs ys : List Envelope) → count c (xs ++ ys) ≡ count c xs + count c ys
count-append c [] ys = omega arith
count-append c (x ∷ xs) ys = omega (arith, count-append c xs ys)

-- Waiting to be sent, or to be dispatched.
abbrev pub waiting : Bus → ℕ → ℕ
waiting b c = count c b.publishing + count c b.inbox

abbrev pub received : Subscription → ℕ → ℕ
received s c = count c s.handled + count c s.queue

-- At most one, and none whose cursor has not been taken.
abbrev pub OnceBelow : ℕ → (ℕ → ℕ) → Type 0
OnceBelow cursor f = (c : ℕ) → (f c ≤ 1) × (cursor < c → f c ≡ 0)

abbrev pub Once : Bus → Type 0
Once b =
    OnceBelow b.cursor (waiting b)
    × Entries (λ _ s. OnceBelow b.cursor (λ c. received s c + waiting b c)) b.subs

Entries-map :
    (P Q : Subscription → Type 0) (m : Dict Subscription)
    → ((s : Subscription) → P s → Q s)
    → Entries (λ _. P) m
    → Entries (λ _. Q) m
Entries-map P Q [] f h = tt
Entries-map P Q ((k, s) ∷ m) f h = (f s h.0, Entries-map P Q m f h.1)

-- Where no cursor is waited for by more envelopes than before, and none is taken.
Once-shrinks :
    (b b' : Bus)
    → b'.cursor ≡ b.cursor
    → b'.subs ≡ b.subs
    → ((c : ℕ) → waiting b' c ≤ waiting b c)
    → Once b
    → Once b'
Once-shrinks b b' same_cursor same_subs less (w, subs) =
    rw (same_cursor, same_subs)
      (
        λ c. ground (arith, less c, w c),
        Entries-map (λ s. OnceBelow b.cursor (λ c. received s c + waiting b c))
            (λ s. OnceBelow b.cursor (λ c. received s c + waiting b' c)) b.subs
            (λ s h c. ground (arith, less c, h c)) subs,
      )

count-take_at :
    (i c : ℕ) (es : List Envelope) {e : Envelope} {rest : List Envelope}
    → take_at i es ≡ some (e, rest)
    → count c es ≡ (if nat_eq e.cursor c then 1 else 0) + count c rest
unfolding take_at
count-take_at i c [] h = cc
count-take_at zero c (x ∷ es) h = ground arith
count-take_at (suc i) c (x ∷ es) {e} {rest} h = elim (Option-cases (take_at i es)) [
  | inl missing ↦ absurd (ground arith)
  | inr ((y, left), found) ↦ ground (arith, count-take_at i c es found)
]

assign-Once : (now : ℕ) (env : Envelope) (b : Bus) → Once b → Once (assign now env b).0
unfolding assign
assign-Once now env b (w, subs) = (
  λ c. ground (arith, w c),
  Entries-map (λ s. OnceBelow b.cursor (λ c. received s c + waiting b c)) _ b.subs
      (λ s h c. ground (arith, h c)) subs,
)

send-shrinks :
    (give_up : Bool) (o : Option (Envelope × List Envelope)) (b : Bus) (c : ℕ)
    → ((e : Envelope) (rest : List Envelope)
        → o ≡ some (e, rest)
        → count c b.publishing ≡ (if nat_eq e.cursor c then 1 else 0) + count c rest)
    → waiting (send give_up o b) c ≤ waiting b c
unfolding send
send-shrinks give_up none b c h = omega arith
send-shrinks give_up (some (e, rest)) b c h =
    ground (arith, h e rest refl, count-append c b.inbox (e ∷ []))

send-keeps :
    (give_up : Bool) (o : Option (Envelope × List Envelope)) (b : Bus)
    → ((send give_up o b).cursor ≡ b.cursor) × ((send give_up o b).subs ≡ b.subs)
unfolding send
send-keeps give_up none b = (refl, refl)
send-keeps give_up (some (e, rest)) b = ground arith

enqueue-Once : (i : ℕ) (give_up : Bool) (b : Bus) → Once b → Once (enqueue i give_up b)
unfolding enqueue
enqueue-Once i give_up b once =
    let o = take_at i b.publishing in
    Once-shrinks b (send give_up o b) (send-keeps give_up o b).0 (send-keeps give_up o b).1
      (λ c. send-shrinks give_up o b c (λ e rest found. count-take_at i c b.publishing found)) once

received-handle_one : (s : Subscription) (c : ℕ) → received (handle_one s) c ≡ received s c
unfolding handle_one
received-handle_one s c = go s.queue refl
  where
    go : (q : List Envelope) → s.queue ≡ q → received (handle_queue q s) c ≡ received s c
    go [] e = unfold handle_queue in refl
    go (x ∷ rest) e =
        unfold handle_queue in ground (arith, count-append c s.handled (x ∷ []), ap (count c) e)

received-deliver :
    (capacity : ℕ) (timed_out : Bool) (env : Envelope) (s : Subscription) (c : ℕ)
    → received (deliver capacity timed_out env s) c
      ≤ received s c + (if nat_eq env.cursor c then 1 else 0)
unfolding deliver
received-deliver capacity timed_out env s c = ground (
  arith,
  count-append c s.queue (env ∷ []),
  count-append c (handle_one s).queue (env ∷ []),
  received-handle_one s c,
)

deliver_all-Once :
    (capacity cursor : ℕ) (slow : Text → Bool) (env : Envelope) (f g : ℕ → ℕ)
    (m : Dict Subscription)
    → ((c : ℕ) → (if nat_eq env.cursor c then 1 else 0) + f c ≡ g c)
    → Entries (λ _ s. OnceBelow cursor (λ c. received s c + g c)) m
    → Entries (λ _ s. OnceBelow cursor (λ c. received s c + f c)) (deliver_all capacity slow env m)
unfolding deliver_all
deliver_all-Once capacity cursor slow env f g [] h subs = tt
deliver_all-Once capacity cursor slow env f g ((id, s) ∷ m) h (own, subs) = (
  λ c. ground (arith, received-deliver capacity (slow id) env s c, h c, own c),
  deliver_all-Once capacity cursor slow env f g m h subs,
)

dispatch_first-Once :
    (slow : Text → Bool) (q : List Envelope) (b : Bus)
    → b.inbox ≡ q
    → Once b
    → Once (dispatch_first slow q b)
unfolding dispatch_first
dispatch_first-Once slow [] b e once = once
dispatch_first-Once slow (env ∷ rest) b e (w, subs) = (
  λ c. ground (arith, w c, ap (count c) e),
  deliver_all-Once b.options.subscriber_buffer b.cursor slow env
      (λ c. count c b.publishing + count c rest) (waiting b) b.subs
      (λ c. ground (arith, ap (count c) e)) subs,
)

handle-Once : (id : Text) (b : Bus) → Once b → Once (handle id b)
unfolding handle
handle-Once id b (w, subs) = go (lookup id b.subs) refl
  where
    go :
        (o : Option Subscription)
        → lookup id b.subs ≡ o
        → Once (elim o as (λ _. Bus) [
          | none ↦ b
          | some s ↦ record b { subs = insert id (handle_one s) b.subs }
        ])
    go none found = (w, subs)
    go (some s) found =
        let own =
          Entries-lookup (λ _ s. OnceBelow b.cursor (λ c. received s c + waiting b c)) id b.subs
            found subs in
        (
          w,
          Entries-insert (λ _ s. OnceBelow b.cursor (λ c. received s c + waiting b c)) id
              (handle_one s) b.subs (λ c. ground (arith, own c, received-handle_one s c)) subs,
        )

step-Once : (b : Bus) (c : Call) → Once b → Once (step b c)
unfolding step
step-Once b (assigns now env) once = assign-Once now env b once
step-Once b (enqueues i give_up) once = enqueue-Once i give_up b once
step-Once b (dispatches slow) once = unfold dispatch in dispatch_first-Once slow b.inbox b refl once
step-Once b (subscribes name f true) once =
    unfold subscribe in (once.0, Entries-insert _ _ _ b.subs (λ c. ground (arith, once.0 c)) once.1)
step-Once b (subscribes name f false) once = unfold subscribe in once
step-Once b (detaches id) once = unfold detach in (once.0, Entries-remove _ id b.subs once.1)
step-Once b (handles id) once = handle-Once id b once
step-Once b closes once = elim (Bool-cases b.stopped) [
  | inl done ↦ unfold close in rw (done, if◌then◌else◌) once
  | inr more ↦ unfold close in rw (more, if◌then◌else◌) (once.0, tt)
]

run-Once : (b : Bus) (cs : List Call) → Once b → Once (run b cs)
unfolding run
run-Once b [] once = once
run-Once b (c ∷ cs) once = run-Once (step b c) cs (step-Once b c once)

-- From a new bus, in any order of publishing, sending, dispatching, subscribing, detaching, handling
-- and closing: a subscription that is still attached has handled at most one envelope of each
-- cursor, and of a cursor that `LatestCursor` has not reached it has handled none.
pub handled_once :
    (o : Options) (cs : List Call) (id : Text) (s : Subscription) (c : ℕ)
    → lookup id (run (new o) cs).subs ≡ some s
    → (count c s.handled ≤ 1) × ((run (new o) cs).cursor < c → count c s.handled ≡ 0)
handled_once o cs id s c found =
    let b = run (new o) cs in
    let once : Once b = run-Once (new o) cs (unfold new in (λ c. omega arith, tt)) in
    let own =
      Entries-lookup (λ _ s. OnceBelow b.cursor (λ c. received s c + waiting b c)) id b.subs found
        once.1 in
    ground (arith, own c)
