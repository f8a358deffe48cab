-- ===== src/Kernel/Eventbus/Bus/Ids.antt =====
-- The names of subscriptions, `itoa` of kernel/eventbus/bus.go included: each is new.
use vcos.Base.{
  ℕ, zero, suc, ◌+◌, ◌-◌, ◌*◌, ◌/◌, ◌≤◌, ◌<◌, ◌≡◌, refl, ap, ◌∙◌, Bool, true, false, Option, none,
  some, List, [], ◌∷◌, ◌++◌, append_assoc, reverse, arith, nat_eq, if◌then◌else◌, inl, inr,
  Bool-cases,
}
use mathlib.Core.List.{reverse-append, reverse-reverse}
use vcos.Base.Text.{Text, runes, is_empty, decimal, digits_from, eq_iff}
use vcos.Base.Dict.{
  Dict, lookup, insert, Entries, Entries-insert, Entries-remove, Entries-lookup, lookup-insert,
}
use vcos.Kernel.Eventbus.{Envelope, Filter}
use vcos.Kernel.Eventbus.Bus.{
  Bus, Options, Subscription, new, send, take_at, assign, enqueue, deliver_all, dispatch_first,
  dispatch, subscription_id, subscribe, detach, handle_one, handle, close, Call, assigns, enqueues,
  dispatches, subscribes, detaches, handles, closes, step, run,
}

-- Reading a number from its digits, last digit first, up to what is no digit.
read : Text → ℕ
read [] = 0
read (c ∷ s) = let rest = read s in if nat_eq c b'#' then 0 else (c - b'0') + 10 * rest

read-digits_from :
    (fuel n : ℕ) (rest : Text) → n < fuel → read (digits_from fuel n ++ b'#' ∷ rest) ≡ n
unfolding read digits_from
read-digits_from zero n rest h = elim h [ ]
read-digits_from (suc fuel) n rest h = ground (arith, read-digits_from fuel (n / 10) rest)

-- The number under which a subscription was made.
abbrev seq_of : Text → ℕ
seq_of id = read (reverse id)

reverse-id :
    (base digits : Text) → reverse (base ++ (b'#' ∷ reverse digits)) ≡ digits ++ b'#' ∷ reverse base
reverse-id base digits =
    reverse-append base (b'#' ∷ reverse digits)
    ∙ ap (λ l. l ++ reverse base) (reverse-append (b'#' ∷ []) (reverse digits))
    ∙ ap (λ l. (l ++ b'#' ∷ []) ++ reverse base) (reverse-reverse digits)
    ∙ append_assoc digits (b'#' ∷ []) (reverse base)

seq_of-subscription_id : (name : Text) (seq : ℕ) → seq_of (subscription_id name seq) ≡ seq
unfolding subscription_id decimal
seq_of-subscription_id name seq =
    let base : Text = if is_empty name then runes "sub" else name in
    ap read (reverse-id base (digits_from (suc seq) seq))
    ∙ read-digits_from (suc seq) seq (reverse base) (omega arith)

abbrev Numbered : Bus → Type 0
Numbered b = Entries (λ id _. seq_of id ≤ b.seq) b.subs

Entries-seq :
    (n : ℕ) (m : Dict Subscription)
    → Entries (λ id _. seq_of id ≤ n) m
    → Entries (λ id _. seq_of id ≤ suc n) m
Entries-seq n [] h = tt
Entries-seq n ((k, s) ∷ m) h = (omega (arith, h.0), Entries-seq n m h.1)

deliver_all-Numbered :
    (n capacity : ℕ) (slow : Text → Bool) (env : Envelope) (m : Dict Subscription)
    → Entries (λ id _. seq_of id ≤ n) m
    → Entries (λ id _. seq_of id ≤ n) (deliver_all capacity slow env m)
unfolding deliver_all
deliver_all-Numbered n capacity slow env [] h = tt
deliver_all-Numbered n capacity slow env ((k, s) ∷ m) h =
    (h.0, deliver_all-Numbered n capacity slow env m h.1)

send-Numbered :
    (give_up : Bool) (o : Option (Envelope × List Envelope)) (b : Bus)
    → ((send give_up o b).seq ≡ b.seq) × ((send give_up o b).subs ≡ b.subs)
unfolding send
send-Numbered give_up none b = (refl, refl)
send-Numbered give_up (some (e, rest)) b = ground arith

dispatch_first-Numbered :
    (slow : Text → Bool) (q : List Envelope) (b : Bus)
    → Numbered b
    → Numbered (dispatch_first slow q b)
unfolding dispatch_first
dispatch_first-Numbered slow [] b h = h
dispatch_first-Numbered slow (env ∷ rest) b h =
    deliver_all-Numbered b.seq b.options.subscriber_buffer slow env b.subs h

handle-Numbered : (id : Text) (b : Bus) → Numbered b → Numbered (handle id b)
unfolding handle
handle-Numbered id b h = go (lookup id b.subs) refl
  where
    go :
        (o : Option Subscription)
        → lookup id b.subs ≡ o
        → Numbered (elim o as (λ _. Bus) [
          | none ↦ b
          | some s ↦ record b { subs = insert id (handle_one s) b.subs }
        ])
    go none found = h
    go (some s) found =
        Entries-insert (λ i _. seq_of i ≤ b.seq) id (handle_one s) b.subs
          (Entries-lookup (λ i _. seq_of i ≤ b.seq) id b.subs found h) h

step-Numbered : (b : Bus) (c : Call) → Numbered b → Numbered (step b c)
unfolding step
step-Numbered b (assigns now env) h = unfold assign in h
step-Numbered b (enqueues i give_up) h =
    unfold enqueue in let k = send-Numbered give_up (take_at i b.publishing) b in rw (k.0, k.1) h
step-Numbered b (dispatches slow) h = unfold dispatch in dispatch_first-Numbered slow b.inbox b h
step-Numbered b (subscribes name f true) h =
    unfold subscribe in
    Entries-insert (λ id _. seq_of id ≤ suc b.seq) (subscription_id name (suc b.seq)) _ b.subs
      (omega (arith, seq_of-subscription_id name (suc b.seq))) (Entries-seq b.seq b.subs h)
step-Numbered b (subscribes name f false) h = unfold subscribe in h
step-Numbered b (detaches id) h = unfold detach in Entries-remove _ id b.subs h
step-Numbered b (handles id) h = handle-Numbered id b h
step-Numbered b closes h = elim (Bool-cases b.stopped) [
  | inl done ↦ unfold close in rw (done, if◌then◌else◌) h
  | inr more ↦ unfold close in rw (more, if◌then◌else◌) tt
]

run-Numbered : (b : Bus) (cs : List Call) → Numbered b → Numbered (run b cs)
unfolding run
run-Numbered b [] h = h
run-Numbered b (c ∷ cs) h = run-Numbered (step b c) cs (step-Numbered b c h)

-- From a new bus, in any order of calls: the name that the next `Subscribe` makes, whatever text it
-- is given (also one that holds "#" and digits), names no attached subscription, so that none is
-- overwritten; and the new subscription is found under the name that `Subscribe` returns.
subscribe_fresh :
    (o : Options) (cs : List Call) (name : Text) (f : Filter)
    → let b = run (new o) cs in
      let id = subscription_id name (suc b.seq) in
      (lookup id b.subs ≡ none)
      × ((subscribe name f true b).1 ≡ some id)
      × (lookup id (subscribe name f true b).0.subs
          ≡ some (record { filter = f; queue = []; handled = []; dropped = 0 }))
subscribe_fresh o cs name f = (unused (lookup id b.subs) refl, unfold subscribe in refl, found)
  where
    b : Bus
    b = run (new o) cs

    id : Text
    id = subscription_id name (suc b.seq)

    numbered : Numbered b
    numbered = run-Numbered (new o) cs (unfold new in tt)

    unused : (x : Option Subscription) → lookup id b.subs ≡ x → x ≡ none
    unused none e = refl
    unused (some s) e = absurd (
        omega (
          arith,
          Entries-lookup (λ i _. seq_of i ≤ b.seq) id b.subs e numbered,
          seq_of-subscription_id name (suc b.seq),
        ))

    found :
        lookup id (subscribe name f true b).0.subs
        ≡ some (record { filter = f; queue = []; handled = []; dropped = 0 })
    found =
        unfold subscribe in rw (lookup-insert id id _ b.subs, (eq_iff id id).1 refl, if◌then◌else◌)
