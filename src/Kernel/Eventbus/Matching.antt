-- ===== src/Kernel/Eventbus/Matching.antt =====
-- What `Filter.Match` and the readers of payloads decide (kernel/eventbus/envelope.go, topic.go).
use vcos.Base.{◌≡◌, ◌≢◌, ◌⊎◌, ◌↔◌, true, ap, List, [], ◌∷◌, arith}
use vcos.Base.Text.{Text, eq_iff}
use vcos.Kernel.Eventbus.{
  Source, other, source_eq, Envelope, Filter, contains_source, contains_string, matches,
}
use vcos.Kernel.Eventbus.Topic.{EventKind, Event, of_event, is_adb, session_id_of, execution_id_of}

abbrev pub Member : {A : Type 0} → A → List A → Type 0
Member x [] = ⊥
Member x (y ∷ ys) = (y ≡ x) ⊎ Member x ys

-- An empty list of a filter allows everything, another one its members.
abbrev pub Allows : {A : Type 0} → List A → A → Type 0
Allows xs x = (xs ≡ []) ⊎ Member x xs

source_eq_iff : (a b : Source) → (source_eq a b ≡ true) ↔ (a ≡ b)
source_eq_iff (other a) (other b) = (
  λ h. ap other ((eq_iff a b).0 h),
  λ h. (eq_iff a b).1 (ap (λ s. elim s as (λ _. Text) [ other t ↦ t | _ ↦ [] ]) h),
)
source_eq_iff a b = (λ h. ground arith, λ h. ground arith)

contains_source_iff : (xs : List Source) (x : Source) → (contains_source xs x ≡ true) ↔ Member x xs
unfolding contains_source
contains_source_iff [] x = (λ h. cc, λ h. absurd h)
contains_source_iff (v ∷ xs) x =
    let ih = contains_source_iff xs x in
    let here = source_eq_iff v x in (λ h. ground (arith, ih, here), λ h. ground (arith, ih, here))

contains_string_iff : (xs : List Text) (x : Text) → (contains_string xs x ≡ true) ↔ Member x xs
unfolding contains_string
contains_string_iff [] x = (λ h. cc, λ h. absurd h)
contains_string_iff (v ∷ xs) x =
    let ih = contains_string_iff xs x in
    let here = eq_iff v x in (λ h. ground (arith, ih, here), λ h. ground (arith, ih, here))

-- `Match` accepts an envelope exactly when each of the filter's three lists is empty or has the
-- envelope's source, topic or session among its members.
matches_iff :
    (f : Filter) (env : Envelope)
    → (matches f env ≡ true) ↔ (
        Allows f.sources env.source
        × Allows f.topics env.topic
        × Allows f.session_ids env.session_id)
unfolding matches
matches_iff f env =
    let s = contains_source_iff f.sources env.source in
    let t = contains_string_iff f.topics env.topic in
    let i = contains_string_iff f.session_ids env.session_id in
    (λ h. ground (arith, s, t, i), λ h. ground (arith, s, t, i))

-- A payload by which the watchdog knows an execution also shows its session, and `SessionIDOf` finds
-- no session exactly where the event has none or is one of the five ADB types.
session_id_of-empty_iff :
    (k : EventKind) (e : Event)
    → ((session_id_of (of_event k e) ≡ []) ↔ ((e.session_id ≡ []) ⊎ (is_adb k ≡ true)))
      × (execution_id_of (of_event k e) ≢ [] → session_id_of (of_event k e) ≡ e.session_id)
unfolding session_id_of execution_id_of
session_id_of-empty_iff k e = let (to, from) = empties k e in ((to, from), λ h. shows k e h)
  where
    empties :
        (k : EventKind) (e : Event)
        → (session_id_of (of_event k e) ≡ []) ↔ ((e.session_id ≡ []) ⊎ (is_adb k ≡ true))
    empties k e = (λ h. ground arith, λ h. ground arith)

    shows :
        (k : EventKind) (e : Event)
        → execution_id_of (of_event k e) ≢ []
        → session_id_of (of_event k e) ≡ e.session_id
    shows k e h = ground arith
