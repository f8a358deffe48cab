-- ===== src/Kernel/Runtime/Replay.antt =====
-- Which of the events that a session was given PendingSince hands to a client that comes back.
use vcos.Base.{
  ℕ, zero, suc, ◌+◌, ◌-◌, ◌≤◌, ◌≡◌, refl, sym, ap, ◌∙◌, Bool, true, inl, inr, List, [], ◌∷◌, ◌++◌,
  arith, if◌then◌else◌, Bool-cases, leb, length, length-append, length-drop, drop_nil, drop-append,
  drop-drop, keep, drop, append-nil, append_assoc,
}
use vcos.Base.Int.{pos}
use vcos.Kernel.Runtime.{
  RuntimeEvent, RuntimeSession, present, shows_cursor, takes_cursor, kind_takes_cursor,
  kind_shows_cursor, apply_event_cursor, event_cursor_from_event, new_runtime_session,
  append_pending, pending_since, pending_limit, last_n, later,
}
use vcos.Kernel.Eventbus.Topic.{Payload, of_event, of_error, of_other, of_nil, EventKind}

abbrev pub append_all : List (ℕ × RuntimeEvent) → RuntimeSession → RuntimeSession
append_all [] s = s
append_all ((now, e) ∷ es) s = append_all es (append_pending now e s)

-- The events that are not nil, numbered from the one after the base.
abbrev pub numbered : ℕ → List (ℕ × RuntimeEvent) → List RuntimeEvent
numbered base [] = []
numbered base ((now, e) ∷ es) =
    if present e then apply_event_cursor e (base + 1) ∷ numbered (base + 1) es else numbered base es

abbrev pub shown : RuntimeEvent → Bool
shown e = shows_cursor e.payload

module _ {ℓ} {A : Type ℓ} where
  -- Cutting early loses nothing that the last cut keeps.
  last_n-append :
      (n : ℕ) (xs : List A) (x : A) → last_n n (last_n n xs ++ x ∷ []) ≡ last_n n (xs ++ x ∷ [])
  last_n-append n xs x =
      let d = length xs - n in
      let shorter = length-drop d xs in
      let one = length-append (drop d xs) (x ∷ []) in
      let one' = length-append xs (x ∷ []) in
      let early : drop d xs ++ x ∷ [] ≡ drop d (xs ++ x ∷ []) =
        sym (drop-append d xs (x ∷ []) (omega arith)) in
      ap (drop (length (drop d xs ++ x ∷ []) - n)) early
      ∙ drop-drop (length (drop d xs ++ x ∷ []) - n) d (length (xs ++ x ∷ []) - n) (xs ++ x ∷ [])
          (omega (arith, shorter, one, one'))

-- The session holds the last of the events that it was given.
pub record Holds (all : List RuntimeEvent) (s : RuntimeSession) : Type 0 where
  pub cursor : s.pending_cursor ≡ length all
  pub events : s.pending_events ≡ last_n pending_limit all

append_pending-Holds :
    (now : ℕ) (e : RuntimeEvent) (all : List RuntimeEvent) (s : RuntimeSession)
    → present e ≡ true
    → Holds all s
    → Holds (all ++ apply_event_cursor e (length all + 1) ∷ []) (append_pending now e s)
unfolding append_pending
append_pending-Holds now e all s here h =
    rw (here, if◌then◌else◌, h.cursor, h.events)
      (record {
        cursor = omega (arith, length-append all (apply_event_cursor e (length all + 1) ∷ []));
        events = last_n-append pending_limit all (apply_event_cursor e (length all + 1));
      })

append_all-Holds :
    (es : List (ℕ × RuntimeEvent)) (all : List RuntimeEvent) (s : RuntimeSession)
    → Holds all s
    → Holds (all ++ numbered (length all) es) (append_all es s)
append_all-Holds [] all s h = rw append-nil h
append_all-Holds ((now, e) ∷ es) all s h = elim (Bool-cases (present e)) [
  | inl here ↦
      let x = apply_event_cursor e (length all + 1) in
      let step =
        append_all-Holds es (all ++ x ∷ []) (append_pending now e s)
          (append_pending-Holds now e all s here h) in
      let count : length (all ++ x ∷ []) ≡ length all + 1 =
        omega (arith, length-append all (x ∷ [])) in
      rw (here, if◌then◌else◌) (rw (count, append_assoc) at step)
  | inr gone ↦
      let same : append_pending now e s ≡ s =
        unfold append_pending in (rw (gone, if◌then◌else◌) refl) in
      rw (gone, if◌then◌else◌, same) (append_all-Holds es all s h)
]

-- What EventCursorFromEvent reads off an event of a type that it lists is its place.
abbrev Placed : ℕ → List RuntimeEvent → Type 0
Placed base [] = Unit
Placed base (e ∷ es) = (shown e ≡ true → e.event_cursor ≡ base + 1) × Placed (base + 1) es

kind_takes_of_shows : (k : EventKind) → kind_shows_cursor k ≡ true → kind_takes_cursor k ≡ true
kind_takes_of_shows k h = ground arith

takes_of_shows : (p : Payload) → shows_cursor p ≡ true → takes_cursor p ≡ true
takes_of_shows (of_event k e) h = kind_takes_of_shows k h
takes_of_shows (of_error e message code) h = refl
takes_of_shows (of_other name) h = h
takes_of_shows of_nil h = h

numbered-Placed : (base : ℕ) (es : List (ℕ × RuntimeEvent)) → Placed base (numbered base es)
unfolding apply_event_cursor
numbered-Placed base [] = tt
numbered-Placed base ((now, e) ∷ es) = elim (Bool-cases (present e)) [
  | inl here ↦
      rw (here, if◌then◌else◌)
        (ground (arith, takes_of_shows e.payload), numbered-Placed (base + 1) es)
  | inr gone ↦ rw (gone, if◌then◌else◌) (numbered-Placed base es)
]

Placed-drop : (n base : ℕ) (es : List RuntimeEvent) → Placed base es → Placed (base + n) (drop n es)
Placed-drop zero base es h = let e : base + 0 ≡ base = omega arith in rw e h
Placed-drop (suc n) base [] h = tt
Placed-drop (suc n) base (x ∷ es) h =
    let e : base + suc n ≡ base + 1 + n = omega arith in rw e (Placed-drop n (base + 1) es h.1)

keep-later :
    (c base : ℕ) (es : List RuntimeEvent)
    → Placed base es
    → keep (later (pos c)) es ≡ keep shown (drop (c - base) es)
unfolding event_cursor_from_event
keep-later c base [] h = rw drop_nil refl
keep-later c base (e ∷ es) h = elim (Bool-cases (leb c base)) [
  | inl reached ↦
      let z : c - base ≡ 0 = ground arith in
      let z' : c - (base + 1) ≡ 0 = ground arith in
      let rest = rw z' at (keep-later c (base + 1) es h.1) in rw z (ground (arith, rest, h.0))
  | inr before ↦
      let z : c - base ≡ suc (c - (base + 1)) = ground arith in
      rw z (ground (arith, keep-later c (base + 1) es h.1, h.0))
]

-- Replay is complete within the limit: of a session that was given these events, and a cursor from
-- which on it was given at most as many as the limit, PendingSince returns the events after that
-- place, in order, numbered from 1, each once; but for those of the types whose cursor
-- EventCursorFromEvent does not read.
pub replay_complete :
    (identity : ℕ) (es : List (ℕ × RuntimeEvent)) (c : ℕ)
    → length (numbered 0 es) ≤ c + pending_limit
    → pending_since (pos c) (append_all es (new_runtime_session identity))
      ≡ keep shown (drop c (numbered 0 es))
unfolding pending_since new_runtime_session
replay_complete identity es c h =
    let all = numbered 0 es in
    let held =
      append_all-Holds es [] (new_runtime_session identity)
        (record { cursor = refl; events = refl }) in
    let d = length all - pending_limit in
    let z : 0 + d ≡ d = omega arith in
    let placed : Placed d (drop d all) = rw z at (Placed-drop d 0 all (numbered-Placed 0 es)) in
    ap (keep (later (pos c))) held.events
    ∙ keep-later c d (drop d all) placed
    ∙ ap (keep shown) (drop-drop (c - d) d c all (omega arith))
