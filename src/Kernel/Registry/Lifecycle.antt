-- ===== src/Kernel/Registry/Lifecycle.antt =====
-- How long the registry keeps a session (kernel/registry.go).
use mathlib.Core.List.{Perm}
use mathlib.Core.Option.{some-injective}
use vcos.Base.{
  ℕ, suc, ◌+◌, ◌<◌, ◌≡◌, ◌≢◌, refl, sym, ap, subst, ◌∙◌, Bool, true, false, inl, inr, List, [], ◌∷◌,
  Option, none, some, arith, if◌then◌else◌, Bool-cases, Option-cases, nat_eq, ltb, length,
}
use vcos.Base.Text.{Text, ◌==◌, eq_iff, is_empty, trim_space}
use vcos.Base.Dict.{Dict, lookup, insert, remove, lookup-insert, lookup-remove}
use vcos.Kernel.Runtime.{
  RuntimeSession, new_runtime_session, set_listener, remove_listener, listener_count,
  ensure_buffered_sink_with_processor,
}
use vcos.Kernel.Registry.{
  Registry, ensure_locked, ensure, attached, attach, release, due, fire, cleanup_if_orphaned,
  cleanup_all, release_found, clean_found,
}

-- The calls of clients, the timers' functions, and CleanupAll with some order of the map.
pub data Call : Type 0 where
  ensures : Text → Call
  attaches : (session_id listener_id : Text) → Option ℕ → Call
  releases : ℕ → (session_id listener_id : Text) → Bool → Call
  fires : ℕ → Text → Call
  cleans : Text → ℕ → Call
  cleans_all :
      (shuffle : Dict RuntimeSession → Dict RuntimeSession)
      → ((m : Dict RuntimeSession) → Perm (shuffle m) m)
      → Call

abbrev pub step : Call → Registry → Registry
step (ensures id) r = (ensure id r).1
step (attaches id listener_id l) r = (attach id listener_id l r).1
step (releases now id listener_id cleanup) r = release now id listener_id cleanup r
step (fires now id) r = fire now id r
step (cleans id target) r = cleanup_if_orphaned id target r
step (cleans_all shuffle perm) r = cleanup_all shuffle r

abbrev pub run : List Call → Registry → Registry
run [] r = r
run (c ∷ cs) r = run cs (step c r)

-- The call does not release this listener of the session, attach another one under its name, or clean
-- all sessions up.
abbrev pub Spares : Text → Text → Call → Type 0
Spares id listener (attaches session_id listener_id l) =
    (trim_space session_id ≡ id) → listener_id ≢ listener
Spares id listener (cleans_all shuffle perm) = true ≡ false
Spares id listener (releases now session_id listener_id cleanup) =
    (trim_space session_id ≡ id) → listener_id ≢ listener
Spares id listener _ = Unit

abbrev pub AllSpare : Text → Text → List Call → Type 0
AllSpare id listener [] = Unit
AllSpare id listener (c ∷ cs) = Spares id listener c × AllSpare id listener cs

-- A session has this identity, and this listener under the name.
abbrev pub Keeps : Text → ℕ → ℕ → RuntimeSession → Type 0
Keeps listener l k s = (s.identity ≡ k) × (lookup listener s.listeners ≡ some l)

-- The session stands in the registry with this identity, and has this listener under the name.
pub record Listens (id listener : Text) (l k : ℕ) (r : Registry) : Type 0 where
  pub session : RuntimeSession
  pub found : lookup id r.sessions ≡ some session
  pub keeps : Keeps listener l k session

some_listener : (listener : Text) (l : ℕ) (m : Dict ℕ) → lookup listener m ≡ some l → 0 < length m
unfolding lookup
some_listener listener l [] e = cc
some_listener listener l (x ∷ m) e = omega arith

ltb_of_lt : {n : ℕ} → 0 < n → ltb 0 n ≡ true
ltb_of_lt h = ground arith

module _ (id listener : Text) (l k : ℕ) where
  attached-Keeps :
      (name : Text) (o : Option ℕ) (s : RuntimeSession)
      → name ≢ listener
      → Keeps listener l k s
      → Keeps listener l k (attached name o s)
  unfolding set_listener ensure_buffered_sink_with_processor
  attached-Keeps name none s other h = ground arith
  attached-Keeps name (some x) s other h =
      ground (arith, lookup-insert name listener x s.listeners, eq_iff name listener, other)

  remove_listener-Keeps :
      (name : Text) (s : RuntimeSession)
      → name ≢ listener
      → Keeps listener l k s
      → Keeps listener l k (remove_listener name s)
  unfolding remove_listener
  remove_listener-Keeps name s other h =
      ground (arith, lookup-remove name listener s.listeners, eq_iff name listener, other)

  put-Listens :
      (at : Text) (s : RuntimeSession) (r r' : Registry)
      → r'.sessions ≡ insert at s r.sessions
      → (at ≡ id → Keeps listener l k s)
      → Listens id listener l k r
      → Listens id listener l k r'
  put-Listens at s r r' e keeps h = elim (Bool-cases (at == id)) [
    | inl hit ↦ record {
      session = s;
      found = rw (e, lookup-insert at id s r.sessions, hit) refl;
      keeps = keeps ((eq_iff at id).0 hit);
    }
    | inr miss ↦ record {
      session = h.session;
      found = rw (e, lookup-insert at id s r.sessions, miss) h.found;
      keeps = h.keeps;
    }
  ]

  take-Listens :
      (at : Text) (r r' : Registry)
      → r'.sessions ≡ remove at r.sessions
      → (at == id) ≡ false
      → Listens id listener l k r
      → Listens id listener l k r'
  take-Listens at r r' e other h = record {
    session = h.session;
    found = rw (e, lookup-remove at id r.sessions, other) h.found;
    keeps = h.keeps;
  }

  ensure_locked-Listens :
      (at : Text) (r : Registry)
      → Listens id listener l k r
      → Listens id listener l k (ensure_locked at r).1
        × (at ≡ id → Keeps listener l k (ensure_locked at r).0)
  unfolding ensure_locked
  ensure_locked-Listens at r h = elim (Option-cases (lookup at r.sessions)) [
    | inl absent ↦
        let s = new_runtime_session r.next_identity in
        rw absent (
          put-Listens at s r
              (record r { sessions = insert at s r.sessions; next_identity = suc r.next_identity })
              refl (λ e. absurd (cc (e, absent, h.found))) h,
          λ e. absurd (cc (e, absent, h.found)),
        )
    | inr (s, found) ↦ rw found (
      h,
      λ e.
          subst (Keeps listener l k)
            (some-injective _ _ (sym h.found ∙ ap (λ i. lookup i r.sessions) (sym e) ∙ found))
            h.keeps,
    )
  ]

  same-Keeps :
      (at : Text) (r : Registry) {s : RuntimeSession}
      → lookup at r.sessions ≡ some s
      → Listens id listener l k r
      → at ≡ id
      → Keeps listener l k s
  same-Keeps at r {s} found h e =
      subst (Keeps listener l k)
        (some-injective h.session s (sym h.found ∙ ap (λ i. lookup i r.sessions) (sym e) ∙ found))
        h.keeps

  orphan-other :
      (at : Text) (s : RuntimeSession)
      → ltb 0 (listener_count s) ≡ false
      → (at ≡ id → Keeps listener l k s)
      → (at == id) ≡ false
  unfolding listener_count
  orphan-other at s none' keeps = elim (Bool-cases (at == id)) [
    | inl hit ↦
        let some' = some_listener listener l s.listeners (keeps ((eq_iff at id).0 hit)).1 in
        absurd (cc (none', ltb_of_lt some'))
    | inr miss ↦ miss
  ]

  release_found-Listens :
      (now : ℕ) (cleanup : Bool) (at : Text) (s : RuntimeSession) (r : Registry)
      → (at ≡ id → Keeps listener l k s)
      → Listens id listener l k r
      → Listens id listener l k (release_found now cleanup at s r)
  release_found-Listens now cleanup at s r keeps h = elim (Bool-cases (ltb 0 (listener_count s))) [
    | inl busy ↦ rw (busy, if◌then◌else◌) (put-Listens at s r _ refl keeps h)
    | inr idle ↦ elim (Bool-cases cleanup) [
      | inl now' ↦
          rw (idle, now', if◌then◌else◌) (take-Listens at r _ refl (orphan-other at s idle keeps) h)
      | inr later ↦
          rw (idle, later, if◌then◌else◌)
            (put-Listens at (record s { release_timer = some (now + r.release_after) }) r _ refl
              keeps h)
    ]
  ]

  clean_found-Listens :
      (at : Text) (target : ℕ) (s : RuntimeSession) (r : Registry)
      → (at ≡ id → Keeps listener l k s)
      → Listens id listener l k r
      → Listens id listener l k (clean_found at target s r)
  clean_found-Listens at target s r keeps h = elim (Bool-cases (nat_eq s.identity target)) [
    | inl same ↦ elim (Bool-cases (ltb 0 (listener_count s))) [
      | inl busy ↦
          rw (same, busy, if◌then◌else◌)
            (put-Listens at (record s { release_timer = none }) r _ refl keeps h)
      | inr idle ↦
          rw (same, idle, if◌then◌else◌) (take-Listens at r _ refl (orphan-other at s idle keeps) h)
    ]
    | inr other ↦ rw (other, if◌then◌else◌) h
  ]

  step-Listens :
      (c : Call) (r : Registry)
      → Spares id listener c
      → Listens id listener l k r
      → Listens id listener l k (step c r)
  step-Listens (ensures at) r w h =
      unfold ensure in
      (elim (Bool-cases (is_empty (trim_space at))) [
        | inl blank ↦ rw (step, blank, if◌then◌else◌) h
        | inr named ↦ rw (step, named, if◌then◌else◌) (ensure_locked-Listens (trim_space at) r h).0
      ])
  step-Listens (attaches at name o) r w h =
      unfold attach in
      (elim (Bool-cases (is_empty (trim_space at))) [
        | inl blank ↦ rw (step, blank, if◌then◌else◌) h
        | inr named ↦
            let id' = trim_space at in
            let (kept, keeps) = ensure_locked-Listens id' r h in
            let (s, r') = ensure_locked id' r in
            rw (step, named, if◌then◌else◌)
              (put-Listens id' (attached name o s) r' _ refl
                (λ e. attached-Keeps name o s (w e) (keeps e)) kept)
      ])
  step-Listens (releases now at name cleanup) r w h =
      unfold release in
      (let id' = trim_space at in
        elim (Bool-cases (is_empty id')) [
          | inl blank ↦ rw (step, blank, if◌then◌else◌) h
          | inr named ↦ elim (Option-cases (lookup id' r.sessions)) [
            | inl absent ↦ rw (named, absent, if◌then◌else◌) h
            | inr (s, found) ↦
                rw (named, found, if◌then◌else◌)
                  (release_found-Listens now cleanup id' (remove_listener name s) r
                    (λ e. remove_listener-Keeps name s (w e) (same-Keeps id' r found h e)) h)
          ]
        ])
  step-Listens (fires now at) r w h =
      unfold fire in
      (elim (Option-cases (lookup at r.sessions)) [
        | inl absent ↦ rw absent h
        | inr (s, found) ↦ elim (Bool-cases (due now s.release_timer)) [
          | inl ripe ↦
              rw (found, ripe, if◌then◌else◌)
                (record { session = h.session; found = h.found; keeps = h.keeps })
          | inr early ↦ rw (found, early, if◌then◌else◌) h
        ]
      ])
  step-Listens (cleans at target) r w h =
      unfold cleanup_if_orphaned in
      (elim (Option-cases (lookup at r.sessions)) [
        | inl absent ↦ rw absent h
        | inr (s, found) ↦ rw found (clean_found-Listens at target s r (same-Keeps at r found h) h)
      ])
  step-Listens (cleans_all shuffle perm) r w h = absurd (cc w)

  -- A client stays connected: while none of the calls releases its listener, attaches another one
  -- under its name or cleans all sessions up, whatever other clients attach and release, and whatever
  -- timers fire, early or late, the registry keeps the very session that it listens to, and in it the
  -- very listener, under its name.
  pub run-Listens :
      (cs : List Call) (r : Registry)
      → AllSpare id listener cs
      → Listens id listener l k r
      → Listens id listener l k (run cs r)
  run-Listens [] r w h = h
  run-Listens (c ∷ cs) r w h = run-Listens cs (step c r) w.1 (step-Listens c r w.0 h)
