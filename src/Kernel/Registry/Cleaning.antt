-- ===== src/Kernel/Registry/Cleaning.antt =====
-- When the registry cleans a session up, and how often (kernel/registry.go).
use mathlib.Core.List.{Perm}
use vcos.Base.{
  ℕ, suc, ◌+◌, ◌≤◌, ◌≡◌, refl, Bool, true, false, inl, inr, List, [], ◌∷◌, ◌++◌, Option, none, some,
  arith, if◌then◌else◌, Bool-cases, Option-cases, nat_eq, ltb, sym, ap, ◌∙◌, map, length, keep,
}
use vcos.Base.Text.{Text, ==_refl, is_empty, trim_space}
use vcos.Base.Int.{ℤ}
use vcos.Base.Sort.{keep-perm, length-perm}
use vcos.Base.Dict.{Dict, lookup, insert, remove, lookup-insert}
use vcos.Kernel.Runtime.{
  RuntimeSession, new_runtime_session, set_listener, remove_listener, listener_count,
  ensure_buffered_sink_with_processor,
}
use vcos.Kernel.Registry.{
  Registry, new_registry, ensure_locked, ensure, attached, attach, release, due, fire,
  cleanup_if_orphaned, cleanup_all, release_found, clean_found,
}
use vcos.Kernel.Registry.Lifecycle.{
  Call, ensures, attaches, releases, fires, cleans, cleans_all, step, run,
}

-- How many entries are the session of an identity, and how often it was cleaned up.
abbrev pub alive : ℕ → Dict RuntimeSession → ℕ
alive k [] = 0
alive k ((id, s) ∷ m) = if nat_eq s.identity k then suc (alive k m) else alive k m

abbrev pub cleanings : ℕ → List (Text × ℕ) → ℕ
cleanings k [] = 0
cleanings k ((id, i) ∷ l) = if nat_eq i k then suc (cleanings k l) else cleanings k l

cleanings-append :
    (k : ℕ) (xs ys : List (Text × ℕ)) → cleanings k (xs ++ ys) ≡ cleanings k xs + cleanings k ys
cleanings-append k [] ys = omega arith
cleanings-append k ((id, i) ∷ xs) ys = ground (arith, cleanings-append k xs ys)

abbrev one_if : Bool → ℕ
one_if true = 1
one_if false = 0

alive-insert_new :
    (k : ℕ) (id : Text) (s : RuntimeSession) (m : Dict RuntimeSession)
    → lookup id m ≡ none
    → alive k (insert id s m) ≡ alive k m + one_if (nat_eq s.identity k)
unfolding insert lookup
alive-insert_new k id s [] h = ground arith
alive-insert_new k id s ((j, t) ∷ m) h = ground (arith, alive-insert_new k id s m)

alive-insert_same :
    (k : ℕ) (id : Text) (s t : RuntimeSession) (m : Dict RuntimeSession)
    → lookup id m ≡ some t
    → s.identity ≡ t.identity
    → alive k (insert id s m) ≡ alive k m
unfolding insert lookup
alive-insert_same k id s t [] h e = cc
alive-insert_same k id s t ((j, u) ∷ m) h e = ground (arith, alive-insert_same k id s t m)

alive-remove_le : (k : ℕ) (id : Text) (m : Dict RuntimeSession) → alive k (remove id m) ≤ alive k m
unfolding remove
alive-remove_le k id [] = omega arith
alive-remove_le k id ((j, u) ∷ m) = ground (arith, alive-remove_le k id m)

alive-remove :
    (k : ℕ) (id : Text) (t : RuntimeSession) (m : Dict RuntimeSession)
    → lookup id m ≡ some t
    → alive k (remove id m) + one_if (nat_eq t.identity k) ≤ alive k m
unfolding remove lookup
alive-remove k id t [] h = cc
alive-remove k id t ((j, u) ∷ m) h = ground (arith, alive-remove k id t m, alive-remove_le k id m)

-- Of each identity there is at most one session, alive or cleaned up, and of those to come none.
pub record Once (r : Registry) : Type 0 where
  pub once : (k : ℕ) → alive k r.sessions + cleanings k r.cleaned ≤ 1
  pub fresh : (k : ℕ) → r.next_identity ≤ k → alive k r.sessions + cleanings k r.cleaned ≡ 0

put-Once :
    (id : Text) (s t : RuntimeSession) (r : Registry)
    → lookup id r.sessions ≡ some t
    → s.identity ≡ t.identity
    → Once r
    → Once (record r { sessions = insert id s r.sessions })
put-Once id s t r found e h = record {
  once = λ k. omega (arith, h.once k, alive-insert_same k id s t r.sessions found e);
  fresh = λ k le. omega (arith, h.fresh k le, alive-insert_same k id s t r.sessions found e);
}

clean-Once :
    (id : Text) (t : RuntimeSession) (r : Registry) (shut : List ℕ)
    → lookup id r.sessions ≡ some t
    → Once r
    → Once (record r {
      sessions = remove id r.sessions;
      cleaned = r.cleaned ++ (id, t.identity) ∷ [];
      shut = shut;
    })
clean-Once id t r shut found h = record {
  once = λ k. ground (
    arith,
    h.once k,
    alive-remove k id t r.sessions found,
    cleanings-append k r.cleaned ((id, t.identity) ∷ []),
  );
  fresh = λ k le. ground (
    arith,
    h.fresh k le,
    alive-remove k id t r.sessions found,
    cleanings-append k r.cleaned ((id, t.identity) ∷ []),
  );
}

ensure_locked-Once :
    (id : Text) (r : Registry)
    → Once r
    → Once (ensure_locked id r).1
      × (lookup id (ensure_locked id r).1.sessions ≡ some (ensure_locked id r).0)
unfolding ensure_locked new_runtime_session
ensure_locked-Once id r h = elim (Option-cases (lookup id r.sessions)) [
  | inl absent ↦
      let s = new_runtime_session r.next_identity in
      rw absent (
        record {
          once =
              λ k. ground (arith, h.once k, h.fresh k, alive-insert_new k id s r.sessions absent);
          fresh = λ k le.
              ground (arith, h.fresh k (omega arith), alive-insert_new k id s r.sessions absent);
        },
        rw (lookup-insert id id s r.sessions, ==_refl id) refl,
      )
  | inr (s, found) ↦ rw found (h, found)
]

release_found-Once :
    (now : ℕ) (cleanup : Bool) (id : Text) (s t : RuntimeSession) (r : Registry)
    → lookup id r.sessions ≡ some t
    → s.identity ≡ t.identity
    → Once r
    → Once (release_found now cleanup id s r)
release_found-Once now cleanup id s t r found e h = elim (Bool-cases (ltb 0 (listener_count s))) [
  | inl busy ↦ rw (busy, if◌then◌else◌) (put-Once id s t r found e h)
  | inr idle ↦ elim (Bool-cases cleanup) [
    | inl now' ↦ rw (idle, now', if◌then◌else◌, e) (clean-Once id t r r.shut found h)
    | inr later ↦
        rw (idle, later, if◌then◌else◌)
          (put-Once id (record s { release_timer = some (now + r.release_after) }) t r found e h)
  ]
]

clean_found-Once :
    (id : Text) (target : ℕ) (s : RuntimeSession) (r : Registry)
    → lookup id r.sessions ≡ some s
    → Once r
    → Once (clean_found id target s r)
clean_found-Once id target s r found h = elim (Bool-cases (nat_eq s.identity target)) [
  | inl same ↦
      let e : target ≡ s.identity = ground arith in
      elim (Bool-cases (ltb 0 (listener_count s))) [
        | inl busy ↦
            rw (same, busy, if◌then◌else◌)
              (put-Once id (record s { release_timer = none }) s r found refl h)
        | inr idle ↦
            rw (same, idle, if◌then◌else◌, e)
              (clean-Once id s r (r.shut ++ s.identity ∷ []) found h)
      ]
  | inr other ↦ rw (other, if◌then◌else◌) h
]

attached-identity :
    (name : Text) (l : Option ℕ) (s : RuntimeSession) → (attached name l s).identity ≡ s.identity
unfolding set_listener ensure_buffered_sink_with_processor
attached-identity name none s = ground arith
attached-identity name (some l) s = ground arith

pub remove_listener-identity :
    (name : Text) (s : RuntimeSession) → (remove_listener name s).identity ≡ s.identity
unfolding remove_listener
remove_listener-identity name s = ground arith

alive-keep :
    (k : ℕ) (m : Dict RuntimeSession) → alive k m ≡ length (keep (λ x. nat_eq x.1.identity k) m)
alive-keep k [] = refl
alive-keep k ((id, s) ∷ m) = ground (arith, alive-keep k m)

alive-perm : (k : ℕ) {m m' : Dict RuntimeSession} → Perm m m' → alive k m ≡ alive k m'
alive-perm k {m} {m'} h =
    alive-keep k m ∙ length-perm (keep-perm (λ x. nat_eq x.1.identity k) h) ∙ sym (alive-keep k m')

cleanings-map :
    (k : ℕ) (m : Dict RuntimeSession) → cleanings k (map (λ x. (x.0, x.1.identity)) m) ≡ alive k m
cleanings-map k [] = refl
cleanings-map k ((id, s) ∷ m) = ground (arith, cleanings-map k m)

-- CleanupAll cleans up each session that was alive, as often as it was.
cleanup_all-Once :
    (shuffle : Dict RuntimeSession → Dict RuntimeSession)
    → ((m : Dict RuntimeSession) → Perm (shuffle m) m)
    → (r : Registry) → Once r
    → Once (cleanup_all shuffle r)
unfolding cleanup_all
cleanup_all-Once shuffle perm r h = record {
  once = λ k. omega (arith, h.once k, all k);
  fresh = λ k le. omega (arith, h.fresh k le, all k);
}
  where
    all :
        (k : ℕ)
        → cleanings k (r.cleaned ++ map (λ x. (x.0, x.1.identity)) (shuffle r.sessions))
          ≡ cleanings k r.cleaned + alive k r.sessions
    all k =
        cleanings-append k r.cleaned _
        ∙ ap (λ n. cleanings k r.cleaned + n)
            (cleanings-map k (shuffle r.sessions) ∙ alive-perm k (perm r.sessions))

step-Once : (c : Call) (r : Registry) → Once r → Once (step c r)
step-Once (ensures at) r h =
    unfold ensure in
    (elim (Bool-cases (is_empty (trim_space at))) [
      | inl blank ↦ rw (step, blank, if◌then◌else◌) h
      | inr filled ↦ rw (step, filled, if◌then◌else◌) (ensure_locked-Once (trim_space at) r h).0
    ])
step-Once (attaches at name l) r h =
    unfold attach in
    (elim (Bool-cases (is_empty (trim_space at))) [
      | inl blank ↦ rw (step, blank, if◌then◌else◌) h
      | inr filled ↦
          let id = trim_space at in
          let (kept, found) = ensure_locked-Once id r h in
          let (s, r') = ensure_locked id r in
          rw (step, filled, if◌then◌else◌)
            (put-Once id (attached name l s) s r' found (attached-identity name l s) kept)
    ])
step-Once (releases now at name cleanup) r h =
    unfold release in
    (let id = trim_space at in
      elim (Bool-cases (is_empty id)) [
        | inl blank ↦ rw (blank, if◌then◌else◌) h
        | inr filled ↦ elim (Option-cases (lookup id r.sessions)) [
          | inl absent ↦ rw (filled, absent, if◌then◌else◌) h
          | inr (s, found) ↦
              rw (filled, found, if◌then◌else◌)
                (release_found-Once now cleanup id (remove_listener name s) s r found
                  (remove_listener-identity name s) h)
        ]
      ])
step-Once (fires now at) r h =
    unfold fire in
    (elim (Option-cases (lookup at r.sessions)) [
      | inl absent ↦ rw absent h
      | inr (s, found) ↦ elim (Bool-cases (due now s.release_timer)) [
        | inl ripe ↦ rw (found, ripe, if◌then◌else◌) (record { once = h.once; fresh = h.fresh })
        | inr early ↦ rw (found, early, if◌then◌else◌) h
      ]
    ])
step-Once (cleans at target) r h =
    unfold cleanup_if_orphaned in
    (elim (Option-cases (lookup at r.sessions)) [
      | inl absent ↦ rw absent h
      | inr (s, found) ↦ rw found (clean_found-Once at target s r found h)
    ])
step-Once (cleans_all shuffle perm) r h = cleanup_all-Once shuffle perm r h

run-Once : (cs : List Call) (r : Registry) → Once r → Once (run cs r)
run-Once [] r h = h
run-Once (c ∷ cs) r h = run-Once cs (step c r) (step-Once c r h)

-- From a new registry, in any order of calls and timers, CleanupAll included: a session is cleaned up
-- at most once, and one that was cleaned up is in the registry no more; no two entries are the same
-- session.
pub cleaned_once :
    (release_after : ℤ) (cs : List Call) (k : ℕ)
    → let r = run cs (new_registry release_after) in alive k r.sessions + cleanings k r.cleaned ≤ 1
unfolding new_registry
cleaned_once release_after cs k =
    (run-Once cs (new_registry release_after)
        (record { once = λ i. omega arith; fresh = λ i le. omega arith })).once
      k
