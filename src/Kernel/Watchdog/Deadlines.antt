-- ===== src/Kernel/Watchdog/Deadlines.antt =====
-- The deadlines of kernel/watchdog/watchdog.go.
use vcos.Base.{
  ℕ, zero, suc, ◌≤◌, ◌<◌, ◌≡◌, refl, ap, subst, true, false, Option, none, some, List, [], ◌∷◌,
  arith, ltb, if◌then◌else◌, inl, inr, Bool-cases, Option-cases,
}
use vcos.Base.Text.{Text, is_empty}
use vcos.Base.Dict.{
  lookup, insert, remove, Entries, Entries-insert, Entries-remove, Entries-lookup, IsMap,
  IsMap-insert, IsMap-remove,
}
use vcos.Base.Int.{ℤ, pos, negsuc, positive_or_pos}
use vcos.Kernel.Eventbus.{Envelope}
use vcos.Kernel.Eventbus.Topic.{execution_id_of}
use vcos.Kernel.Watchdog.{
  Watchdog, WatchOptions, Item, default_idle_timeout, min_idle_timeout, new, effective, item_for,
  watch, refresh, heartbeat, settle, close, on_event, give_up,
}

-- `Watch` raises a positive timeout to the floor, and takes the default for any other, also where
-- the floor is above the default.
effective_floor :
    (min_idle : ℕ)
    → 0 < min_idle
    → ((t : ℕ)
        → 0 < t
        → (min_idle ≤ effective min_idle (pos t))
          × (t ≤ effective min_idle (pos t))
          × (min_idle ≤ t → effective min_idle (pos t) ≡ t))
      × (effective min_idle (pos 0) ≡ default_idle_timeout)
      × ((t : ℕ) → effective min_idle (negsuc t) ≡ default_idle_timeout)
unfolding effective
effective_floor min_idle h = (positive, ground arith, λ t. refl)
  where
    positive :
        (t : ℕ)
        → 0 < t
        → (min_idle ≤ effective min_idle (pos t))
          × (t ≤ effective min_idle (pos t))
          × (min_idle ≤ t → effective min_idle (pos t) ≡ t)
    positive zero p = absurd (omega arith)
    positive (suc t) p = (ground arith, ground arith, λ q. ground arith)

-- The calls of the watchdog's methods, the bus's events and the timers, with the reading of the
-- clock that each makes.
pub data Call : Type 0 where
  watches : (now : ℕ) → WatchOptions → Call
  heartbeats fires : (now : ℕ) (id : Text) → Call
  settles : (id : Text) → Call
  observes : (now : ℕ) → Envelope → Call
  closes : Call

-- `none` is a panic.
unfoldable pub step : Watchdog → Call → Option Watchdog
unfolding give_up
step w (watches now opts) = watch now opts w
step w (heartbeats now id) = some (heartbeat now id w)
step w (fires now id) = some (give_up now id (lookup id w.items) w).0
step w (settles id) = some (settle id w)
step w (observes now env) = some (on_event now env w)
step w closes = some (close w)

-- A watched execution has a positive timeout, and its timer is due at its deadline.
pub record IsWatched (id : Text) (it : Item) : Type 0 where
  pub named : is_empty id ≡ false
  pub lasting : 0 < it.timeout
  pub timed : it.timer ≡ it.deadline

pub record Inv (w : Watchdog) : Type 0 where
  pub keyed : IsMap w.items
  pub entered : Entries IsWatched w.items
  pub emptied : w.closed ≡ true → w.items ≡ []
  pub floored : 0 < w.min_idle

effective_pos : (min_idle : ℕ) (t : ℤ) → 0 < min_idle → 0 < effective min_idle t
unfolding effective
effective_pos min_idle (pos zero) h = ground arith
effective_pos min_idle (pos (suc t)) h = ground arith
effective_pos min_idle (negsuc t) h = omega arith

insert-Inv :
    (id : Text) (it : Item) (w : Watchdog)
    → IsWatched id it
    → w.closed ≡ false
    → Inv w
    → Inv (record w { items = insert id it w.items })
insert-Inv id it w h o v = record {
  keyed = IsMap-insert id it w.items v.keyed;
  entered = Entries-insert IsWatched id it w.items h v.entered;
  emptied = λ c. cc;
  floored = v.floored;
}

remove-Inv : (id : Text) (w : Watchdog) → Inv w → Inv (record w { items = remove id w.items })
unfolding remove
remove-Inv id w v = record {
  keyed = IsMap-remove id w.items v.keyed;
  entered = Entries-remove IsWatched id w.items v.entered;
  emptied = λ c. ap (remove id) (v.emptied c);
  floored = v.floored;
}

-- Only an open watchdog watches.
watched_open :
    (id : Text) (w : Watchdog) {it : Item} → lookup id w.items ≡ some it → Inv w → w.closed ≡ false
unfolding lookup
watched_open id w found v = elim (Bool-cases w.closed) [
  | inl shut ↦ cc (found, v.emptied shut)
  | inr open_still ↦ open_still
]

refresh-Inv :
    (now : ℕ) (id : Text) (o : Option Item) (w : Watchdog)
    → lookup id w.items ≡ o
    → Inv w
    → Inv (refresh now id o w)
unfolding refresh
refresh-Inv now id none w found v = v
refresh-Inv now id (some it) w found v =
    let h = Entries-lookup IsWatched id w.items found v.entered in
    insert-Inv id _ w (ground arith) (watched_open id w found v) v

heartbeat-Inv : (now : ℕ) (id : Text) (w : Watchdog) → Inv w → Inv (heartbeat now id w)
unfolding heartbeat
heartbeat-Inv now id w v = ground (arith, refresh-Inv now id (lookup id w.items) w refl v)

give_up-Inv :
    (now : ℕ) (id : Text) (o : Option Item) (w : Watchdog)
    → lookup id w.items ≡ o
    → Inv w
    → Inv (give_up now id o w).0
unfolding give_up
give_up-Inv now id none w found v = v
give_up-Inv now id (some it) w found v =
    let h = Entries-lookup IsWatched id w.items found v.entered in
    let later : Item = record it { timer = it.deadline } in
    elim (Bool-cases (ltb now it.deadline)) [
      | inl early ↦
          rw (early, if◌then◌else◌)
            (insert-Inv id later w (ground arith) (watched_open id w found v) v)
      | inr due ↦ rw (due, if◌then◌else◌) (remove-Inv id w v)
    ]

some-eq : {w w' : Watchdog} → some w ≡ some w' → w ≡ w'
some-eq h = cc

settle-Inv : (id : Text) (w : Watchdog) → Inv w → Inv (settle id w)
unfolding settle
settle-Inv id w v = elim (Bool-cases (is_empty id)) [
  | inl bad ↦ rw (bad, if◌then◌else◌) v
  | inr good ↦ rw (good, if◌then◌else◌) (remove-Inv id w v)
]

on_event-Inv : (now : ℕ) (env : Envelope) (w : Watchdog) → Inv w → Inv (on_event now env w)
unfolding on_event
on_event-Inv now env w v = elim (Bool-cases (is_empty (execution_id_of env.payload))) [
  | inl bad ↦ rw (bad, if◌then◌else◌) v
  | inr good ↦ rw (good, if◌then◌else◌) (heartbeat-Inv now (execution_id_of env.payload) w v)
]

close-Inv : (w : Watchdog) → Inv w → Inv (close w)
unfolding close
close-Inv w v = elim (Bool-cases w.closed) [
  | inl done ↦ let same : w ≡ close w = ground arith in subst Inv same v
  | inr more ↦
      rw (more, if◌then◌else◌)
        (record { keyed = tt; entered = tt; emptied = λ c. refl; floored = v.floored })
]

watch-Inv :
    (now : ℕ) (opts : WatchOptions) (w w' : Watchdog) → watch now opts w ≡ some w' → Inv w → Inv w'
unfolding watch
watch-Inv now opts w w' h v = elim (Bool-cases (is_empty opts.execution_id)) [
  | inl unnamed ↦ let e : w ≡ w' = ground arith in rw (← e) v
  | inr named ↦ elim (Bool-cases w.closed) [
    | inl shut ↦ absurd (ground arith)
    | inr open_still ↦
        let it = item_for now opts w.min_idle in
        let e : record w { items = insert opts.execution_id it w.items } ≡ w' = ground arith in
        let lasts = effective_pos w.min_idle opts.timeout v.floored in
        subst Inv e (insert-Inv opts.execution_id it w (ground arith) open_still v)
  ]
]

step-Inv : (w w' : Watchdog) (c : Call) → step w c ≡ some w' → Inv w → Inv w'
unfolding step
step-Inv w w' (watches now opts) h v = watch-Inv now opts w w' h v
step-Inv w w' (heartbeats now id) h v = subst Inv (some-eq h) (heartbeat-Inv now id w v)
step-Inv w w' (fires now id) h v =
    subst Inv (some-eq h) (give_up-Inv now id (lookup id w.items) w refl v)
step-Inv w w' (settles id) h v = subst Inv (some-eq h) (settle-Inv id w v)
step-Inv w w' (observes now env) h v = subst Inv (some-eq h) (on_event-Inv now env w v)
step-Inv w w' closes h v = subst Inv (some-eq h) (close-Inv w v)

-- `none` is a panic.
unfoldable pub run : Watchdog → List Call → Option Watchdog
run w [] = some w
run w (c ∷ cs) = elim (step w c) [ none ↦ none | some w' ↦ run w' cs ]

run-Inv : (w w' : Watchdog) (cs : List Call) → run w cs ≡ some w' → Inv w → Inv w'
unfolding run
run-Inv w w' [] h v = subst Inv (some-eq h) v
run-Inv w w' (c ∷ cs) h v = elim (Option-cases (step w c)) [
  | inl panicked ↦ absurd (ground arith)
  | inr (u, stepped) ↦ run-Inv u w' cs (rw (stepped, run) at h) (step-Inv w u c stepped v)
]

new-Inv : (min_idle : ℤ) → Inv (new min_idle)
unfolding new
new-Inv min_idle = record {
  keyed = tt;
  entered = tt;
  emptied = λ c. refl;
  floored = positive_or_pos min_idle min_idle_timeout (omega arith);
}

-- After any calls that did not panic, each watched execution is named, has a positive timeout and a
-- timer that is due at its deadline, none is watched twice, and none is watched after `Close`.
pub run_from_new-Inv :
    (min_idle : ℤ) (cs : List Call) (w : Watchdog) → run (new min_idle) cs ≡ some w → Inv w
run_from_new-Inv min_idle cs w h = run-Inv (new min_idle) w cs h (new-Inv min_idle)
