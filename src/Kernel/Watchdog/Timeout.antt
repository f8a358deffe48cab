-- ===== src/Kernel/Watchdog/Timeout.antt =====
-- The timeouts of kernel/watchdog/watchdog.go, with the lock manager and the bus.
use vcos.Base.{ℕ, ◌+◌, ◌≤◌, ◌<◌, ◌≡◌, refl, true, false, Option, none, some, arith, if◌then◌else◌}
use vcos.Base.Text.{Text, is_empty, ◌==◌, ==_refl}
use vcos.Base.Dict.{lookup, remove, Entries-lookup, lookup-insert, lookup-remove}
use vcos.Kernel.Lockmgr.{Manager, force_release}
use vcos.Kernel.Lockmgr.Table.{table}
use vcos.Kernel.Eventbus.{matches, contains_source}
use vcos.Kernel.Eventbus.Topic.{execution_id_of}
use vcos.Kernel.Watchdog.{
  Watchdog, Item, subscription, refresh, heartbeat, on_event, give_up, settle_timeout, free_lock,
  warning, on_timeout,
}
use vcos.Kernel.Watchdog.Deadlines.{Inv, IsWatched}

-- A timer that fires before the deadline only starts again: the execution stays watched with the
-- same deadline, the lock manager is untouched and nothing is published.
early_timeout :
    (message : Text → ℕ → Text) (now : ℕ) (id : Text) (w : Watchdog) (lock : Option Manager)
    (it : Item)
    → lookup id w.items ≡ some it
    → now < it.deadline
    → ((on_timeout message now id w lock).1 ≡ lock)
      × ((on_timeout message now id w lock).2 ≡ none)
      × (lookup id (on_timeout message now id w lock).0.items
          ≡ some (record it { timer = it.deadline }))
unfolding on_timeout give_up settle_timeout
early_timeout message now id w lock it found early =
    ground (arith, lookup-insert id id (record it { timer = it.deadline }) w.items, ==_refl id)

-- A heartbeat at a time keeps its execution for the item's whole timeout: until then no timer,
-- however it was started, gives it up, touches the lock manager or publishes a warning.
pub heartbeat_protects :
    (message : Text → ℕ → Text) (beat now : ℕ) (id : Text) (w : Watchdog) (lock : Option Manager)
    (it : Item)
    → is_empty id ≡ false
    → lookup id w.items ≡ some it
    → now < beat + it.timeout
    → ((on_timeout message now id (heartbeat beat id w) lock).1 ≡ lock)
      × ((on_timeout message now id (heartbeat beat id w) lock).2 ≡ none)
      × (lookup id (on_timeout message now id (heartbeat beat id w) lock).0.items
          ≡ some (record it { deadline = beat + it.timeout; timer = beat + it.timeout }))
unfolding heartbeat refresh
heartbeat_protects message beat now id w lock it named found early =
    early_timeout message now id (heartbeat beat id w) lock
      (record it { deadline = beat + it.timeout; timer = beat + it.timeout }) refreshed early
  where
    refreshed :
        lookup id (heartbeat beat id w).items
        ≡ some (record it { deadline = beat + it.timeout; timer = beat + it.timeout })
    refreshed = ground (
      arith,
      lookup-insert id id (record it { deadline = beat + it.timeout; timer = beat + it.timeout })
          w.items,
      ==_refl id,
    )

on_timeout-due :
    (message : Text → ℕ → Text) (now : ℕ) (id : Text) (w : Watchdog) (m : Manager) (it : Item)
    → Inv w
    → lookup id w.items ≡ some it
    → it.timer ≤ now
    → is_empty it.lock_key ≡ false
    → on_timeout message now id w (some m) ≡ (
      record w { items = remove id w.items },
      some (force_release it.lock_key m),
      some (warning message now id it),
    )
unfolding on_timeout give_up settle_timeout free_lock
on_timeout-due message now id w m it v found due key =
    let h = Entries-lookup IsWatched id w.items found v.entered in ground arith

-- The pending timer of a watched execution, firing when it is due: the execution is no longer
-- watched and the others are as they were, the key that it was watched with is free in the lock
-- manager, whoever holds it then, and every other key is as it was, and a warning is published that
-- names the execution and its session.
pub due_timeout :
    (message : Text → ℕ → Text) (now : ℕ) (id : Text) (w : Watchdog) (m : Manager) (it : Item)
    → Inv w
    → lookup id w.items ≡ some it
    → it.timer ≤ now
    → is_empty it.lock_key ≡ false
    → let (w', lock, env) = on_timeout message now id w (some m) in
      ((j : Text) → lookup j w'.items ≡ (if id == j then none else lookup j w.items))
      × ((m' : Manager) × (lock ≡ some m')
          × ((j : Text) → table m' j ≡ (if it.lock_key == j then none else table m j)))
      × (env ≡ some (warning message now id it))
      × (execution_id_of (warning message now id it).payload ≡ id)
      × ((warning message now id it).session_id ≡ it.session_id)
unfolding warning execution_id_of
due_timeout message now id w m it v found due key =
    rw (on_timeout-due message now id w m it v found due key) (
      λ j. lookup-remove id j w.items,
      (
        force_release it.lock_key m,
        refl,
        λ j. unfold force_release in lookup-remove it.lock_key j m.entries,
      ),
      refl,
      refl,
      refl,
    )

-- The warning of a timeout comes back to the watchdog, since its own filter accepts it, and changes
-- nothing there, since the execution that it names is no longer watched.
warning_harmless :
    (message : Text → ℕ → Text) (now later : ℕ) (id : Text) (w : Watchdog) (m : Manager) (it : Item)
    → Inv w
    → lookup id w.items ≡ some it
    → it.timer ≤ now
    → is_empty it.lock_key ≡ false
    → (matches subscription (warning message now id it) ≡ true)
      × (on_event later (warning message now id it) (on_timeout message now id w (some m)).0
          ≡ (on_timeout message now id w (some m)).0)
unfolding warning matches contains_source on_event execution_id_of heartbeat refresh
warning_harmless message now later id w m it v found due key =
    rw (on_timeout-due message now id w m it v found due key)
      (refl, ground (arith, lookup-remove id id w.items, ==_refl id))
