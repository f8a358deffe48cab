-- ===== src/Kernel/Watchdog.antt =====
-- kernel/watchdog/watchdog.go: the timers of running executions. Each method runs under the mutex,
-- as one step on the watchdog; `on_timeout` goes on after it has unlocked, with the lock manager and
-- the bus. A timer fires no earlier than it is due, and late firings of stopped timers may happen.
pub mod Deadlines
pub mod Timeout
mod Examples
use vcos.Base.{
  ℕ, zero, suc, ◌+◌, ◌-◌, Bool, true, false, ◌||◌, Option, none, some, List, [], ◌∷◌, ◌++◌, length,
  ltb, if◌then◌else◌,
}
use vcos.Base.Text.{Text, runes, is_empty}
use vcos.Base.Dict.{Dict, lookup, insert, remove}
use vcos.Base.Int.{ℤ, pos, negsuc, positive_or}
use vcos.Kernel.Lockmgr.{Manager, force_release}
use vcos.Kernel.Eventbus.{Envelope, Filter, Source, session, kernel}
use vcos.Kernel.Eventbus.Topic.{Payload, of_error, execution_id_of}

-- 10 minutes, and 5 seconds
abbrev pub default_idle_timeout : ℕ
default_idle_timeout = 600000000000

abbrev pub min_idle_timeout : ℕ
min_idle_timeout = 5000000000

pub record WatchOptions : Type 0 where
  pub execution_id : Text
  pub session_id : Text
  pub lock_key : Text
  pub timeout : ℤ

-- `timeout` is the effective one; `timer` is when the pending call of `onTimeout` is due.
pub record Item : Type 0 where
  pub session_id : Text
  pub lock_key : Text
  pub timeout : ℕ
  pub deadline : ℕ
  pub timer : ℕ

pub record Watchdog : Type 0 where
  pub min_idle : ℕ
  pub items : Dict Item
  pub closed : Bool

unfoldable pub new : ℤ → Watchdog
new min_idle = record {
  min_idle = positive_or min_idle min_idle_timeout;
  items = [];
  closed = false;
}

-- The filter with which the watchdog subscribes.
abbrev pub subscription : Filter
subscription = record { sources = session ∷ kernel ∷ []; topics = []; session_ids = [] }

unfoldable pub effective : ℕ → ℤ → ℕ
effective min_idle (pos zero) = if ltb 0 min_idle then default_idle_timeout else 0
effective min_idle (pos (suc t)) = if ltb (suc t) min_idle then min_idle else suc t
effective min_idle (negsuc t) = default_idle_timeout

abbrev pub item_for : ℕ → WatchOptions → ℕ → Item
item_for now opts min_idle =
    let timeout = effective min_idle opts.timeout in
    record {
      session_id = opts.session_id;
      lock_key = opts.lock_key;
      timeout = timeout;
      deadline = now + timeout;
      timer = now + timeout;
    }

-- `none` is a panic: a write to the map that `Close` has replaced by nil.
unfoldable pub watch : ℕ → WatchOptions → Watchdog → Option Watchdog
watch now opts w =
    if is_empty opts.execution_id
    then some w
    else (if w.closed
        then none
        else some
            (record w { items = insert opts.execution_id (item_for now opts w.min_idle) w.items }))

refresh : ℕ → Text → Option Item → Watchdog → Watchdog
refresh now id none w = w
refresh now id (some it) w =
    let due = now + it.timeout in
    record w { items = insert id (record it { deadline = due; timer = due }) w.items }

unfoldable pub heartbeat : ℕ → Text → Watchdog → Watchdog
unfolding refresh
heartbeat now id w = if is_empty id then w else refresh now id (lookup id w.items) w

unfoldable pub settle : Text → Watchdog → Watchdog
settle id w = if is_empty id then w else record w { items = remove id w.items }

unfoldable pub pending : Watchdog → ℕ
pending w = length w.items

unfoldable pub close : Watchdog → Watchdog
close w = if w.closed then w else record w { items = []; closed = true }

-- The bus's handler.
unfoldable pub on_event : ℕ → Envelope → Watchdog → Watchdog
on_event now env w =
    let id = execution_id_of env.payload in if is_empty id then w else heartbeat now id w

-- The part of `onTimeout` under the mutex: the new watchdog, and the item that it gives up.
give_up : ℕ → Text → Option Item → Watchdog → Watchdog × Option Item
give_up now id none w = (w, none)
give_up now id (some it) w =
    if ltb now it.deadline
    then (record w { items = insert id (record it { timer = it.deadline }) w.items }, none)
    else (record w { items = remove id w.items }, some it)

-- The warning that is published; the bus sets its cursor.
unfoldable pub warning : (Text → ℕ → Text) → ℕ → Text → Item → Envelope
warning message now id it = record {
  cursor = 0;
  source = kernel;
  topic = runes "error";
  session_id = it.session_id;
  timestamp = now;
  payload =
      of_error
        (record {
          type = runes "error";
          session_id = it.session_id;
          execution_id = id;
          blocking_kind = runes "watchdog_timeout";
        })
        (message (runes "watchdog: execution idle past ") it.timeout) (runes "watchdog_timeout");
}

free_lock : Text → Option Manager → Option Manager
free_lock key none = none
free_lock key (some m) = if is_empty key then some m else some (force_release key m)

settle_timeout :
    (Text → ℕ → Text)
    → ℕ
    → Text
    → Watchdog × Option Item
    → Option Manager
    → Watchdog × Option Manager × Option Envelope
unfolding free_lock
settle_timeout message now id (w, none) lock = (w, lock, none)
settle_timeout message now id (w, some it) lock =
    (w, free_lock it.lock_key lock, some (warning message now id it))

-- `onTimeout`: the watchdog, its lock manager, and what it publishes. `message` joins a text and
-- `Duration.String` of a timeout.
unfoldable pub on_timeout :
    (Text → ℕ → Text)
    → ℕ
    → Text
    → Watchdog
    → Option Manager
    → Watchdog × Option Manager × Option Envelope
unfolding give_up settle_timeout
on_timeout message now id w lock =
    settle_timeout message now id (give_up now id (lookup id w.items) w) lock
