-- ===== src/Kernel/Lockmgr.antt =====
-- kernel/lockmgr/lockmgr.go: the lock manager with reentrant leases that run out.
-- Each method runs under the mutex, so it is one step; `expire` sends its lease after it has
-- unlocked, so it is two: `expire`, which leaves the lease in `sending`, and `deliver`. Times are
-- nanoseconds since the zero time, read by the caller of a step from the manager's clock.
pub mod Calls
pub mod Invariant
pub mod Table
pub mod Closing
pub mod Owners
pub mod Nesting
pub mod Expiry
mod Examples
use vcos.Base.{
  ℕ, suc, ◌+◌, ◌-◌, Bool, true, false, ◌||◌, Option, none, some, List, [], ◌∷◌, ◌++◌, length, leb,
  ltb, if◌then◌else◌,
}
use vcos.Base.Text.{Text, ◌==◌, is_empty}
use vcos.Base.Dict.{Dict, lookup, insert, remove}
use vcos.Base.Int.{ℤ, sub_ℕ, pos, positive_or}

pub record Lease : Type 0 where
  pub key : Text
  pub owner : Text
  pub expire_at : ℕ
  pub depth : ℕ

-- `timer` is the time at which the pending call of `expire` is due.
pub record LockEntry : Type 0 where
  pub owner : Text
  pub depth : ℕ
  pub expire_at : ℕ
  pub timer : ℕ

-- `entries` is the map, `closed` says that `Close` has replaced it by nil and has closed both
-- channels. `expired` is the content of `expiredCh`.
pub record Manager : Type 0 where
  pub entries : Dict LockEntry
  pub expired : List Lease
  pub sending : List Lease
  pub closed : Bool

-- `panics` is a Go panic: a write to a nil map, or a send on a closed channel.
pub data LockError : Type 0 where
  err_conflict err_not_held err_required panics : LockError

pub data Result {ℓ} (A : Type ℓ) : Type ℓ where
  ok : A → Result A
  err : LockError → Result A

abbrev pub channel_capacity : ℕ
channel_capacity = 64

-- 30 seconds
abbrev pub default_ttl : ℕ
default_ttl = 30000000000

unfoldable pub new : Manager
new = record { entries = []; expired = []; sending = []; closed = false }

-- Writing to the nil map that `Close` leaves panics.
put : Text → LockEntry → Manager → Manager × Result Lease
put key e m = if m.closed then (m, err panics) else (
  record m { entries = insert key e m.entries },
  ok (record { key = key; owner = e.owner; expire_at = e.expire_at; depth = e.depth }),
)

grant : Text → Text → ℕ → Option LockEntry → Manager → Manager × Result Lease
unfolding put
grant key owner until (some e) m =
    if e.owner == owner
    then put key (record e { depth = e.depth + 1; expire_at = until; timer = until }) m
    else (m, err err_conflict)
grant key owner until none m =
    put key (record { owner = owner; depth = 1; expire_at = until; timer = until }) m

unfoldable pub acquire : ℕ → Text → Text → ℤ → Manager → Manager × Result Lease
unfolding grant
acquire now key owner ttl m =
    if is_empty key || is_empty owner
    then (m, err err_required)
    else grant key owner (now + positive_or ttl default_ttl) (lookup key m.entries) m

-- `depth` is positive (`Invariant`), so the truncated `-` is exact.
drop_one : Text → LockEntry → Manager → Manager
drop_one key e m =
    if leb e.depth 1
    then record m { entries = remove key m.entries }
    else record m { entries = insert key (record e { depth = e.depth - 1 }) m.entries }

release_entry : Text → Text → Option LockEntry → Manager → Manager × Option LockError
unfolding drop_one
release_entry key owner none m = (m, some err_not_held)
release_entry key owner (some e) m =
    if e.owner == owner then (drop_one key e m, none) else (m, some err_not_held)

unfoldable pub release : Text → Text → Manager → Manager × Option LockError
unfolding release_entry
release key owner m = release_entry key owner (lookup key m.entries) m

unfoldable pub force_release : Text → Manager → Manager
force_release key m = record m { entries = remove key m.entries }

-- `Holder` reads `time.Until`, the system's clock, and not the clock given to `New`.
unfoldable pub holder : ℕ → Text → Manager → Text × ℤ
holder system_now key m = elim (lookup key m.entries) [
  | none ↦ ([], pos 0)
  | some e ↦ (e.owner, sub_ℕ e.expire_at system_now)
]

unfoldable pub active : Manager → ℕ
active m = length m.entries

-- The consumer of `Expired()` takes the oldest lease.
unfoldable pub receive : Manager → Manager × Option Lease
receive m = elim m.expired [ [] ↦ (m, none) | l ∷ rest ↦ (record m { expired = rest }, some l) ]

-- `Close`: the entries are dropped with their timers. A second call does nothing.
unfoldable pub close : Manager → Manager
close m = if m.closed then m else record m { entries = []; closed = true }

expire_entry : ℕ → Text → Text → Option LockEntry → Manager → Manager
expire_entry now key owner none m = m
expire_entry now key owner (some e) m =
    if e.owner == owner
    then (if ltb now e.expire_at then m else record m {
      entries = remove key m.entries;
      sending =
          m.sending
          ++ record { key = key; owner = owner; expire_at = e.expire_at; depth = e.depth } ∷ [];
    })
    else m

-- The timer's call up to the last `m.mu.Unlock()`.
unfoldable pub expire : ℕ → Text → Text → Manager → Manager
unfolding expire_entry
expire now key owner m = expire_entry now key owner (lookup key m.entries) m

deliver_from : Bool → List Lease → Manager → Manager × Option LockError
deliver_from stop_first [] m = (m, none)
deliver_from stop_first (l ∷ rest) m =
    let m' : Manager = record m { sending = rest } in
    if m.closed
    then (if stop_first then (m', none) else (m', some panics))
    else (if ltb (length m.expired) channel_capacity
        then (record m' { expired = m.expired ++ l ∷ [] }, none)
        else (m', none))

-- The `select` at the end of `expire`, for the oldest goroutine that has reached it. On a closed
-- manager the send panics and the receive from `stopCh` is ready too: `stop_first` is the choice.
unfoldable pub deliver : Bool → Manager → Manager × Option LockError
unfolding deliver_from
deliver stop_first m = deliver_from stop_first m.sending m
