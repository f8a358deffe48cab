-- ===== src/Kernel/Lockmgr/Closing.antt =====
-- `Close` of kernel/lockmgr/lockmgr.go, and what runs after it.
use vcos.Base.{
  ℕ, ◌≤◌, ◌≡◌, refl, ap, Bool, true, false, ◌||◌, List, [], ◌∷◌, Option, none, some, arith,
}
use vcos.Base.Text.{Text, is_empty, ==_refl}
use vcos.Base.Dict.{lookup}
use vcos.Base.Int.{ℤ}
use vcos.Kernel.Lockmgr.{
  Manager, Lease, LockEntry, err, panics, grant, acquire, release_entry, release, force_release,
  receive, close, expire_entry, expire, deliver_from, deliver,
}
use vcos.Kernel.Lockmgr.Calls.{
  Call, acquires, releases, forces, expires, delivers, receives, closes, step,
}
use vcos.Kernel.Lockmgr.Invariant.{Inv}

abbrev pub is_close : Call → Bool
is_close closes = true
is_close _ = false

grant-closed :
    (key owner : Text) (until : ℕ) (o : Option LockEntry) (m : Manager)
    → (grant key owner until o m).0.closed ≡ m.closed
unfolding grant
grant-closed key owner until none m = ground arith
grant-closed key owner until (some e) m = ground arith

release_entry-closed :
    (key owner : Text) (o : Option LockEntry) (m : Manager)
    → (release_entry key owner o m).0.closed ≡ m.closed
unfolding release_entry
release_entry-closed key owner none m = refl
release_entry-closed key owner (some e) m = ground arith

expire_entry-closed :
    (now : ℕ) (key owner : Text) (o : Option LockEntry) (m : Manager)
    → (expire_entry now key owner o m).closed ≡ m.closed
unfolding expire_entry
expire_entry-closed now key owner none m = refl
expire_entry-closed now key owner (some e) m = ground arith

deliver_from-closed :
    (stop_first : Bool) (sending : List Lease) (m : Manager)
    → (deliver_from stop_first sending m).0.closed ≡ m.closed
unfolding deliver_from
deliver_from-closed stop_first [] m = refl
deliver_from-closed stop_first (l ∷ rest) m = ground arith

-- Only `Close` closes, and nothing opens again.
pub step-closed : (m : Manager) (c : Call) → (step m c).closed ≡ (m.closed || is_close c)
unfolding step acquire release force_release receive expire deliver
step-closed m (acquires now k o ttl) = ground (arith, grant-closed k o _ (lookup k m.entries) m)
step-closed m (releases k o) = ground (arith, release_entry-closed k o (lookup k m.entries) m)
step-closed m (forces k) = ground arith
step-closed m (expires now k o) = ground (arith, expire_entry-closed now k o (lookup k m.entries) m)
step-closed m (delivers stop_first) = ground (arith, deliver_from-closed stop_first m.sending m)
step-closed m receives = ground arith
step-closed m closes = unfold close in ground arith

-- On a closed manager every call of `Acquire` with a key and an owner panics.
acquire_closed :
    (now : ℕ) (key owner : Text) (ttl : ℤ) (m : Manager)
    → Inv m
    → m.closed ≡ true
    → is_empty key ≡ false
    → is_empty owner ≡ false
    → acquire now key owner ttl m ≡ (m, err panics)
unfolding acquire grant lookup
acquire_closed now key owner ttl m v shut hk ho =
    let free : lookup key m.entries ≡ none = ap (lookup key) (v.emptied shut) in ground arith

-- A lease runs out, and `Close` comes between the timer's `Unlock` and its `select`: the send may
-- then find the channel closed, and panics.
pub close_before_deliver :
    (now : ℕ) (key : Text) (e : LockEntry) (m : Manager)
    → m.closed ≡ false
    → m.sending ≡ []
    → lookup key m.entries ≡ some e
    → e.expire_at ≤ now
    → (deliver false (close (expire now key e.owner m))).1 ≡ some panics
unfolding expire expire_entry close deliver
close_before_deliver now key e m h idle found due = ground (arith, ==_refl e.owner)
