-- ===== src/Kernel/Lockmgr/Expiry.antt =====
-- Leases that run out (kernel/lockmgr/lockmgr.go).
use vcos.Base.{
  ℕ, ◌+◌, ◌≤◌, ◌<◌, ◌≡◌, refl, ◌||◌, [], ◌∷◌, ◌++◌, Option, none, some, arith, inl, inr, Bool-cases,
  if◌then◌else◌,
}
use vcos.Base.Text.{Text, is_empty, ==_refl}
use vcos.Base.Dict.{lookup, lookup-remove, lookup-insert, Entries-lookup}
use vcos.Base.Int.{ℤ, positive_or}
use vcos.Kernel.Lockmgr.{
  Manager, LockEntry, Lease, ok, put, grant, default_ttl, acquire, expire, expire_entry,
}
use vcos.Kernel.Lockmgr.Calls.{expires, step}
use vcos.Kernel.Lockmgr.Invariant.{Inv, IsHeld}
use vcos.Kernel.Lockmgr.Table.{table}

-- The timer that is pending for a held key frees it when it fires on time, and hands the lease that
-- ran out, as it was last extended, to the channel's sender.
timer_frees :
    (m : Manager) (now : ℕ) (key : Text) (e : LockEntry)
    → Inv m
    → table m key ≡ some e
    → e.timer ≤ now
    → (table (step m (expires now key e.owner)) key ≡ none)
      × ((step m (expires now key e.owner)).sending
          ≡ m.sending
            ++ record { key = key; owner = e.owner; expire_at = e.expire_at; depth = e.depth } ∷ [])
unfolding step expire expire_entry
timer_frees m now key e v found due =
    let h = Entries-lookup IsHeld key m.entries found v.entered in
    ground (arith, ==_refl e.owner, ==_refl key, lookup-remove key key m.entries)

-- A successful `Acquire` leaves the lease's limit in the entry.
grant-limit :
    (key owner : Text) (until : ℕ) (o : Option LockEntry) (m : Manager) {l : Lease}
    → (grant key owner until o m).1 ≡ ok l
    → (e : LockEntry) × (lookup key (grant key owner until o m).0.entries ≡ some e)
      × (e.expire_at ≡ until)
unfolding grant put
grant-limit key owner until none m h =
    let e' : LockEntry = record { owner = owner; depth = 1; expire_at = until; timer = until } in
    (e', ground (arith, lookup-insert key key e' m.entries, ==_refl key), refl)
grant-limit key owner until (some e) m h =
    let e' : LockEntry = record e { depth = e.depth + 1; expire_at = until; timer = until } in
    (e', ground (arith, lookup-insert key key e' m.entries, ==_refl key), refl)

expire_entry-early :
    (now : ℕ) (key owner : Text) (e : LockEntry) (m : Manager)
    → now < e.expire_at
    → expire_entry now key owner (some e) m ≡ m
unfolding expire_entry
expire_entry-early now key owner e m early = ground arith

acquire-limit :
    (m : Manager) (now : ℕ) (key owner : Text) (ttl : ℤ) {l : Lease}
    → (acquire now key owner ttl m).1 ≡ ok l
    → (e : LockEntry) × (lookup key (acquire now key owner ttl m).0.entries ≡ some e)
      × (e.expire_at ≡ now + positive_or ttl default_ttl)
unfolding acquire
acquire-limit m now key owner ttl {l} granted = elim (Bool-cases (is_empty key || is_empty owner)) [
  | inl bad ↦ absurd (ground arith)
  | inr good ↦
      rw (good, if◌then◌else◌)
        (grant-limit key owner (now + positive_or ttl default_ttl) (lookup key m.entries) m {l = l}
          (ground arith))
]

-- A timer that fires before the lease runs out, since an `Acquire` has extended it, does nothing.
renewal_survives :
    (m : Manager) (granted_at now : ℕ) (key owner : Text) (ttl : ℤ) {l : Lease}
    → (acquire granted_at key owner ttl m).1 ≡ ok l
    → now < granted_at + positive_or ttl default_ttl
    → expire now key owner (acquire granted_at key owner ttl m).0
      ≡ (acquire granted_at key owner ttl m).0
unfolding expire
renewal_survives m granted_at now key owner ttl granted early =
    let (e, found, limit) = acquire-limit m granted_at key owner ttl granted in
    rw found (expire_entry-early now key owner e _ (omega (arith, limit)))
