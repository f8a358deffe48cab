-- ===== src/Kernel/Lockmgr/Invariant.antt =====
-- What holds of a lock manager between two calls (kernel/lockmgr/lockmgr.go).
use vcos.Base.{
  ℕ, ◌+◌, ◌-◌, ◌≤◌, ◌<◌, ◌≡◌, refl, Bool, true, false, List, [], ◌∷◌, Option, none, some, arith,
  length, length-append, inl, inr, Bool-cases,
}
use vcos.Base.Text.{Text, ◌==◌, is_empty}
use vcos.Base.Dict.{
  lookup, remove, Entries, Entries-insert, Entries-remove, Entries-lookup, IsMap, IsMap-insert,
  IsMap-remove,
}
use vcos.Base.Int.{ℤ, positive_or}
use vcos.Kernel.Lockmgr.{
  Manager, Lease, LockEntry, channel_capacity, default_ttl, new, put, grant, acquire, drop_one,
  release_entry, release, force_release, receive, close, expire_entry, expire, deliver_from,
  deliver,
}
use vcos.Kernel.Lockmgr.Calls.{
  Call, acquires, releases, forces, expires, delivers, receives, closes, step, run,
}

-- An entry is held at least once, by a named owner, and its timer is due when it runs out.
pub record IsHeld (key : Text) (e : LockEntry) : Type 0 where
  pub key_named : is_empty key ≡ false
  pub owner_named : is_empty e.owner ≡ false
  pub held : 0 < e.depth
  pub timed : e.timer ≡ e.expire_at

pub record Inv (m : Manager) : Type 0 where
  pub keyed : IsMap m.entries
  pub entered : Entries IsHeld m.entries
  pub emptied : m.closed ≡ true → m.entries ≡ []
  pub bounded : length m.expired ≤ channel_capacity

new-Inv : Inv new
unfolding new
new-Inv = ground arith

put-Inv : (key : Text) (e : LockEntry) (m : Manager) → IsHeld key e → Inv m → Inv (put key e m).0
unfolding put
put-Inv key e m h v =
    ground (
      arith,
      IsMap-insert key e m.entries v.keyed,
      Entries-insert IsHeld key e m.entries h v.entered,
    )

grant-Inv :
    (key owner : Text) (until : ℕ) (o : Option LockEntry) (m : Manager)
    → is_empty key ≡ false
    → is_empty owner ≡ false
    → lookup key m.entries ≡ o
    → Inv m
    → Inv (grant key owner until o m).0
unfolding grant
grant-Inv key owner until none m hk ho found v = put-Inv key _ m (ground arith) v
grant-Inv key owner until (some e) m hk ho found v =
    let h = Entries-lookup IsHeld key m.entries found v.entered in
    let e' : LockEntry = record e { depth = e.depth + 1; expire_at = until; timer = until } in
    elim (Bool-cases (e.owner == owner)) [
      | inl same ↦ rw (same, grant) (put-Inv key e' m (ground arith) v)
      | inr other ↦ rw (other, grant) v
    ]

acquire-Inv :
    (now : ℕ) (key owner : Text) (ttl : ℤ) (m : Manager)
    → Inv m
    → Inv (acquire now key owner ttl m).0
unfolding acquire
acquire-Inv now key owner ttl m v = ground (
  arith,
  λ (hk : is_empty key ≡ false) (ho : is_empty owner ≡ false).
      grant-Inv key owner (now + positive_or ttl default_ttl) _ m hk ho refl v,
)

remove-Inv : (key : Text) (m : Manager) → Inv m → Inv (record m { entries = remove key m.entries })
unfolding remove
remove-Inv key m v =
    ground
      (arith, IsMap-remove key m.entries v.keyed, Entries-remove IsHeld key m.entries v.entered)

-- Only an open manager holds a key.
pub held_open :
    (key : Text) (m : Manager) {e : LockEntry}
    → lookup key m.entries ≡ some e
    → Inv m
    → m.closed ≡ false
unfolding lookup
held_open key m found v = elim (Bool-cases m.closed) [
  | inl shut ↦ cc (found, v.emptied shut)
  | inr open_still ↦ open_still
]

release_entry-Inv :
    (key owner : Text) (o : Option LockEntry) (m : Manager)
    → lookup key m.entries ≡ o
    → Inv m
    → Inv (release_entry key owner o m).0
unfolding release_entry drop_one
release_entry-Inv key owner none m found v = v
release_entry-Inv key owner (some e) m found v =
    let h = Entries-lookup IsHeld key m.entries found v.entered in
    let e' : LockEntry = record e { depth = e.depth - 1 } in
    ground (
      arith,
      held_open key m found v,
      remove-Inv key m v,
      IsMap-insert key e' m.entries v.keyed,
      λ (p : IsHeld key e'). Entries-insert IsHeld key e' m.entries p v.entered,
    )

expire_entry-Inv :
    (now : ℕ) (key owner : Text) (o : Option LockEntry) (m : Manager)
    → Inv m
    → Inv (expire_entry now key owner o m)
unfolding expire_entry
expire_entry-Inv now key owner none m v = v
expire_entry-Inv now key owner (some e) m v = ground (arith, remove-Inv key m v)

deliver_from-Inv :
    (stop_first : Bool) (sending : List Lease) (m : Manager)
    → Inv m
    → Inv (deliver_from stop_first sending m).0
unfolding deliver_from
deliver_from-Inv stop_first [] m v = v
deliver_from-Inv stop_first (l ∷ rest) m v = ground (arith, length-append m.expired (l ∷ []))

step-Inv : (m : Manager) (c : Call) → Inv m → Inv (step m c)
unfolding step
step-Inv m (acquires now key owner ttl) v = acquire-Inv now key owner ttl m v
step-Inv m (releases key owner) v =
    unfold release in release_entry-Inv key owner (lookup key m.entries) m refl v
step-Inv m (forces key) v = unfold force_release in remove-Inv key m v
step-Inv m (expires now key owner) v =
    unfold expire in expire_entry-Inv now key owner (lookup key m.entries) m v
step-Inv m (delivers stop_first) v = unfold deliver in deliver_from-Inv stop_first m.sending m v
step-Inv m receives v = unfold receive in ground arith
step-Inv m closes v = unfold close in ground arith

run-Inv : (m : Manager) (cs : List Call) → Inv m → Inv (run m cs)
unfolding run
run-Inv m [] v = v
run-Inv m (c ∷ cs) v = run-Inv (step m c) cs (step-Inv m c v)

-- After any calls of its methods, timers and consumer, in any order, no key of a manager occurs
-- twice, each held key and its owner are not empty, its depth is positive and its timer is due when
-- it runs out, nothing is held after `Close`, and the channel of expired leases is within its
-- capacity.
pub run-new-Inv : (cs : List Call) → Inv (run new cs)
run-new-Inv cs = run-Inv new cs new-Inv
