-- ===== src/Kernel/Lockmgr/Table.antt =====
-- The promise of kernel/lockmgr/lockmgr.go: a table that says for each key who holds it, how often
-- and until when. A call changes its own key alone, as the functions below say.
use vcos.Base.{
  ℕ, ◌+◌, ◌-◌, ◌≡◌, refl, subst, Bool, false, ◌||◌, List, [], ◌∷◌, Option, none, some, arith, inl,
  inr, Bool-cases, leb, ltb, if◌then◌else◌,
}
use vcos.Base.Text.{Text, ◌==◌, is_empty, eq_iff}
use vcos.Base.Dict.{lookup, lookup-insert, lookup-remove}
use vcos.Base.Int.{ℤ, positive_or}
use vcos.Kernel.Lockmgr.{
  Manager, LockEntry, Lease, default_ttl, put, grant, acquire, drop_one, release_entry, release,
  force_release, receive, close, expire_entry, expire, deliver_from, deliver,
}
use vcos.Kernel.Lockmgr.Calls.{
  Call, acquires, releases, forces, expires, delivers, receives, closes, step,
}

abbrev pub Table : Type 0
Table = Text → Option LockEntry

abbrev pub table : Manager → Table
table m key = lookup key m.entries

-- What a call makes of the entry of its key.
abbrev pub acquired : Text → ℕ → Option LockEntry → Option LockEntry
acquired owner until none =
    some (record { owner = owner; depth = 1; expire_at = until; timer = until })
acquired owner until (some e) =
    if e.owner == owner
    then some (record e { depth = e.depth + 1; expire_at = until; timer = until })
    else some e

abbrev pub released : Text → Option LockEntry → Option LockEntry
released owner none = none
released owner (some e) =
    if e.owner == owner
    then (if leb e.depth 1 then none else some (record e { depth = e.depth - 1 }))
    else some e

abbrev pub elapsed : ℕ → Text → Option LockEntry → Option LockEntry
elapsed now owner none = none
elapsed now owner (some e) =
    if e.owner == owner then (if ltb now e.expire_at then some e else none) else some e

abbrev pub change : Table → Text → Option LockEntry → Table
change t key o j = if key == j then o else t j

abbrev pub table_step : Call → Table → Table
table_step (acquires now key owner ttl) t =
    if is_empty key || is_empty owner
    then t
    else change t key (acquired owner (now + positive_or ttl default_ttl) (t key))
table_step (releases key owner) t = change t key (released owner (t key))
table_step (forces key) t = change t key none
table_step (expires now key owner) t = change t key (elapsed now owner (t key))
table_step (delivers stop_first) t = t
table_step receives t = t
table_step closes t = λ j. none

-- Writing back what is there changes nothing.
change_self : (t : Table) (key j : Text) {o : Option LockEntry} → t key ≡ o → t j ≡ change t key o j
change_self t key j {o} e = elim (Bool-cases (key == j)) [
  | inl same ↦ rw (same, if◌then◌else◌) (subst (λ k. t k ≡ o) ((eq_iff key j).0 same) e)
  | inr other ↦ rw (other, if◌then◌else◌)
]

put-table :
    (key : Text) (e : LockEntry) (m : Manager) (j : Text)
    → m.closed ≡ false
    → table (put key e m).0 j ≡ change (table m) key (some e) j
unfolding put
put-table key e m j h = rw (h, if◌then◌else◌) (lookup-insert key j e m.entries)

grant-table :
    (key owner : Text) (until : ℕ) (o : Option LockEntry) (m : Manager) (j : Text)
    → m.closed ≡ false
    → lookup key m.entries ≡ o
    → table (grant key owner until o m).0 j ≡ change (table m) key (acquired owner until o) j
unfolding grant
grant-table key owner until none m j h found = put-table key _ m j h
grant-table key owner until (some e) m j h found =
    let e' : LockEntry = record e { depth = e.depth + 1; expire_at = until; timer = until } in
    ground (arith, put-table key e' m j h, change_self (table m) key j found)

acquire-table :
    (now : ℕ) (key owner : Text) (ttl : ℤ) (m : Manager) (j : Text)
    → m.closed ≡ false
    → table (acquire now key owner ttl m).0 j ≡ table_step (acquires now key owner ttl) (table m) j
unfolding acquire
acquire-table now key owner ttl m j h =
    let until = now + positive_or ttl default_ttl in
    ground (arith, grant-table key owner until (lookup key m.entries) m j h refl)

release_entry-table :
    (key owner : Text) (o : Option LockEntry) (m : Manager) (j : Text)
    → lookup key m.entries ≡ o
    → table (release_entry key owner o m).0 j ≡ change (table m) key (released owner o) j
unfolding release_entry drop_one
release_entry-table key owner none m j found = change_self (table m) key j found
release_entry-table key owner (some e) m j found = ground (
  arith,
  change_self (table m) key j found,
  lookup-remove key j m.entries,
  lookup-insert key j (record e { depth = e.depth - 1 }) m.entries,
)

expire_entry-table :
    (now : ℕ) (key owner : Text) (o : Option LockEntry) (m : Manager) (j : Text)
    → lookup key m.entries ≡ o
    → table (expire_entry now key owner o m) j ≡ change (table m) key (elapsed now owner o) j
unfolding expire_entry
expire_entry-table now key owner none m j found = change_self (table m) key j found
expire_entry-table now key owner (some e) m j found =
    ground (arith, change_self (table m) key j found, lookup-remove key j m.entries)

deliver_from-table :
    (stop_first : Bool) (sending : List Lease) (m : Manager) (j : Text)
    → table (deliver_from stop_first sending m).0 j ≡ table m j
unfolding deliver_from
deliver_from-table stop_first [] m j = refl
deliver_from-table stop_first (l ∷ rest) m j = ground arith

-- While the manager is open, each call acts on the table as `table_step` says: acquiring, releasing
-- and expiring change the entry of their key by `acquired`, `released` and `elapsed`, and every
-- other key keeps its entry.
pub step-table :
    (m : Manager) (c : Call) (j : Text)
    → m.closed ≡ false
    → table (step m c) j ≡ table_step c (table m) j
unfolding step
step-table m (acquires now key owner ttl) j h = acquire-table now key owner ttl m j h
step-table m (releases key owner) j h =
    unfold release in release_entry-table key owner (lookup key m.entries) m j refl
step-table m (forces key) j h = unfold force_release in lookup-remove key j m.entries
step-table m (expires now key owner) j h =
    unfold expire in expire_entry-table now key owner (lookup key m.entries) m j refl
step-table m (delivers stop_first) j h =
    unfold deliver in deliver_from-table stop_first m.sending m j
step-table m receives j h = unfold receive in ground arith
step-table m closes j h = unfold close lookup in rw (h, if◌then◌else◌)
