-- ===== src/Kernel/Lockmgr/Nesting.antt =====
-- Reentrant holds: each `Acquire` is matched by one `Release` (kernel/lockmgr/lockmgr.go).
use vcos.Base.{
  ℕ, zero, suc, ◌+◌, ◌-◌, ◌<◌, ◌≡◌, refl, subst, false, List, [], ◌∷◌, ◌++◌, Option, none, some,
  arith, length, inl, inr, Bool-cases, leb, if◌then◌else◌, replicate,
}
use vcos.Base.Text.{Text, is_empty, eq_iff, ==_refl}
use vcos.Base.Dict.{lookup}
use vcos.Base.Int.{ℤ, positive_or}
use vcos.Kernel.Lockmgr.{Manager, LockEntry, Lease, ok, acquire, grant, put, default_ttl}
use vcos.Kernel.Lockmgr.Calls.{Call, acquires, releases, step, run}
use vcos.Kernel.Lockmgr.Closing.{step-closed}
use vcos.Kernel.Lockmgr.Table.{Table, table, step-table, change, acquired, released}

-- Nobody but `owner` holds the key, and it holds it `n` times.
abbrev pub HoldsTimes : Text → ℕ → Option LockEntry → Type 0
HoldsTimes owner n none = n ≡ 0
HoldsTimes owner n (some e) = (e.owner ≡ owner) × (e.depth ≡ n) × (0 < n)

-- `Acquire` by one owner, at these times and with these limits.
abbrev pub acquire_all : Text → Text → List (ℕ × ℤ) → List Call
acquire_all key owner [] = []
acquire_all key owner ((now, ttl) ∷ ts) = acquires now key owner ttl ∷ acquire_all key owner ts

abbrev pub release_times : Text → Text → ℕ → List Call
release_times key owner k = replicate k (releases key owner)

acquired-HoldsTimes :
    (owner : Text) (until n : ℕ) (x : Option LockEntry)
    → HoldsTimes owner n x
    → HoldsTimes owner (suc n) (acquired owner until x)
acquired-HoldsTimes owner until n none h = (refl, omega arith, omega arith)
acquired-HoldsTimes owner until n (some e) h =
    rw ((eq_iff e.owner owner).1 h.0, if◌then◌else◌) (h.0, omega arith, omega arith)

released-HoldsTimes :
    (owner : Text) (n : ℕ) (x : Option LockEntry)
    → HoldsTimes owner n x
    → HoldsTimes owner (n - 1) (released owner x)
released-HoldsTimes owner n none h = omega arith
released-HoldsTimes owner n (some e) h = elim (Bool-cases (leb e.depth 1)) [
  | inl last ↦ rw ((eq_iff e.owner owner).1 h.0, if◌then◌else◌, last) (ground arith)
  | inr more ↦
      rw ((eq_iff e.owner owner).1 h.0, if◌then◌else◌, more) (h.0, ground arith, ground arith)
]

change_here : (t : Table) (key : Text) (o : Option LockEntry) → change t key o key ≡ o
change_here t key o = rw (==_refl key, if◌then◌else◌)

pub acquires-HoldsTimes :
    (m : Manager) (key owner : Text) (n now : ℕ) (ttl : ℤ)
    → m.closed ≡ false
    → is_empty key ≡ false
    → is_empty owner ≡ false
    → HoldsTimes owner n (table m key)
    → HoldsTimes owner (suc n) (table (step m (acquires now key owner ttl)) key)
acquires-HoldsTimes m key owner n now ttl o hk ho h =
    let until = now + positive_or ttl default_ttl in
    rw
      (
        step-table m (acquires now key owner ttl) key o,
        hk,
        ho,
        if◌then◌else◌,
        change_here (table m) key (acquired owner until (table m key)),
      )
      (acquired-HoldsTimes owner until n (table m key) h)

-- An owner whom nobody keeps off is granted a lease on the key it asks for.
pub acquire_granted :
    (m : Manager) (key owner : Text) (n now : ℕ) (ttl : ℤ)
    → m.closed ≡ false
    → is_empty key ≡ false
    → is_empty owner ≡ false
    → HoldsTimes owner n (table m key)
    → (l : Lease) × ((acquire now key owner ttl m).1 ≡ ok l) × (l.key ≡ key)
unfolding acquire
acquire_granted m key owner n now ttl o hk ho h =
    rw (hk, ho, if◌then◌else◌) (go (lookup key m.entries) h)
  where
    until : ℕ
    until = now + positive_or ttl default_ttl

    go :
        (x : Option LockEntry)
        → HoldsTimes owner n x
        → (l : Lease) × ((grant key owner until x m).1 ≡ ok l) × (l.key ≡ key)
    go none _ =
        unfold grant put in
        (record { key = key; owner = owner; expire_at = until; depth = 1 }, ground arith, refl)
    go (some e) w =
        unfold grant put in
        (
          record { key = key; owner = e.owner; expire_at = until; depth = e.depth + 1 },
          ground (arith, eq_iff e.owner owner),
          refl,
        )

pub releases-HoldsTimes :
    (m : Manager) (key owner : Text) (n : ℕ)
    → m.closed ≡ false
    → HoldsTimes owner n (table m key)
    → HoldsTimes owner (n - 1) (table (step m (releases key owner)) key)
releases-HoldsTimes m key owner n o h =
    rw
      (
        step-table m (releases key owner) key o,
        change_here (table m) key (released owner (table m key)),
      )
      (released-HoldsTimes owner n (table m key) h)

pub open_after_acquire :
    (m : Manager) (now : ℕ) (key owner : Text) (ttl : ℤ)
    → m.closed ≡ false
    → (step m (acquires now key owner ttl)).closed ≡ false
open_after_acquire m now key owner ttl o = rw (step-closed m (acquires now key owner ttl), o)

open_after_release :
    (m : Manager) (key owner : Text)
    → m.closed ≡ false
    → (step m (releases key owner)).closed ≡ false
open_after_release m key owner o = rw (step-closed m (releases key owner), o)

release_times-HoldsTimes :
    (m : Manager) (key owner : Text) (n k : ℕ)
    → m.closed ≡ false
    → HoldsTimes owner n (table m key)
    → HoldsTimes owner (n - k) (table (run m (release_times key owner k)) key)
unfolding run
release_times-HoldsTimes m key owner n zero o h =
    subst (λ i. HoldsTimes owner i (table m key)) (omega arith) h
release_times-HoldsTimes m key owner n (suc k) o h =
    let m' = step m (releases key owner) in
    let h' = releases-HoldsTimes m key owner n o h in
    subst (λ i. HoldsTimes owner i (table (run m' (release_times key owner k)) key)) (omega arith)
      (release_times-HoldsTimes m' key owner (n - 1) k (open_after_release m key owner o) h')

-- Balance: from a state in which nobody else holds the key and the owner holds it n times, any
-- number of acquires by the owner followed by k of its releases leaves it held by nobody else, and
-- n plus the number of acquires less k times by the owner; so it is free exactly when the releases
-- have caught up.
pub balance :
    (m : Manager) (key owner : Text) (n k : ℕ) (ts : List (ℕ × ℤ))
    → m.closed ≡ false
    → is_empty key ≡ false
    → is_empty owner ≡ false
    → HoldsTimes owner n (table m key)
    → HoldsTimes owner
        (n + length ts - k)
        (table (run m (acquire_all key owner ts ++ release_times key owner k)) key)
unfolding run
balance m key owner n k [] o hk ho h =
    subst (λ i. HoldsTimes owner i (table (run m (release_times key owner k)) key)) (omega arith)
      (release_times-HoldsTimes m key owner n k o h)
balance m key owner n k ((now, ttl) ∷ ts) o hk ho h =
    let m' = step m (acquires now key owner ttl) in
    let h' = acquires-HoldsTimes m key owner n now ttl o hk ho h in
    subst
      (λ i.
        HoldsTimes owner i
          (table (run m' (acquire_all key owner ts ++ release_times key owner k)) key))
      (omega arith)
      (balance m' key owner (suc n) k ts (open_after_acquire m now key owner ttl o) hk ho h')
