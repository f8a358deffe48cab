-- ===== src/Kernel/Scheduler/Admission.antt =====
-- How `Decide` and `Release` of kernel/scheduler/scheduler.go use the lock manager.
use vcos.Base.{
  ℕ, suc, ◌≡◌, ◌≢◌, ◌∙◌, refl, sym, ap, subst, false, Option, none, some, [], arith, if◌then◌else◌,
}
use vcos.Base.Text.{Text, is_empty, ◌==◌, runes}
use vcos.Base.Int.{ℤ, pos, sub_ℕ}
use vcos.Base.Dict.{lookup}
use vcos.Kernel.Lockmgr.{Manager, LockEntry, ok, holder}
use vcos.Kernel.Lockmgr.Calls.{acquires, step}
use vcos.Kernel.Lockmgr.Table.{table, step-table}
use vcos.Kernel.Lockmgr.Owners.{IsOwner, acquire_other}
use vcos.Kernel.Lockmgr.Nesting.{HoldsTimes, acquires-HoldsTimes, acquire_granted}
use vcos.Kernel.Scheduler.{
  Scheduler, IntentRequest, Decision, admit, defer, plain, run_rules, with_kind, resource_of,
  owner_of, answer, lock_resource, after_rules, decide,
}

-- An owner is always named.
pub owner_of-named : (req : IntentRequest) → is_empty (owner_of req) ≡ false
unfolding owner_of
owner_of-named req = ground arith

-- The rules leave `req'` and have no opinion on it, and it asks for a resource.
abbrev pub Passes : Scheduler → IntentRequest → IntentRequest → Type 0
Passes s req req' =
    (run_rules s.rules (with_kind req.kind req) ≡ (req', none))
    × (is_empty (resource_of req') ≡ false)

abbrev admission : Text → ℕ → Decision
admission key ttl = record {
  outcome = admit;
  reason = [];
  lock_key = key;
  lock_ttl = ttl;
  conflict = [];
}

lock_resource-admits :
    (meanwhile : Manager → Manager) (now later ttl n : ℕ) (key owner : Text) (m : Manager)
    → m.closed ≡ false
    → is_empty key ≡ false
    → is_empty owner ≡ false
    → HoldsTimes owner n (table m key)
    → lock_resource meanwhile now later ttl key owner (some m)
      ≡ (some (step m (acquires now key owner (pos ttl))), ok (admission key ttl))
unfolding lock_resource answer step
lock_resource-admits meanwhile now later ttl n key owner m o hk ho h =
    let (l, granted, same) = acquire_granted m key owner n now (pos ttl) o hk ho h in
    rw (hk, if◌then◌else◌, granted) (rw same)

lock_resource-defers :
    (meanwhile : Manager → Manager) (now later ttl : ℕ) (key owner holding : Text) (m : Manager)
    → is_empty key ≡ false
    → is_empty owner ≡ false
    → owner ≢ holding
    → IsOwner holding (table m key)
    → lock_resource meanwhile now later ttl key owner (some m) ≡ (
      some (meanwhile m),
      ok (record (plain defer (runes "resource held by another owner")) {
        conflict = (holder later key (meanwhile m)).0;
      }),
    )
unfolding lock_resource answer
lock_resource-defers meanwhile now later ttl key owner holding m hk ho ne own =
    rw (hk, if◌then◌else◌, acquire_other now key holding owner (pos ttl) m hk ho ne own)

holder-IsOwner :
    (later : ℕ) (key owner : Text) (m : Manager)
    → IsOwner owner (table m key)
    → (holder later key m).0 ≡ owner
unfolding holder
holder-IsOwner later key owner m own = go (lookup key m.entries) own
  where
    go :
        (x : Option LockEntry)
        → IsOwner owner x
        → (elim x as (λ _. Text × ℤ) [
          | none ↦ ([], pos 0)
          | some e ↦ (e.owner, sub_ℕ e.expire_at later)
        ]).0
          ≡ owner
    go none h = absurd h
    go (some e) h = h

decide-passes :
    (meanwhile : Manager → Manager) (now later : ℕ) (s : Scheduler) (req req' : IntentRequest)
    (lock : Option Manager)
    → run_rules s.rules (with_kind req.kind req) ≡ (req', none)
    → decide meanwhile now later s req lock
      ≡ lock_resource meanwhile now later s.default_lock_ttl (resource_of req') (owner_of req') lock
unfolding decide after_rules
decide-passes meanwhile now later s req req' lock h = rw h

-- The manager after the lock of a request was taken at a time, for so long.
abbrev pub locked : ℕ → ℕ → IntentRequest → Manager → Manager
locked now ttl req m = step m (acquires now (resource_of req) (owner_of req) (pos ttl))

-- Admission: where no rule objects and no other owner holds the resource (the request's owner may
-- hold it n times), `Decide` on an open manager admits the request, reports the resource and the
-- default limit, and leaves the resource held n + 1 times by the request's owner and every other key
-- as it was.
pub decide_admits :
    (meanwhile : Manager → Manager) (now later n : ℕ) (s : Scheduler) (req req' : IntentRequest)
    (m : Manager)
    → Passes s req req'
    → m.closed ≡ false
    → HoldsTimes (owner_of req') n (table m (resource_of req'))
    → (decide meanwhile now later s req (some m) ≡ (
      some (locked now s.default_lock_ttl req' m),
      ok (admission (resource_of req') s.default_lock_ttl),
    ))
      × HoldsTimes
          (owner_of req')
          (suc n)
          (table (locked now s.default_lock_ttl req' m) (resource_of req'))
      × ((j : Text)
          → (resource_of req' == j) ≡ false
          → table (locked now s.default_lock_ttl req' m) j ≡ table m j)
decide_admits meanwhile now later n s req req' m (passed, hk) o h =
    let ho = owner_of-named req' in
    (
      decide-passes meanwhile now later s req req' (some m) passed
          ∙ lock_resource-admits meanwhile now later s.default_lock_ttl n (resource_of req')
              (owner_of req') m o hk ho h,
      acquires-HoldsTimes m (resource_of req') (owner_of req') n now (pos s.default_lock_ttl) o hk
          ho h,
      λ j other. rw (
        step-table m (acquires now (resource_of req') (owner_of req') (pos s.default_lock_ttl)) j o,
        hk,
        ho,
        if◌then◌else◌,
        other,
      ),
    )

HoldsTimes-IsOwner :
    (owner : Text) (n : ℕ) (x : Option LockEntry) → HoldsTimes owner (suc n) x → IsOwner owner x
HoldsTimes-IsOwner owner n none h = omega arith
HoldsTimes-IsOwner owner n (some e) h = h.0

-- Serialisation: after a request was admitted to a free resource, a second request for the same
-- resource by another owner, before any other use of the manager, is deferred, with the first
-- request's owner as the conflict, and leaves the manager as it was.
pub decide_serializes :
    (now later now' later' : ℕ) (s s' : Scheduler) (req req' next next' : IntentRequest)
    (m : Manager)
    → Passes s req req'
    → Passes s' next next'
    → m.closed ≡ false
    → table m (resource_of req') ≡ none
    → resource_of next' ≡ resource_of req'
    → owner_of next' ≢ owner_of req'
    → let m' = locked now s.default_lock_ttl req' m in
      (decide (λ m. m) now later s req (some m)
        ≡ (some m', ok (admission (resource_of req') s.default_lock_ttl)))
      × (decide (λ m. m) now' later' s' next (some m') ≡ (
        some m',
        ok (record (plain defer (runes "resource held by another owner")) {
          conflict = owner_of req';
        }),
      ))
decide_serializes now later now' later' s s' req req' next next' m p p' o free same ne = (
  first.0,
  decide-passes (λ m. m) now' later' s' next next' (some m') p'.0
      ∙ lock_resource-defers (λ m. m) now' later' s'.default_lock_ttl (resource_of next')
          (owner_of next') (owner_of req') m' p'.1 (owner_of-named next') ne own
      ∙ ap
          (λ c. (
            some m',
            ok (record (plain defer (runes "resource held by another owner")) { conflict = c }),
          ))
          (holder-IsOwner later' (resource_of next') (owner_of req') m' own),
)
  where
    m' : Manager
    m' = locked now s.default_lock_ttl req' m

    held : HoldsTimes (owner_of req') 0 (table m (resource_of req'))
    held = subst (HoldsTimes (owner_of req') 0) (sym free) refl

    first :
        (decide (λ m. m) now later s req (some m)
          ≡ (some m', ok (admission (resource_of req') s.default_lock_ttl)))
        × HoldsTimes (owner_of req') 1 (table m' (resource_of req'))
        × ((j : Text) → (resource_of req' == j) ≡ false → table m' j ≡ table m j)
    first = decide_admits (λ m. m) now later 0 s req req' m p o held

    own : IsOwner (owner_of req') (table m' (resource_of next'))
    own =
        subst (λ k. IsOwner (owner_of req') (table m' k)) (sym same)
          (HoldsTimes-IsOwner (owner_of req') 0 _ first.1)
