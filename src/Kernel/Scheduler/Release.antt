-- ===== src/Kernel/Scheduler/Release.antt =====
-- `Release` of kernel/scheduler/scheduler.go against what `Decide` took.
use vcos.Base.{
  ℕ, ◌+◌, ◌≡◌, ◌↔◌, ◌⊎◌, ◌∙◌, refl, sym, ap, subst, true, false, Option, none, some, [], ◌∷◌, arith,
  if◌then◌else◌, inl, inr, Bool-cases,
}
use vcos.Base.Text.{Text, runes, is_empty, trim_space, eq_iff, ==_refl}
use vcos.Base.Int.{pos, positive_or}
use vcos.Kernel.Lockmgr.{Manager, LockEntry, default_ttl}
use vcos.Kernel.Lockmgr.Calls.{acquires, releases, step}
use vcos.Kernel.Lockmgr.Table.{table, change, step-table, acquired, released}
use vcos.Kernel.Lockmgr.Nesting.{HoldsTimes, open_after_acquire}
use vcos.Kernel.Scheduler.{Scheduler, IntentRequest, resource_of, owner_of, decide, give_back}
use vcos.Kernel.Scheduler.Admission.{Passes, owner_of-named, locked, decide_admits}

change_at :
    (t : Text → Option LockEntry) (key : Text) (o : Option LockEntry) → change t key o key ≡ o
change_at t key o = rw (==_refl key, if◌then◌else◌)

locked-table :
    (now ttl : ℕ) (req : IntentRequest) (m : Manager)
    → m.closed ≡ false
    → is_empty (resource_of req) ≡ false
    → table (locked now ttl req m) (resource_of req)
      ≡ acquired
          (owner_of req)
          (now + positive_or (pos ttl) default_ttl)
          (table m (resource_of req))
locked-table now ttl req m o hk =
    let key = resource_of req in
    let until = now + positive_or (pos ttl) default_ttl in
    rw (
      step-table m (acquires now key (owner_of req) (pos ttl)) key o,
      hk,
      owner_of-named req,
      if◌then◌else◌,
      change_at (table m) key (acquired (owner_of req) until (table m key)),
    )

released_first_iff :
    (owner by : Text) (until : ℕ) → (released by (acquired owner until none) ≡ none) ↔ (by ≡ owner)
released_first_iff owner by until =
    (λ h. ground (arith, eq_iff owner by), λ h. ground (arith, eq_iff owner by))

-- The text is the name that a request locks under: its trimmed owner; without one its trimmed
-- execution id; without both "anonymous".
abbrev pub IsLockName : IntentRequest → Text → Type 0
IsLockName req by =
    ((is_empty (trim_space req.owner) ≡ false) × (by ≡ trim_space req.owner))
    ⊎ ((trim_space req.owner ≡ [])
        × (is_empty (trim_space req.execution_id) ≡ false)
        × (by ≡ trim_space req.execution_id))
    ⊎ ((trim_space req.owner ≡ []) × (trim_space req.execution_id ≡ []) × (by ≡ runes "anonymous"))

no_text : (s : Text) → is_empty s ≡ true → s ≡ []
no_text [] h = refl
no_text (c ∷ s) h = cc

owner_of_iff : (req : IntentRequest) (by : Text) → (by ≡ owner_of req) ↔ IsLockName req by
unfolding owner_of
owner_of_iff req by = elim (Bool-cases (is_empty (trim_space req.owner))) [
  | inl no_owner ↦ elim (Bool-cases (is_empty (trim_space req.execution_id))) [
    | inl no_id ↦
        rw (no_owner, no_id, if◌then◌else◌)
          (λ h. inr (inr (no_text _ no_owner, no_text _ no_id, h)), λ either. ground arith)
    | inr some_id ↦
        rw (no_owner, some_id, if◌then◌else◌)
          (
            λ h. inr (inl (no_text _ no_owner, refl, h)),
            λ either. elim either [
              | inl own ↦ absurd (ground arith)
              | inr (inl (_, _, e)) ↦ e
              | inr (inr (_, blank, _)) ↦ absurd (cc (some_id, ap is_empty blank))
            ],
          )
  ]
  | inr some_owner ↦
      rw (some_owner, if◌then◌else◌)
        (
          λ h. inl (refl, h),
          λ either. elim either [
            | inl (_, e) ↦ e
            | inr (inl (blank, _, _)) ↦ absurd (cc (some_owner, ap is_empty blank))
            | inr (inr (blank, _, _)) ↦ absurd (cc (some_owner, ap is_empty blank))
          ],
        )
]

freed_iff :
    (now ttl : ℕ) (req : IntentRequest) (m : Manager) (by : Text)
    → m.closed ≡ false
    → is_empty (resource_of req) ≡ false
    → table m (resource_of req) ≡ none
    → (table (step (locked now ttl req m) (releases (resource_of req) by)) (resource_of req) ≡ none)
      ↔ (by ≡ owner_of req)
freed_iff now ttl req m by o hk free = rw freed (released_first_iff (owner_of req) by until)
  where
    key : Text
    key = resource_of req

    until : ℕ
    until = now + positive_or (pos ttl) default_ttl

    m' : Manager
    m' = locked now ttl req m

    freed : table (step m' (releases key by)) key ≡ released by (acquired (owner_of req) until none)
    freed =
        step-table m' (releases key by) key
          (open_after_acquire m now key (owner_of req) (pos ttl) o)
        ∙ change_at (table m') key (released by (table m' key))
        ∙ ap (released by) (locked-table now ttl req m o hk)
        ∙ ap (λ x. released by (acquired (owner_of req) until x)) free

-- After `Decide` has admitted a request to a free resource, `Release` of that resource frees it
-- exactly when it is given the name that the request was locked under: the trimmed owner of the
-- request as the rules leave it, without one its trimmed execution id, without both "anonymous".
-- Given any other text, the untrimmed owner included, it leaves the resource held.
pub give_back_iff :
    (meanwhile : Manager → Manager) (now later : ℕ) (s : Scheduler) (req req' : IntentRequest)
    (m : Manager) (by : Text)
    → Passes s req req'
    → m.closed ≡ false
    → table m (resource_of req') ≡ none
    → (m' m'' : Manager) × ((decide meanwhile now later s req (some m)).0 ≡ some m')
      × (give_back (resource_of req') by (some m') ≡ some m'')
      × ((table m'' (resource_of req') ≡ none) ↔ IsLockName req' by)
unfolding give_back
give_back_iff meanwhile now later s req req' m by p o free =
    let m' = locked now s.default_lock_ttl req' m in
    let admitted =
      decide_admits meanwhile now later 0 s req req' m p o
        (subst (HoldsTimes (owner_of req') 0) (sym free) refl) in
    let (to, from) = freed_iff now s.default_lock_ttl req' m by o p.1 free in
    let (named, names) = owner_of_iff req' by in
    (
      m',
      step m' (releases (resource_of req') by),
      ap (λ r. r.0) admitted.0,
      rw (p.1, if◌then◌else◌) (unfold step in refl),
      (λ h. named (to h), λ h. from (names h)),
    )
