-- ===== src/Kernel/Lockmgr/Owners.antt =====
-- Who holds a key, and how often (kernel/lockmgr/lockmgr.go).
use vcos.Base.{
  ℕ, ◌+◌, ◌≡◌, ◌≢◌, refl, sym, subst, Bool, true, false, ◌||◌, ◌&&◌, List, [], ◌∷◌, Option, none,
  some, arith, inl, inr, Bool-cases, if◌then◌else◌, any,
}
use vcos.Base.Text.{Text, ◌==◌, is_empty, eq_iff}
use vcos.Base.Dict.{lookup}
use vcos.Base.Int.{ℤ, positive_or}
use vcos.Kernel.Lockmgr.{Manager, LockEntry, err, err_conflict, default_ttl, acquire, grant}
use vcos.Kernel.Lockmgr.Calls.{
  Call, acquires, releases, forces, expires, delivers, receives, closes, step, run,
}
use vcos.Kernel.Lockmgr.Closing.{step-closed}
use vcos.Kernel.Lockmgr.Table.{
  Table, table, table_step, step-table, change, acquired, released, elapsed,
}

-- The calls that can take a key away from its owner.
abbrev pub ends : Text → Text → Call → Bool
ends key owner (acquires now k o ttl) = false
ends key owner (releases k o) = (k == key) && (o == owner)
ends key owner (forces k) = k == key
ends key owner (expires now k o) = (k == key) && (o == owner)
ends key owner (delivers stop_first) = false
ends key owner receives = false
ends key owner closes = true

-- The owner of a key, and how often it holds it.
abbrev pub IsOwner : Text → Option LockEntry → Type 0
IsOwner owner none = ⊥
IsOwner owner (some e) = e.owner ≡ owner

change-IsOwner :
    (t : Table) (f : Option LockEntry → Option LockEntry) (k key owner : Text)
    → IsOwner owner (t key)
    → ((x : Option LockEntry) → (k == key) ≡ true → IsOwner owner x → IsOwner owner (f x))
    → IsOwner owner (change t k (f (t k)) key)
change-IsOwner t f k key owner own keeps = elim (Bool-cases (k == key)) [
  | inl same ↦
      rw (same, if◌then◌else◌)
        (keeps (t k) same (subst (λ i. IsOwner owner (t i)) (sym ((eq_iff k key).0 same)) own))
  | inr other ↦ rw (other, if◌then◌else◌) own
]

acquired-IsOwner :
    (o owner : Text) (until : ℕ) (x : Option LockEntry)
    → IsOwner owner x
    → IsOwner owner (acquired o until x)
acquired-IsOwner o owner until none h = absurd h
acquired-IsOwner o owner until (some e) h = elim (Bool-cases (e.owner == o)) [
  | inl same ↦ rw (same, if◌then◌else◌) h
  | inr other ↦ rw (other, if◌then◌else◌) h
]

-- A release, or a timer, of another owner.
other_owner :
    (o owner : Text) (e : LockEntry)
    → (o == owner) ≡ false
    → e.owner ≡ owner
    → (e.owner == o) ≡ false
other_owner o owner e h own = ground (arith, eq_iff e.owner o, eq_iff o owner)

released-IsOwner :
    (o owner : Text) (x : Option LockEntry)
    → (o == owner) ≡ false
    → IsOwner owner x
    → IsOwner owner (released o x)
released-IsOwner o owner none other h = absurd h
released-IsOwner o owner (some e) other h = rw (other_owner o owner e other h, if◌then◌else◌) h

elapsed-IsOwner :
    (now : ℕ) (o owner : Text) (x : Option LockEntry)
    → (o == owner) ≡ false
    → IsOwner owner x
    → IsOwner owner (elapsed now o x)
elapsed-IsOwner now o owner none other h = absurd h
elapsed-IsOwner now o owner (some e) other h = rw (other_owner o owner e other h, if◌then◌else◌) h

and-false : (a b : Bool) → (a && b) ≡ false → a ≡ true → b ≡ false
and-false a b h k = ground arith

table_step-IsOwner :
    (t : Table) (c : Call) (key owner : Text)
    → ends key owner c ≡ false
    → IsOwner owner (t key)
    → IsOwner owner (table_step c t key)
table_step-IsOwner t (acquires now k o ttl) key owner h own =
    elim (Bool-cases (is_empty k || is_empty o)) [
      | inl bad ↦ rw (bad, if◌then◌else◌) own
      | inr good ↦
          rw (good, if◌then◌else◌)
            (change-IsOwner t (acquired o (now + positive_or ttl default_ttl)) k key owner own
              (λ x _ w. acquired-IsOwner o owner _ x w))
    ]
table_step-IsOwner t (releases k o) key owner h own =
    change-IsOwner t (released o) k key owner own
      (λ x same w. released-IsOwner o owner x (and-false (k == key) (o == owner) h same) w)
table_step-IsOwner t (forces k) key owner h own =
    change-IsOwner t (λ x. none) k key owner own (λ x same w. cc)
table_step-IsOwner t (expires now k o) key owner h own =
    change-IsOwner t (elapsed now o) k key owner own
      (λ x same w. elapsed-IsOwner now o owner x (and-false (k == key) (o == owner) h same) w)
table_step-IsOwner t (delivers stop_first) key owner h own = own
table_step-IsOwner t receives key owner h own = own
table_step-IsOwner t closes key owner h own = cc

stays_open :
    (m : Manager) (c : Call) (key owner : Text)
    → ends key owner c ≡ false
    → m.closed ≡ false
    → (step m c).closed ≡ false
stays_open m closes key owner h o = cc
stays_open m c key owner h o = rw (step-closed m c, o)

-- Over any calls of which none can take the key from its owner, the owner keeps it.
run-IsOwner :
    (m : Manager) (cs : List Call) (key owner : Text)
    → m.closed ≡ false
    → any (ends key owner) cs ≡ false
    → IsOwner owner (table m key)
    → IsOwner owner (table (run m cs) key)
unfolding run
run-IsOwner m [] key owner o h own = own
run-IsOwner m (c ∷ cs) key owner o h own =
    let here : ends key owner c ≡ false = ground arith in
    let later : any (ends key owner) cs ≡ false = ground arith in
    run-IsOwner (step m c) cs key owner (stays_open m c key owner here o) later
      (rw (step-table m c key o) (table_step-IsOwner (table m) c key owner here own))

pub acquire_other :
    (now : ℕ) (key owner other : Text) (ttl : ℤ) (m : Manager)
    → is_empty key ≡ false
    → is_empty other ≡ false
    → other ≢ owner
    → IsOwner owner (table m key)
    → acquire now key other ttl m ≡ (m, err err_conflict)
unfolding acquire
acquire_other now key owner other ttl m hk ho ne own = go (lookup key m.entries) refl own
  where
    go :
        (x : Option LockEntry)
        → lookup key m.entries ≡ x
        → IsOwner owner x
        → acquire now key other ttl m ≡ (m, err err_conflict)
    go none found h = absurd h
    go (some e) found h = unfold grant in ground (arith, eq_iff e.owner other)

-- Mutual exclusion: while an open manager has seen no release by the owner, no expiry of its lease,
-- no forced release of the key and no `Close`, another owner's `Acquire` of the key is refused with
-- the conflict error and changes nothing.
pub exclusion :
    (m : Manager) (cs : List Call) (now : ℕ) (key owner other : Text) (ttl : ℤ)
    → m.closed ≡ false
    → any (ends key owner) cs ≡ false
    → IsOwner owner (table m key)
    → is_empty key ≡ false
    → is_empty other ≡ false
    → other ≢ owner
    → acquire now key other ttl (run m cs) ≡ (run m cs, err err_conflict)
exclusion m cs now key owner other ttl o h own hk ho ne =
    acquire_other now key owner other ttl (run m cs) hk ho ne (run-IsOwner m cs key owner o h own)
