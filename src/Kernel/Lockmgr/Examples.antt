-- ===== src/Kernel/Lockmgr/Examples.antt =====
-- Runs of the lock manager, and its theorems at concrete states.
use vcos.Base.{◌≡◌, ◌≢◌, refl, arith, [], ◌∷◌, ◌++◌, some, false}
use vcos.Base.Text.{Text, runes, ◌==◌, eq_iff}
use vcos.Base.Dict.{lookup, insert, remove}
use vcos.Base.Int.{pos, positive_or}
use vcos.Kernel.Lockmgr.{
  Manager, LockEntry, err, err_conflict, err_not_held, panics, new, acquire, release, active,
  expire, close, deliver,
}
use vcos.Kernel.Lockmgr.Calls.{acquires, releases, expires, receives, step, run}
use vcos.Kernel.Lockmgr.Invariant.{Inv, run-new-Inv}
use vcos.Kernel.Lockmgr.Table.{table, table_step, step-table}
use vcos.Kernel.Lockmgr.Owners.{exclusion}
use vcos.Kernel.Lockmgr.Nesting.{HoldsTimes, acquire_all, release_times, balance}
use vcos.Kernel.Lockmgr.Closing.{close_before_deliver}

abbrev key : Text
key = runes "s1"

abbrev alice : Text
alice = runes "e1"

abbrev bob : Text
bob = runes "e2"

abbrev held_entry : LockEntry
held_entry = record { owner = alice; depth = 1; expire_at = 60; timer = 60 }

-- Alice holds the key from time 10 for 50 nanoseconds.
abbrev held : Manager
held = record { entries = (key, held_entry) ∷ []; expired = []; sending = []; closed = false }

held_lem : (acquire 10 key alice (pos 50) new).0 ≡ held
unfolding acquire new ◌==◌ lookup insert positive_or
held_lem = refl

held-Inv : Inv held
unfolding lookup
held-Inv = ground arith

refused : (acquire 20 key bob (pos 50) held).1 ≡ err err_conflict
unfolding acquire ◌==◌ lookup
refused = refl

not_held : (release key bob held).1 ≡ some err_not_held
unfolding release ◌==◌ lookup
not_held = refl

freed : active (release key alice held).0 ≡ 0
unfolding release active ◌==◌ lookup remove
freed = refl

run-new-Inv_example : Inv (run new (acquires 10 key alice (pos 50) ∷ expires 70 key alice ∷ []))
run-new-Inv_example = run-new-Inv (acquires 10 key alice (pos 50) ∷ expires 70 key alice ∷ [])

step-table_example :
    table (step held (releases key alice)) key ≡ table_step (releases key alice) (table held) key
step-table_example = step-table held (releases key alice) key refl

alice_not_bob : ◌≢◌ {A = Text} bob alice
unfolding ◌==◌
alice_not_bob = ground (arith, eq_iff bob alice)

exclusion_example :
    acquire 30 key bob (pos 50) (run held (receives ∷ releases key bob ∷ []))
    ≡ (run held (receives ∷ releases key bob ∷ []), err err_conflict)
unfolding ◌==◌ lookup
exclusion_example =
    exclusion held (receives ∷ releases key bob ∷ []) 30 key alice bob (pos 50) refl refl refl refl
      refl alice_not_bob

balance_example :
    HoldsTimes alice 1 (
      table (run held (acquire_all key alice ((20, pos 50) ∷ []) ++ release_times key alice 1)) key)
unfolding ◌==◌ lookup
balance_example =
    balance held key alice 1 1 ((20, pos 50) ∷ []) refl refl refl (refl, refl, omega arith)

close_before_deliver_example : (deliver false (close (expire 60 key alice held))).1 ≡ some panics
unfolding ◌==◌ lookup
close_before_deliver_example =
    close_before_deliver 60 key held_entry held refl refl refl (omega arith)
