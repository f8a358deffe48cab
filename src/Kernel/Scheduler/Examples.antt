-- ===== src/Kernel/Scheduler/Examples.antt =====
-- Decisions of the scheduler on concrete requests, and its theorems at them.
use vcos.Base.{◌≡◌, ◌≢◌, ◌↔◌, refl, arith, [], none, some, false}
use vcos.Base.Text.{Text, runes, ◌==◌, eq_iff, trim_space}
use vcos.Base.Dict.{lookup}
use vcos.Kernel.Lockmgr.{Manager, ok}
use vcos.Kernel.Lockmgr.Table.{table}
use vcos.Kernel.Lockmgr.Nesting.{HoldsTimes}
use vcos.Kernel.Scheduler.{
  Kind, IntentRequest, Rule, Scheduler, defer, deny, plain, run_rules, resource_of, owner_of,
  decide, give_back,
}
use vcos.Kernel.Scheduler.Admission.{Passes, locked, decide_admits, decide_serializes}
use vcos.Kernel.Scheduler.Release.{IsLockName, give_back_iff}

abbrev request : Text → Text → IntentRequest
request session owner = record {
  kind = Kind.exec;
  session_id = session;
  execution_id = [];
  owner = owner;
  resource_key = [];
  engine = [];
  command = [];
  cwd = [];
  tags = [];
}

abbrev no_rules : Scheduler
no_rules = record { rules = []; default_lock_ttl = 50 }

abbrev first : IntentRequest
first = request (runes " s1 ") (runes " e1")

abbrev second : IntentRequest
second = request (runes "s1") (runes "e2")

abbrev empty_manager : Manager
empty_manager = record { entries = []; expired = []; sending = []; closed = false }

trimmed : (resource_of first ≡ runes "s1") × (owner_of first ≡ runes "e1")
unfolding resource_of owner_of trim_space
trimmed = (refl, refl)

anonymous : owner_of (request (runes "s1") []) ≡ runes "anonymous"
unfolding owner_of trim_space
anonymous = refl

abbrev objecting : Rule
objecting req = (req, plain deny (runes "no"))

first-Passes : Passes no_rules first first
unfolding run_rules resource_of trim_space
first-Passes = (refl, refl)

second-Passes : Passes no_rules second second
unfolding run_rules resource_of trim_space
second-Passes = (refl, refl)

decide_admits_example :
    HoldsTimes (owner_of first) 1 (table (locked 10 50 first empty_manager) (resource_of first))
unfolding lookup
decide_admits_example =
    (decide_admits (λ m. m) 10 11 0 no_rules first first empty_manager first-Passes refl refl).1

other_owners : owner_of second ≢ owner_of first
unfolding owner_of trim_space ◌==◌
other_owners = ground (arith, eq_iff (owner_of second) (owner_of first))

decide_serializes_example :
    decide (λ m. m) 12 13 no_rules second (some (locked 10 50 first empty_manager)) ≡ (
      some (locked 10 50 first empty_manager),
      ok (record (plain defer (runes "resource held by another owner")) {
        conflict = owner_of first;
      }),
    )
unfolding lookup resource_of trim_space
decide_serializes_example =
    (decide_serializes 10 11 12 13 no_rules no_rules first first second second empty_manager
      first-Passes second-Passes refl refl refl other_owners).1

-- The owner as the request spells it, " e1", does not release what `Decide` locked for "e1".
give_back_iff_example :
    (m' m'' : Manager) × ((decide (λ m. m) 10 11 no_rules first (some empty_manager)).0 ≡ some m')
    × (give_back (resource_of first) (runes " e1") (some m') ≡ some m'')
    × ((table m'' (resource_of first) ≡ none) ↔ IsLockName first (runes " e1"))
unfolding lookup resource_of trim_space
give_back_iff_example =
    give_back_iff (λ m. m) 10 11 no_rules first first empty_manager (runes " e1") first-Passes refl
      refl
