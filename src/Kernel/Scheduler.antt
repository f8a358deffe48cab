-- ===== src/Kernel/Scheduler.antt =====
-- kernel/scheduler/scheduler.go: the admission of intents by rules and a lock on their resource.
-- A rule is a function of the request, which it may change; what it reads of other state is in the
-- function. The scheduler's manager is the `Option Manager` that a call takes and returns.
pub mod Rules
pub mod Admission
pub mod Release
mod Examples
use vcos.Base.{
  ℕ, Bool, true, false, ◌||◌, not, Option, none, some, List, [], ◌∷◌, ◌++◌, if◌then◌else◌,
}
use vcos.Base.Text.{Text, runes, is_empty, trim_space}
use vcos.Base.Int.{ℤ, pos, positive_or}
use vcos.Kernel.Lockmgr.{
  Manager, Lease, Result, ok, err, LockError, err_conflict, err_not_held, err_required, panics,
  acquire, holder, release,
}

-- `unset` is the empty string, `other` a string that is none of the constants.
pub data Kind : Type 0 where
  unset exec ai_turn slash skill unknown : Kind
  other : Text → Kind

pub record IntentRequest : Type 0 where
  pub kind : Kind
  pub session_id : Text
  pub execution_id : Text
  pub owner : Text
  pub resource_key : Text
  pub engine : Text
  pub command : Text
  pub cwd : Text
  pub tags : List Text

pub data Outcome : Type 0 where
  unset admit deny defer need_confirm : Outcome
  other : Text → Outcome

pub record Decision : Type 0 where
  pub outcome : Outcome
  pub reason : Text
  pub lock_key : Text
  pub lock_ttl : ℕ
  pub conflict : Text

abbrev pub Rule : Type 0
Rule = IntentRequest → IntentRequest × Decision

pub record Scheduler : Type 0 where
  pub rules : List Rule
  pub default_lock_ttl : ℕ

-- 10 minutes
abbrev pub ten_minutes : ℕ
ten_minutes = 600000000000

unfoldable pub new : ℤ → Scheduler
new default_lock_ttl = record {
  rules = [];
  default_lock_ttl = positive_or default_lock_ttl ten_minutes;
}

unfoldable pub add_rule : Option Rule → Scheduler → Scheduler
add_rule none s = s
add_rule (some r) s = record s { rules = s.rules ++ r ∷ [] }

abbrev pub has_opinion : Outcome → Bool
has_opinion unset = false
has_opinion admit = false
has_opinion _ = true

-- The loop over the rules: the request as they leave it, and the first opinion.
unfoldable pub run_rules : List Rule → IntentRequest → IntentRequest × Option Decision
run_rules [] req = (req, none)
run_rules (r ∷ rs) req =
    let (req', d) = r req in
    let rest = run_rules rs req' in if has_opinion d.outcome then (req', some d) else rest

abbrev pub with_kind : Kind → IntentRequest → IntentRequest
with_kind unset req = record req { kind = unknown }
with_kind _ req = req

unfoldable pub resource_of : IntentRequest → Text
resource_of req =
    let key = trim_space req.resource_key in if is_empty key then trim_space req.session_id else key

unfoldable pub owner_of : IntentRequest → Text
owner_of req =
    let owner = trim_space req.owner in
    let execution = trim_space req.execution_id in
    if is_empty owner then (if is_empty execution then runes "anonymous" else execution) else owner

abbrev pub plain : Outcome → Text → Decision
plain outcome reason = record {
  outcome = outcome;
  reason = reason;
  lock_key = [];
  lock_ttl = 0;
  conflict = [];
}

-- `err.Error()`; a panic has none.
abbrev error_text : LockError → Text
error_text err_conflict = runes "lockmgr: held by another owner"
error_text err_not_held = runes "lockmgr: not held by owner"
error_text err_required = runes "lockmgr: key and owner required"
error_text panics = []

-- What `Decide` makes of the answer of `Acquire`. Other goroutines may use the manager between that
-- call and the call of `Holder`: `meanwhile` is what they do. `Holder` reads the clock at `later`.
answer :
    (Manager → Manager) → ℕ → Text → ℕ → Manager → Result Lease → Option Manager × Result Decision
answer meanwhile later key ttl m (ok lease) = (
  some m,
  ok (record { outcome = admit; reason = []; lock_key = lease.key; lock_ttl = ttl; conflict = [] }),
)
answer meanwhile later key ttl m (err err_conflict) =
    let m' = meanwhile m in
    (
      some m',
      ok (record (plain defer (runes "resource held by another owner")) {
        conflict = (holder later key m').0;
      }),
    )
answer meanwhile later key ttl m (err panics) = (some m, err panics)
answer meanwhile later key ttl m (err e) = (some m, ok (plain deny (error_text e)))

lock_resource :
    (Manager → Manager)
    → ℕ
    → ℕ
    → ℕ
    → Text
    → Text
    → Option Manager
    → Option Manager × Result Decision
unfolding answer
lock_resource meanwhile now later ttl key owner none =
    (none, ok (plain admit (runes "no resource to lock")))
lock_resource meanwhile now later ttl key owner (some m) =
    if is_empty key
    then (some m, ok (plain admit (runes "no resource to lock")))
    else (let (m', r) = acquire now key owner (pos ttl) m in answer meanwhile later key ttl m' r)

after_rules :
    (Manager → Manager)
    → ℕ
    → ℕ
    → ℕ
    → IntentRequest × Option Decision
    → Option Manager
    → Option Manager × Result Decision
unfolding lock_resource
after_rules meanwhile now later ttl (req, some d) lock = (lock, ok d)
after_rules meanwhile now later ttl (req, none) lock =
    lock_resource meanwhile now later ttl (resource_of req) (owner_of req) lock

unfoldable pub decide :
    (Manager → Manager)
    → ℕ
    → ℕ
    → Scheduler
    → IntentRequest
    → Option Manager
    → Option Manager × Result Decision
unfolding after_rules
decide meanwhile now later s req lock =
    after_rules meanwhile now later s.default_lock_ttl (run_rules s.rules (with_kind req.kind req))
      lock

-- `Release`: the error of the manager is dropped.
unfoldable pub give_back : Text → Text → Option Manager → Option Manager
give_back key owner none = none
give_back key owner (some m) = if is_empty key then some m else some (release key owner m).0
