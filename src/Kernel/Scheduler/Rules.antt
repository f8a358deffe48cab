-- ===== src/Kernel/Scheduler/Rules.antt =====
-- The rule chain of kernel/scheduler/scheduler.go.
use vcos.Base.{
  ℕ, ◌≡◌, refl, true, Option, none, some, List, [], ◌∷◌, ◌++◌, arith, if◌then◌else◌, inl, inr,
  Bool-cases,
}
use vcos.Kernel.Lockmgr.{Manager, ok}
use vcos.Kernel.Scheduler.{
  Scheduler, IntentRequest, Decision, Rule, has_opinion, run_rules, with_kind, after_rules, decide,
}

abbrev then_rules : List Rule → IntentRequest × Option Decision → IntentRequest × Option Decision
then_rules ts (req, some d) = (req, some d)
then_rules ts (req, none) = run_rules ts req

-- Later rules are consulted only when the earlier ones have no opinion, on the request as these
-- leave it.
run_rules-append :
    (rs ts : List Rule) (req : IntentRequest)
    → run_rules (rs ++ ts) req ≡ then_rules ts (run_rules rs req)
unfolding run_rules
run_rules-append [] ts req = refl
run_rules-append (r ∷ rs) ts req = elim (Bool-cases (has_opinion (r req).1.outcome)) [
  | inl decided ↦ rw (decided, if◌then◌else◌)
  | inr open_still ↦ rw (open_still, if◌then◌else◌) (run_rules-append rs ts (r req).0)
]

opinion_of_rules :
    (rs : List Rule) (req : IntentRequest) {d : Decision}
    → (run_rules rs req).1 ≡ some d
    → has_opinion d.outcome ≡ true
unfolding run_rules
opinion_of_rules [] req h = cc
opinion_of_rules (r ∷ rs) req {d = d} h = elim (Bool-cases (has_opinion (r req).1.outcome)) [
  | inl decided ↦
      let same : some (r req).1 ≡ some d = rw (decided, if◌then◌else◌) at h in ground arith
  | inr open_still ↦ opinion_of_rules rs (r req).0 (rw (open_still, if◌then◌else◌) at h)
]

-- Once the first rules of a scheduler have come to a decision, `Decide` returns it, whatever rules
-- are registered after them and whatever the lock manager holds: no lock is taken or changed, and
-- the decision is neither the empty one nor an admission.
veto :
    (meanwhile : Manager → Manager) (now later : ℕ) (s : Scheduler) (rs ts : List Rule)
    (req : IntentRequest) (lock : Option Manager) {d : Decision}
    → s.rules ≡ rs ++ ts
    → (run_rules rs (with_kind req.kind req)).1 ≡ some d
    → (decide meanwhile now later s req lock ≡ (lock, ok d)) × (has_opinion d.outcome ≡ true)
unfolding decide after_rules
veto meanwhile now later s rs ts req lock {d} order h = (
  ground (arith, run_rules-append rs ts (with_kind req.kind req)),
  opinion_of_rules rs (with_kind req.kind req) h,
)
