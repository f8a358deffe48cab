-- ===== src/Evolution/Feedback/Deciding.antt =====
-- What becomes of suggestions when the goroutines of Propose and Decide interleave between their
-- critical sections (evolution/feedback/feedback.go).
use vcos.Base.{
  ℕ, suc, ◌+◌, ◌≤◌, ◌≡◌, refl, List, [], ◌∷◌, ◌++◌, Option, none, some, arith, if◌then◌else◌,
  length, length-append,
}
use vcos.Base.Text.{Text, ◌==◌, eq_iff}
use vcos.Base.Dict.{
  lookup, remove, lookup-insert, lookup-remove, IsMap, IsMap-insert, IsMap-remove, length-remove,
  length-insert,
}
use vcos.Evolution.Feedback.{
  Suggestion, DecisionRecord, Controller, Stats, new, propose, take_pending, log, stats, stats_from,
  count_decision,
}

-- The controller, the records that Decide has yet to log, and the identifiers of the suggestions
-- that were proposed.
pub record World : Type 0 where
  pub controller : Controller
  pub deciding : List DecisionRecord
  pub proposed : List Text

-- A critical section runs. Records are logged in any order.
pub data Step : World → World → Type 0 where
  proposes :
      (s : Suggestion) (w : World)
      → Step w (record w { controller = propose s w.controller; proposed = s.id ∷ w.proposed })
  takes :
      (r : DecisionRecord) (w : World) (s : Suggestion)
      → (take_pending r.suggestion_id w.controller).0 ≡ some s
      → Step w (record w {
        controller = (take_pending r.suggestion_id w.controller).1;
        deciding = r ∷ w.deciding;
      })
  logs :
      (c : Controller) (before after : List DecisionRecord) (r : DecisionRecord)
      (proposed : List Text)
      → Step
          (record { controller = c; deciding = before ++ r ∷ after; proposed = proposed })
          (record { controller = log r c; deciding = before ++ after; proposed = proposed })

pub data Reachable : World → Type 0 where
  start : Reachable (record { controller = new; deciding = []; proposed = [] })
  next : {w v : World} → Reachable w → Step w v → Reachable v

-- How many records are on a suggestion.
abbrev pub decisions : Text → List DecisionRecord → ℕ
decisions id [] = 0
decisions id (r ∷ rs) = if r.suggestion_id == id then suc (decisions id rs) else decisions id rs

abbrev pub proposals : Text → List Text → ℕ
proposals id [] = 0
proposals id (x ∷ xs) = if x == id then suc (proposals id xs) else proposals id xs

-- 1 for a suggestion that is pending.
abbrev pub waiting : Option Suggestion → ℕ
waiting none = 0
waiting (some s) = 1

decisions-append :
    (id : Text) (rs rs' : List DecisionRecord)
    → decisions id (rs ++ rs') ≡ decisions id rs + decisions id rs'
decisions-append id [] rs' = omega arith
decisions-append id (r ∷ rs) rs' = ground (arith, decisions-append id rs rs')

-- Each suggestion has been decided, logged or not, no more often than it was proposed, and once less
-- while it is pending; and no more suggestions are pending, being decided and decided than were
-- proposed.
pub record Inv (w : World) : Type 0 where
  pub is_map : IsMap w.controller.pending
  pub each :
      (id : Text)
      → decisions id w.controller.history
          + decisions id w.deciding
          + waiting (lookup id w.controller.pending)
        ≤ proposals id w.proposed
  pub all :
      length w.controller.history + length w.deciding + length w.controller.pending
      ≤ length w.proposed

found-lookup :
    (id : Text) (c : Controller) {s : Suggestion}
    → (take_pending id c).0 ≡ some s
    → lookup id c.pending ≡ some s
unfolding take_pending
found-lookup id c e = e

take_pending-found :
    (id : Text) (c : Controller) {s : Suggestion}
    → lookup id c.pending ≡ some s
    → (take_pending id c).1 ≡ record c { pending = remove id c.pending }
unfolding take_pending
take_pending-found id c e = rw e refl

Step-Inv : {w v : World} → Inv w → Step w v → Inv v
Step-Inv h (proposes s w) =
    unfold propose in
    (record {
      is_map = IsMap-insert s.id s w.controller.pending h.is_map;
      each = λ id.
          ground (arith, h.each id, lookup-insert s.id id s w.controller.pending, eq_iff s.id id);
      all = omega (arith, h.all, length-insert s.id s w.controller.pending);
    })
Step-Inv h (takes r w s e) =
    let c = w.controller in
    let id' = r.suggestion_id in
    let found = found-lookup id' c e in
    rw (take_pending-found id' c found) (record {
      is_map = IsMap-remove id' c.pending h.is_map;
      each = λ id. ground (arith, h.each id, found, lookup-remove id' id c.pending, eq_iff id' id);
      all = omega (arith, h.all, length-remove id' c.pending h.is_map found);
    })
Step-Inv h (logs c before after r proposed) =
    unfold log in
    (record {
      is_map = h.is_map;
      each = λ id. ground (
        arith,
        h.each id,
        decisions-append id before (r ∷ after),
        decisions-append id before after,
        decisions-append id c.history (r ∷ []),
      );
      all = omega (
        arith,
        h.all,
        length-append before (r ∷ after),
        length-append before after,
        length-append c.history (r ∷ []),
      );
    })

reachable-Inv : {w : World} → Reachable w → Inv w
unfolding new lookup
reachable-Inv Reachable.start = record { is_map = tt; each = λ id. omega arith; all = omega arith }
reachable-Inv (Reachable.next h step) = Step-Inv (reachable-Inv h) step

-- However the critical sections of Propose and Decide interleave, each suggestion has been decided,
-- logged or not, no more often than it was proposed, and once less while it is pending.
pub decided_once :
    {w : World}
    → Reachable w
    → (id : Text)
    → decisions id w.controller.history
        + decisions id w.deciding
        + waiting (lookup id w.controller.pending)
      ≤ proposals id w.proposed
decided_once h id = (reachable-Inv h).each id

stats_from_lem :
    (rs : List DecisionRecord) (s : Stats)
    → ((stats_from rs s).total ≡ length rs + s.total)
      × ((stats_from rs s).pending ≡ s.pending)
      × ((stats_from rs s).accepted + (stats_from rs s).rejected + (stats_from rs s).adjusted
          ≤ length rs + (s.accepted + s.rejected + s.adjusted))
unfolding stats_from
stats_from_lem [] s = (omega arith, refl, omega arith)
stats_from_lem (r ∷ rs) s =
    ground (arith, stats_from_lem rs (count_decision r.decision (record s { total = suc s.total })))

-- However they interleave, the statistics count no more decisions and pending suggestions together
-- than there were proposals, and the three kinds of decisions together are no more than the total.
stats_bounded :
    {w : World}
    → Reachable w
    → ((stats w.controller).total + (stats w.controller).pending ≤ length w.proposed)
      × ((stats w.controller).accepted
            + (stats w.controller).rejected
            + (stats w.controller).adjusted
          ≤ (stats w.controller).total)
unfolding stats
stats_bounded {w = w} h =
    let c = w.controller in
    let counted = stats_from_lem c.history (record {
      total = 0;
      accepted = 0;
      rejected = 0;
      adjusted = 0;
      pending = length c.pending;
    }) in
    let bound = (reachable-Inv h).all in (omega (arith, counted, bound), omega (arith, counted))
