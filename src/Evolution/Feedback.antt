-- ===== src/Evolution/Feedback.antt =====
-- evolution/feedback/feedback.go: suggestions, the user's decisions on them and their way into the
-- memory store. A confidence is in hundredths, and written with two digits in the metadata. Of the store's interface only Upsert is used, whose
-- errors are dropped: `Upsert` is a function on its state.
pub mod Deciding
pub mod Effects
use vcos.Base.{
  ℕ, suc, ◌+◌, ◌/◌, ◌%◌, Bool, true, false, List, [], ◌∷◌, ◌++◌, Option, none, some, if◌then◌else◌,
  length, map,
}
use vcos.Base.Text.{Text, runes, is_empty, trim_space, decimal}
use vcos.Base.Dict.{Dict, lookup, insert, remove}
use vcos.Memory.{Entry, zero_entry}

-- `other` is a string that is none of the constants.
pub data Decision : Type 0 where
  accept reject adjust : Decision
  other : Text → Decision

pub record Suggestion : Type 0 where
  pub id : Text
  pub title : Text
  pub description : Text
  pub learnings : List Text
  pub confidence : ℕ
  pub source : Text
  pub session_id : Text
  pub created_at : ℕ

-- The struct Record.
pub record DecisionRecord : Type 0 where
  pub suggestion_id : Text
  pub decision : Decision
  pub adjusted_text : Text
  pub timestamp : ℕ

pub record Stats : Type 0 where
  pub total : ℕ
  pub accepted : ℕ
  pub rejected : ℕ
  pub adjusted : ℕ
  pub pending : ℕ

pub record Controller : Type 0 where
  pub history : List DecisionRecord
  pub pending : Dict Suggestion

unfoldable pub new : Controller
new = record { history = []; pending = [] }

-- The suggestion that Propose makes; the clock is read twice.
unfoldable pub suggestion : ℕ → ℕ → Text → Text → Text → List Text → ℕ → Suggestion
suggestion now later title source session_id learnings confidence = record {
  id = runes "sug-" ++ decimal now;
  title = title;
  description =
      runes "Evolution result: "
      ++ (title ++ (runes " (" ++ (decimal (length learnings) ++ runes " findings)")));
  learnings = learnings;
  confidence = confidence;
  source = source;
  session_id = session_id;
  created_at = later;
}

-- The critical section of Propose.
unfoldable pub propose : Suggestion → Controller → Controller
propose s c = record c { pending = insert s.id s c.pending }

unfoldable pub propose_from_evolve_result :
    ℕ → ℕ → Text → Text → Bool → List Text → Controller → List Suggestion × Controller
unfolding suggestion propose
propose_from_evolve_result now later title session_id passed learnings c =
    let confidence = if passed then 90 else 60 in
    let s = suggestion now later title (runes "evolve") session_id learnings confidence in
    (s ∷ [], propose s c)

-- The first critical section of Decide: the suggestion, if it is pending.
unfoldable pub take_pending : Text → Controller → Option Suggestion × Controller
take_pending id c = let found = lookup id c.pending in (found, taken found)
  where
    taken : Option Suggestion → Controller
    taken none = c
    taken (some s) = record c { pending = remove id c.pending }

-- Its second critical section.
pub log : DecisionRecord → Controller → Controller
log r c = record c { history = c.history ++ r ∷ [] }

-- %.2f
abbrev two_digits : ℕ → Text
two_digits n = decimal (n / 100) ++ (runes "." ++ (decimal (n / 10 % 10) ++ decimal (n % 10)))

-- The fields that the entries of all decisions share.
abbrev learned : ℕ → Suggestion → ℕ → Entry
learned now sug i = record zero_entry {
  id = runes "feedback-" ++ (sug.id ++ (runes "-" ++ decimal i));
  type = runes "long_term";
  domain = runes "code";
  source = runes "user";
  session_id = sug.session_id;
  created_at = now;
  updated_at = now;
}

-- The entry that the loop writes for the pattern at place i; none for an unknown decision.
unfoldable pub learned_entry : ℕ → Suggestion → DecisionRecord → ℕ → Text → Option Entry
learned_entry now sug rec i pattern = entry rec.decision
  where
    corrected : Text
    corrected = let text = trim_space rec.adjusted_text in if is_empty text then pattern else text

    entry : Decision → Option Entry
    entry accept = some (record (learned now sug i) {
      title = pattern;
      content =
          runes "confirmed pattern: "
          ++ (pattern ++ (runes " (confidence=" ++ (two_digits sug.confidence ++ runes ")")));
      metadata =
          (runes "confidence", two_digits sug.confidence) ∷ (runes "status", runes "accepted") ∷ [];
    })
    entry reject = some (record (learned now sug i) {
      title = pattern;
      content = runes "rejected pattern: " ++ (pattern ++ runes " (confidence=0.1)");
      metadata = (runes "confidence", two_digits 10) ∷ (runes "status", runes "rejected") ∷ [];
    })
    entry adjust = some (record (learned now sug i) {
      title = corrected;
      content =
          runes "adjusted pattern: "
          ++ (corrected ++ (runes " (user corrected from: " ++ (pattern ++ runes ")")));
      metadata =
          (runes "confidence", two_digits 80)
          ∷ (runes "status", runes "adjusted")
          ∷ (runes "original", pattern)
          ∷ [];
    })
    entry (other s) = none

module _ {S : Type 0} (upsert : Entry → S → S) where
  abbrev pub upsert_some : Option Entry → S → S
  upsert_some none s = s
  upsert_some (some e) s = upsert e s

  -- The loop of applyDecision, from place i on.
  unfoldable pub apply_from : ℕ → Suggestion → DecisionRecord → ℕ → List Text → S → S
  unfolding learned_entry
  apply_from now sug rec i [] s = s
  apply_from now sug rec i (pattern ∷ later) s =
      apply_from now sug rec (suc i) later (upsert_some (learned_entry now sug rec i pattern) s)

  abbrev pub apply_decision : ℕ → Suggestion → DecisionRecord → Option S → Option S
  apply_decision now sug rec none = none
  apply_decision now sug rec (some s) = some (apply_from now sug rec 0 sug.learnings s)

  -- Decide, where no other goroutine comes between its sections: none is the error "not found". The
  -- clock is read for the record and for the entries.
  decide_found :
      ℕ
      → ℕ
      → Decision
      → Text
      → Text
      → Option Suggestion × Controller
      → Option S
      → Option DecisionRecord × Controller × Option S
  unfolding apply_from log
  decide_found now later decision text id (none, c) store = (none, c, store)
  decide_found now later decision text id (some sug, c) store =
      let rec : DecisionRecord = record {
        suggestion_id = id;
        decision = decision;
        adjusted_text = text;
        timestamp = now;
      } in
      (some rec, log rec c, apply_decision later sug rec store)

  unfoldable pub decide :
      ℕ
      → ℕ
      → Text
      → Decision
      → Text
      → Controller
      → Option S
      → Option DecisionRecord × Controller × Option S
  unfolding take_pending decide_found
  decide now later id decision text c store =
      decide_found now later decision text id (take_pending id c) store

-- The switch of the loop of Stats.
abbrev pub count_decision : Decision → Stats → Stats
count_decision accept s = record s { accepted = suc s.accepted }
count_decision reject s = record s { rejected = suc s.rejected }
count_decision adjust s = record s { adjusted = suc s.adjusted }
count_decision (other t) s = s

pub stats_from : List DecisionRecord → Stats → Stats
stats_from [] s = s
stats_from (r ∷ rs) s = stats_from rs (count_decision r.decision (record s { total = suc s.total }))

pub stats : Controller → Stats
unfolding stats_from
stats c =
    stats_from c.history
      (record { total = 0; accepted = 0; rejected = 0; adjusted = 0; pending = length c.pending })
