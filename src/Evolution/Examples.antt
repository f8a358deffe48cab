-- ===== src/Evolution/Examples.antt =====
-- The feedback loop and the capabilities on concrete data, and their theorems at them.
use vcos.Base.{
  ℕ, ◌≡◌, ◌≤◌, ◌↔◌, ◌+◌, refl, true, false, List, [], ◌∷◌, some, if◌then◌else◌, All, inl,
}
use vcos.Base.Int.{pos}
use vcos.Base.Text.{Text, runes, contains, decimal, ◌==◌, to_lower, join}
use vcos.Base.Dict.{lookup, insert, remove}
use vcos.Memory.{Entry, new_mem_store, upsert}
use vcos.Evolution.Feedback.{
  Decision, Suggestion, DecisionRecord, suggestion, new, propose, decide, take_pending,
}
use vcos.Evolution.Feedback.Deciding.{World, Step, Reachable, decisions, decided_once}
use vcos.Evolution.Feedback.Effects.{Written, upserted, decide_lem}
use vcos.Evolution.Evolve.{RunResult, check_lint, check_build, check_test, evaluated}
use vcos.Evolution.Evolve.Checking.{Succeeds, Learned, evaluated-passed}
use vcos.Evolution.Shadow.{allow_safe, cap_shell, has, cap_read, allow, base}

abbrev same : ℕ → ℕ
same c = c

abbrev learning : Suggestion
learning = record {
  id = runes "sug-7";
  title = runes "t";
  description = [];
  learnings = runes "build_passed" ∷ runes "test_passed" ∷ [];
  confidence = 90;
  source = runes "evolve";
  session_id = [];
  created_at = 8;
}

made :
    suggestion 7 8 (runes "t") (runes "evolve") [] [] 90
    ≡ record learning { description = runes "Evolution result: t (0 findings)"; learnings = [] }
unfolding suggestion decimal
made = refl

abbrev rejection : DecisionRecord
rejection = record {
  suggestion_id = runes "sug-7";
  decision = Decision.reject;
  adjusted_text = [];
  timestamp = 9;
}

abbrev start : World
start = record { controller = new; deciding = []; proposed = [] }

abbrev offered : World
offered = record start { controller = propose learning new; proposed = runes "sug-7" ∷ [] }

abbrev taken : World
taken = record offered {
  controller = record { history = []; pending = [] };
  deciding = rejection ∷ [];
}

taken-Reachable : Reachable taken
unfolding propose new take_pending lookup insert ◌==◌ remove
taken-Reachable =
    Reachable.next (Reachable.next Reachable.start (Step.proposes learning start))
      (Step.takes rejection offered learning refl)

decided_once_example : decisions (runes "sug-7") [] + 1 + 0 ≤ 1
unfolding ◌==◌ lookup
decided_once_example = decided_once taken-Reachable (runes "sug-7")

decide_lem_example :
    let c = propose learning new in
    (es : List Entry) × Written 10 learning [] Decision.reject 0 learning.learnings es
    × ((decide (upsert 1 1 1) 9 10 (runes "sug-7") Decision.reject [] c (some new_mem_store)).2
        ≡ some (upserted (upsert 1 1 1) es new_mem_store))
unfolding propose lookup insert new ◌==◌
decide_lem_example =
    ((decide_lem (upsert 1 1 1) 9 10 (runes "sug-7") Decision.reject [] (propose learning new)).0
        learning refl).1
      new_mem_store

-- Without the capabilities for it cargo falls to the default, as does any command that is not
-- listed, so reading allows it.
reading_allows :
    (allow same (cap_read ∷ []) (runes "cargo") (runes "run" ∷ []) ≡ true)
    × (allow same (cap_read ∷ []) (runes "/usr/bin/node") (runes "x.js" ∷ []) ≡ true)
    × (allow same (cap_read ∷ []) (runes "go") (runes "vet" ∷ []) ≡ false)
unfolding allow contains to_lower join ◌==◌
reading_allows = (refl, refl, refl)

allow_safe_example : has (cap_shell ∷ []) cap_shell ≡ true
unfolding allow contains to_lower join ◌==◌ base
allow_safe_example =
    (allow_safe same (cap_shell ∷ []) (runes "/bin/sh") (runes "x" ∷ []) refl).1 (inl refl)

-- Commands that end well but for the tests.
abbrev ran : Text → List Text → RunResult
ran cmd args = record {
  exit_code = if join args [] == runes "test./..." then pos 1 else pos 0;
  stdout = [];
  stderr = runes "x.go:1:2: undefined: foo";
  duration = runes "1s";
}

evaluated-passed_example :
    let r = evaluated same ran (runes "p") [] in
    let checks = check_lint ∷ check_build ∷ check_test ∷ [] in
    ((r.passed ≡ true) ↔ All (Succeeds same ran) checks) × Learned same ran checks r.learnings
evaluated-passed_example = (evaluated-passed same ran (runes "p")).1
