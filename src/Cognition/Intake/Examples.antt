-- ===== src/Cognition/Intake/Examples.antt =====
-- The intake on a concrete session.
use mathlib.Core.List.Perm
use vcos.Base.{ℕ, ◌≡◌, refl, arith, Bool, false, List, [], ◌∷◌, Option, none, some, if◌then◌else◌}
use vcos.Base.Text.{Text, runes, contains, to_lower, ◌==◌}
use vcos.Memory.{Entry, MemStore, zero_entry, upsert}
use vcos.Cognition.Vibe.{default_state, new, get}
use vcos.Cognition.Vibe.Storing.{query_memory, upsert_memory}
use vcos.Cognition.Intake.{analyze, bootstrap, infer_role, infer_style}
use vcos.Cognition.Intake.Seeding.{preference-analyze}

abbrev same : ℕ → ℕ
same c = c

abbrev go_project : Text → Text → Option Bool
go_project cwd name = if name == runes "go.mod" then some false else none

abbrev in_order : List Entry → List Entry
in_order es = es

-- An older entry, which the query of the session would find.
abbrev before : MemStore
before = record {
  entries =
      (
        runes "x",
        record zero_entry {
          id = runes "x";
          type = runes "long_term";
          domain = runes "dialogue";
          session_id = runes "s1";
          content = runes "role=reviewer";
          updated_at = 3;
        },
      )
      ∷ [];
}

preference-analyze_example :
    let p = analyze same go_project (runes "/w") (runes "fix the bug, be brief") in
    (get
      (query_memory same in_order 20)
      (upsert_memory 9)
      (runes "s1")
      (new (bootstrap (upsert 9 9 9) 9 (runes "s1") (runes "/w") p (some before)))).0
    ≡ record default_state { role = runes "debugger"; style = runes "concise" }
unfolding infer_role infer_style contains to_lower
preference-analyze_example =
    preference-analyze same in_order Perm.refl 9 20 (runes "s1") (runes "/w") go_project
      (runes "fix the bug, be brief") before refl (omega arith, tt)
