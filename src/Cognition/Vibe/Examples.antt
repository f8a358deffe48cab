-- ===== src/Cognition/Vibe/Examples.antt =====
-- The theorems on preferences at a concrete session and store.
use mathlib.Core.List.Perm
use vcos.Base.{ℕ, arith, ◌≡◌, refl, true, List, [], ◌∷◌, some}
use vcos.Base.Text.{runes, is_space}
use vcos.Memory.{Entry, MemStore}
use vcos.Cognition.Vibe.{State, parse_vibe_content, format_vibe_content, new, vibe_entry, get, set}
use vcos.Cognition.Vibe.Storing.{Plain, parse-format, query_memory, upsert_memory, set_restart}

abbrev terse : State
terse = record { style = runes "concise"; proactivity = []; role = runes "a=b"; updated_at = 7 }

terse-Plain : Plain terse
unfolding is_space
terse-Plain = ground arith

parse-format_example :
    parse_vibe_content (format_vibe_content terse) ≡ record terse { updated_at = 0 }
parse-format_example = parse-format terse terse-Plain

abbrev same : ℕ → ℕ
same c = c

abbrev in_order : List Entry → List Entry
in_order es = es

-- The preferences of an earlier run, an entry of the intake, and one of another session.
abbrev before : MemStore
before = record {
  entries =
      (runes "vibe-state-s1", vibe_entry (runes "s1") (record terse { role = []; updated_at = 2 }))
      ∷ (
        runes "p",
        record (vibe_entry (runes "s1") (record terse { updated_at = 5 })) { id = runes "p" },
      )
      ∷ (runes "vibe-state-s2", vibe_entry (runes "s2") (record terse { updated_at = 8 }))
      ∷ [];
}

set_restart_example :
    let query' = query_memory same in_order 50 in
    let r = set query' (upsert_memory 9) 9 (runes "s1") terse (new (some before)) in
    (r.0 ≡ true)
    × ((get query' (upsert_memory 9) (runes "s1") (new r.1.store)).0
        ≡ record terse { updated_at = 0 })
unfolding new
set_restart_example =
    set_restart same in_order Perm.refl 9 50 (runes "s1") terse (new (some before)) before
      terse-Plain refl (omega arith, (omega arith, (omega arith, tt)))
