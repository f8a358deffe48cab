-- ===== src/Memory/Examples.antt =====
-- The memory store and its router on concrete entries, and their theorems at them.
use vcos.Base.Sort.{sort_by, insert_by}
use mathlib.Core.List.Perm
use vcos.Base.{ℕ, ◌≡◌, refl, List, [], ◌∷◌, some, map, length, All}
use vcos.Base.Text.{Text, runes, contains, to_lower, fields, ◌==◌, join}
use vcos.Base.Int.{pos, positive_or}
use vcos.Kernel.Scheduler.{Kind, IntentRequest}
use vcos.Memory.{
  Entry, Filter, MemStore, zero_entry, new_mem_store, query, query_similar, simple_text_score,
  expired, match_any_string, selects,
}
use vcos.Memory.Storing.{
  Call, Inv, upsert_call, delete_call, purge_call, run, run-new_mem_store-Inv,
}
use vcos.Memory.Searching.{query_selects}
use vcos.Memory.Chunker.{infer_lang, split_lines, default_max_lines, chunk}
use vcos.Memory.Chunker.Bounds.{Tiles, chunk-Tiles}
use vcos.Memory.Router.{classify_type, classify_domain, retrieve, retrieve_filter, query_text}
use vcos.Memory.Router.Scope.{InScope, found, mem_store, found-InScope}

abbrev note : Text → Text → ℕ → Entry
note id title updated = record zero_entry {
  id = id;
  type = runes "project";
  domain = runes "code";
  title = title;
  content = runes "retry the build";
  updated_at = updated;
}

abbrev all : Filter
all = record {
  types = [];
  domains = [];
  cognitive_kinds = [];
  session_id = [];
  cwd = [];
  title_contains = [];
  content_contains = [];
  limit = pos 1;
  offset = pos 0;
}

abbrev same : ℕ → ℕ
same c = c

abbrev in_order : List Entry → List Entry
in_order es = es

abbrev stale : Entry
stale = record (note (runes "c") (runes "old") 3) { expire_at = 5 }

abbrev store : MemStore
store = record {
  entries =
      (runes "a", note (runes "a") (runes "Build") 1)
      ∷ (runes "b", note (runes "b") [] 2)
      ∷ (runes "c", stale)
      ∷ [];
}

-- The latest of the two that have not expired; an offset plays no part.
query_latest :
    map (λ e. e.id) (query same in_order 10 (record all { offset = pos 1 }) store) ≡ runes "b" ∷ []
unfolding query sort_by expired match_any_string
query_latest = refl

scores :
    (simple_text_score same (runes "build") (note (runes "a") (runes "Build") 1) ≡ 9)
    × (simple_text_score same (runes "the build") (note (runes "a") (runes "x") 1) ≡ 7)
    × (simple_text_score same (runes "build the") (note (runes "a") (runes "x") 1) ≡ 5)
    × (simple_text_score same (runes "tr wing") (note (runes "a") (runes "x") 1) ≡ 4)
    × (simple_text_score same (runes "wing") (note (runes "a") (runes "x") 1) ≡ 0)
unfolding simple_text_score contains to_lower fields ◌==◌
scores = (refl, refl, refl, refl, refl)

-- An entry without a title has the best score for any query.
untitled : simple_text_score same (runes "wing") (note (runes "b") [] 1) ≡ 9
unfolding simple_text_score contains to_lower
untitled = refl

abbrev request : IntentRequest
request = record {
  kind = Kind.exec;
  session_id = [];
  execution_id = [];
  owner = runes "me";
  resource_key = [];
  engine = [];
  command = runes "Fix build";
  cwd = runes "/p";
  tags = [];
}

classified :
    (classify_type request ≡ runes "project") × (classify_domain same request ≡ runes "code")
unfolding classify_type classify_domain ◌==◌ contains to_lower join
classified = (refl, refl)

abbrev calls : List Call
calls = upsert_call 1 1 1 stale ∷ delete_call (runes "c") ∷ purge_call 10 ∷ []

run-new_mem_store-Inv_example : Inv (run calls new_mem_store)
run-new_mem_store-Inv_example = run-new_mem_store-Inv calls

query_selects_example : length (query same in_order 10 all store) ≡ 1
unfolding selects expired match_any_string
query_selects_example = (query_selects same in_order Perm.refl 10 all store).1

-- An entry of the request's directory, and one of another.
abbrev here : MemStore
here = record {
  entries =
      (runes "a", record (note (runes "a") (runes "Build") 1) { cwd = runes "/p" })
      ∷ (runes "b", record (note (runes "b") (runes "Build") 2) { cwd = runes "/q" })
      ∷ [];
}

found_here :
    map (λ h. h.entry.id) (found same (mem_store same in_order 10) (pos 3) (some here) request)
    ≡ runes "a" ∷ []
unfolding retrieve retrieve_filter query_text query_similar classify_type classify_domain ◌==◌
    contains to_lower join query sort_by expired match_any_string simple_text_score fields selects
    insert_by
found_here = refl

found-InScope_example :
    All
      (λ h. InScope same 10 request h.entry)
      (found same (mem_store same in_order 10) (pos 3) (some here) request)
found-InScope_example = found-InScope same in_order Perm.refl 10 request (pos 3) here

abbrev source : Text
source = runes "package a\n\nfunc f() {\n}\n"

chunk-Tiles_example :
    Tiles
      (runes "a.go")
      (infer_lang (runes "a.go"))
      (positive_or (pos 2) default_max_lines)
      (split_lines source)
      (chunk (pos 2) (runes "a.go") source)
chunk-Tiles_example = chunk-Tiles (pos 2) (runes "a.go") source
