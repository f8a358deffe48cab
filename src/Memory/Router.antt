-- ===== src/Memory/Router.antt =====
-- memory/moe/moe.go: the router that classifies intents and asks the memory store for entries that
-- fit them, as a rule of the scheduler. memory.Store is the interface `Store` of what the router
-- calls, on a state `S`.
pub mod Scope
use vcos.Base.{
  ℕ, suc, ◌+◌, ◌*◌, not, ◌&&◌, List, [], ◌∷◌, ◌++◌, map, Option, none, some, if◌then◌else◌, any,
}
use vcos.Base.Text.{Text, runes, ◌==◌, is_empty, contains, to_lower, join}
use vcos.Base.Int.{ℤ, pos, negsuc}
use vcos.Kernel.Scheduler.{Kind, IntentRequest, Decision, Rule, plain, unset, admit}
use vcos.Memory.{Entry, Filter, Hit, zero_entry}

-- `none` is an error of the query; the error of an upsert is a text.
pub record Store (S : Type 0) : Type 0 where
  pub upsert : Entry → S → S × Option Text
  pub query_similar : Text → Filter → ℤ → S → Option (List Hit)

-- `string(req.Kind)`
abbrev pub kind_text : Kind → Text
kind_text Kind.unset = []
kind_text Kind.exec = runes "exec"
kind_text Kind.ai_turn = runes "ai_turn"
kind_text Kind.slash = runes "slash"
kind_text Kind.skill = runes "skill"
kind_text Kind.unknown = runes "unknown"
kind_text (Kind.other s) = s

abbrev pub short_term : Text
short_term = runes "short_term"

abbrev pub project : Text
project = runes "project"

abbrev pub kind_type : Kind → Text
kind_type Kind.slash = project
kind_type Kind.skill = project
kind_type _ = short_term

unfoldable pub classify_type : IntentRequest → Text
classify_type req =
    let type = kind_type req.kind in
    if not (is_empty req.cwd) && type == short_term then project else type

abbrev task_words : List Text
task_words =
    runes "task"
    ∷ runes "todo"
    ∷ runes "plan"
    ∷ runes "schedule"
    ∷ runes "check"
    ∷ runes "status"
    ∷ []

abbrev code_words : List Text
code_words =
    runes "code"
    ∷ runes "refactor"
    ∷ runes "fix"
    ∷ runes "bug"
    ∷ runes "test"
    ∷ runes "build"
    ∷ runes "deploy"
    ∷ runes "review"
    ∷ []

-- `k * 2`
abbrev pub double : ℤ → ℤ
double (pos n) = pos (n * 2)
double (negsuc n) = negsuc (n * 2 + 1)

-- The text that is searched for: the command, or the tags, or the kind.
unfoldable pub query_text : IntentRequest → Text
query_text req =
    let tags = join req.tags (runes " ") in
    if is_empty req.command
    then (if is_empty tags then kind_text req.kind else tags)
    else req.command

abbrev pub hit_tag : Hit → Text
hit_tag h = runes "moe:hit=" ++ h.entry.id

-- The hits that the rule attaches: none where the query fails.
abbrev pub hits_or_none : Option (List Hit) → List Hit
hits_or_none none = []
hits_or_none (some hs) = hs

abbrev enrich : IntentRequest → List Hit → IntentRequest × Decision
enrich req [] = (req, plain unset [])
enrich req (h ∷ hs) = (record req { tags = req.tags ++ map hit_tag (h ∷ hs) }, plain admit [])

module _ (unicode_lower : ℕ → ℕ) where
  unfoldable pub classify_domain : IntentRequest → Text
  classify_domain req =
      let command = to_lower unicode_lower req.command in
      let target = to_lower unicode_lower (join req.tags (runes " ")) in
      let combined = command ++ (runes " " ++ target) in
      if any (contains combined) task_words
      then runes "task"
      else (if any (contains combined) code_words then runes "code" else runes "dialogue")

  unfoldable pub retrieve_filter : IntentRequest → ℤ → Filter
  unfolding classify_type classify_domain
  retrieve_filter req k = record {
    types = classify_type req ∷ [];
    domains = classify_domain req ∷ [];
    cognitive_kinds = [];
    session_id = req.session_id;
    cwd = req.cwd;
    title_contains = [];
    content_contains = [];
    limit = double k;
    offset = pos 0;
  }

  pub memory_of : IntentRequest → Text → Entry
  unfolding classify_type classify_domain
  memory_of req content = record zero_entry {
    id = runes "mem-" ++ (req.owner ++ (runes "-" ++ kind_text req.kind));
    type = classify_type req;
    domain = classify_domain req;
    title = req.command;
    content = content;
    source = runes "kernel";
    session_id = req.session_id;
    cwd = req.cwd;
  }

  module _ {S : Type 0} (store : Store S) where
    unfoldable pub retrieve : IntentRequest → ℤ → S → Option (List Hit)
    unfolding retrieve_filter query_text
    retrieve req k s = store.query_similar (query_text req) (retrieve_filter req k) k s

    -- The rule, with the state of the store, or no store.
    pub scheduler_rule : ℤ → Option S → Rule
    unfolding retrieve
    scheduler_rule k none req = (req, plain unset [])
    scheduler_rule k (some s) req = enrich req (hits_or_none (retrieve req k s))

    -- `none`: no router, or a router without a store.
    pub write_memory : IntentRequest → Text → Option S → Option S × Option Text
    unfolding memory_of
    write_memory req content none = (none, none)
    write_memory req content (some s) =
        if is_empty req.session_id
        then (some s, none)
        else let (s', error) = store.upsert (memory_of req content) s in (some s', error)
