-- ===== src/Cognition/Vibe.antt =====
-- cognition/vibe/vibe.go: a session's style, proactivity and role, cached, and kept in the memory
-- store as a text. The store is a parameter: what it returns for a query, `none` where it fails, and
-- what an upsert makes of it, `false` where it fails. A time 0 is the zero time.
pub mod Storing
mod Examples
use vcos.Base.{
  ℕ, Bool, true, false, ◌∷◌, [], List, ◌++◌, Option, none, some, if◌then◌else◌, nat_eq, ◌||◌,
}
use vcos.Base.Text.{Text, runes, ◌==◌, fields}
use vcos.Base.Dict.{Dict, lookup, insert}
use vcos.Base.Int.{pos}
use vcos.Memory.{Entry, Filter, zero_entry}

pub record State : Type 0 where
  pub style : Text
  pub proactivity : Text
  pub role : Text
  pub updated_at : ℕ

abbrev pub default_state : State
default_state = record {
  style = runes "balanced";
  proactivity = runes "balanced";
  role = runes "developer";
  updated_at = 0;
}

-- strings.SplitN(part, "=", 2), `none` where it makes one part.
abbrev split_key : Text → Option (Text × Text)
split_key [] = none
split_key (c ∷ s) =
    if nat_eq c b'='
    then some ([], s)
    else elim (split_key s) [ none ↦ none | some (k, v) ↦ some (c ∷ k, v) ]

abbrev set_key : Option (Text × Text) → State → State
set_key none s = s
set_key (some (key, value)) s =
    if key == runes "style"
    then record s { style = value }
    else if key == runes "proactivity"
    then record s { proactivity = value }
    else if key == runes "role"
    then record s { role = value }
    else s

abbrev pub set_parts : List Text → State → State
set_parts [] s = s
set_parts (part ∷ parts) s = set_parts parts (set_key (split_key part) s)

unfoldable pub parse_vibe_content : Text → State
parse_vibe_content content = set_parts (fields content) default_state

unfoldable pub format_vibe_content : State → Text
format_vibe_content s =
    runes "style="
    ++ (s.style ++ (runes " proactivity=" ++ (s.proactivity ++ (runes " role=" ++ s.role))))

-- `store` is `none` for a nil store.
pub record Controller (M : Type 0) : Type 0 where
  pub store : Option M
  pub cache : Dict State

module _ {M : Type 0} where
  unfoldable pub new : Option M → Controller M
  new store = record { store = store; cache = [] }

abbrev pub vibe_filter : Text → Filter
vibe_filter session_id = record {
  types = runes "long_term" ∷ [];
  domains = runes "dialogue" ∷ [];
  cognitive_kinds = [];
  session_id = session_id;
  cwd = [];
  title_contains = [];
  content_contains = [];
  limit = pos 1;
  offset = pos 0;
}

abbrev pub vibe_entry : Text → State → Entry
vibe_entry session_id s = record zero_entry {
  id = runes "vibe-state-" ++ session_id;
  type = runes "long_term";
  domain = runes "dialogue";
  title = runes "vibe state";
  content = format_vibe_content s;
  session_id = session_id;
  source = runes "kernel";
  created_at = s.updated_at;
  updated_at = s.updated_at;
}

module _ {M : Type 0} (query : Filter → M → Option (List Entry))
    (upsert : Entry → M → Bool × M) where
  abbrev from_entries : Text → Option (List Entry) → Controller M → State × Controller M
  from_entries session_id none c = (default_state, c)
  from_entries session_id (some []) c = (default_state, c)
  from_entries session_id (some (e ∷ es)) c =
      let s = parse_vibe_content e.content in (s, record c { cache = insert session_id s c.cache })

  abbrev from_store : Text → Option M → Controller M → State × Controller M
  from_store session_id none c = (default_state, c)
  from_store session_id (some m) c = from_entries session_id (query (vibe_filter session_id) m) c

  abbrev from_cache : Text → Option State → Controller M → State × Controller M
  from_cache session_id (some s) c = (s, c)
  from_cache session_id none c = from_store session_id c.store c

  unfoldable pub get : Text → Controller M → State × Controller M
  unfolding parse_vibe_content
  get session_id c = from_cache session_id (lookup session_id c.cache) c

  abbrev put_store : Entry → Option M → Bool × Option M
  put_store e none = (true, none)
  put_store e (some m) = let (ok, m') = upsert e m in (ok, some m')

  -- Set, `false` where the store fails.
  unfoldable pub set : ℕ → Text → State → Controller M → Bool × Controller M
  unfolding format_vibe_content
  set now session_id state c =
      let s = record state { updated_at = now } in
      let (ok, store) = put_store (vibe_entry session_id s) c.store in
      (ok, record { store = store; cache = insert session_id s c.cache })

  unfoldable pub update_style : ℕ → Text → Text → Controller M → Bool × Controller M
  unfolding get set
  update_style now session_id style c =
      let (s, c') = get session_id c in set now session_id (record s { style = style }) c'

  unfoldable pub update_proactivity : ℕ → Text → Text → Controller M → Bool × Controller M
  unfolding get set
  update_proactivity now session_id p c =
      let (s, c') = get session_id c in set now session_id (record s { proactivity = p }) c'

  unfoldable pub update_role : ℕ → Text → Text → Controller M → Bool × Controller M
  unfolding get set
  update_role now session_id role c =
      let (s, c') = get session_id c in set now session_id (record s { role = role }) c'

  unfoldable pub tags : Text → Controller M → List Text
  unfolding get
  tags session_id c =
      let (s, c') = get session_id c in
      (runes "vibe:style=" ++ s.style)
      ∷ (runes "vibe:proactivity=" ++ s.proactivity)
      ∷ (runes "vibe:role=" ++ s.role)
      ∷ []
