-- ===== src/Cognition/Intake.antt =====
-- cognition/intake/intake.go: what a new session's directory and first prompt say, and the memory
-- entries that they seed. `stat cwd name` is what os.Stat says of the file of that name there:
-- whether it is a directory, `none` for an error. The store is what its Upsert makes of it; its
-- errors are dropped.
pub mod Seeding
mod Examples
use vcos.Base.{
  ℕ, Bool, true, false, not, ◌&&◌, ◌||◌, List, [], ◌∷◌, ◌++◌, Option, none, some, if◌then◌else◌,
}
use vcos.Base.Text.{Text, runes, is_empty, contains, to_lower, join}
use vcos.Memory.{Entry, zero_entry}

pub record ProjectHint : Type 0 where
  pub language : Text
  pub framework : Text
  pub build_tool : Text
  pub files : List Text

-- ProjectHint{}
abbrev pub no_hint : ProjectHint
no_hint = record { language = []; framework = []; build_tool = []; files = [] }

pub record CognitiveProfile : Type 0 where
  pub goal : Text
  pub role : Text
  pub style : Text
  pub project_hint : ProjectHint

-- File, language and tool.
abbrev pub project_signatures : List (Text × Text × Text)
project_signatures =
    (runes "go.mod", runes "go", runes "go mod")
    ∷ (runes "package.json", runes "javascript/typescript", runes "npm/yarn")
    ∷ (runes "tsconfig.json", runes "typescript", runes "tsc")
    ∷ (runes "Cargo.toml", runes "rust", runes "cargo")
    ∷ (runes "requirements.txt", runes "python", runes "pip")
    ∷ (runes "pyproject.toml", runes "python", runes "pip/poetry")
    ∷ (runes "setup.py", runes "python", runes "setuptools")
    ∷ (runes "Pipfile", runes "python", runes "pipenv")
    ∷ (runes "Gemfile", runes "ruby", runes "bundler")
    ∷ (runes "pom.xml", runes "java", runes "maven")
    ∷ (runes "build.gradle", runes "java/kotlin", runes "gradle")
    ∷ (runes "CMakeLists.txt", runes "c/c++", runes "cmake")
    ∷ (runes "Makefile", runes "c/c++", runes "make")
    ∷ (runes "Dockerfile", runes "container", runes "docker")
    ∷ (runes "docker-compose.yml", runes "container", runes "docker compose")
    ∷ (runes ".git", runes "any", runes "git")
    ∷ []

abbrev or_text : Text → Text → Text
or_text [] other = other
or_text (c ∷ s) other = c ∷ s

abbrev is_file : Option Bool → Bool
is_file none = false
is_file (some dir) = not dir

abbrev is_there : Option Bool → Bool
is_there none = false
is_there (some dir) = true

unfoldable pub format_project_hint : ProjectHint → Text
format_project_hint h =
    let build = if is_empty h.build_tool then [] else (runes "build=" ++ h.build_tool) ∷ [] in
    let rest =
      if is_empty h.framework then build else (runes "framework=" ++ h.framework) ∷ build in
    join ((runes "language=" ++ h.language) ∷ rest) (runes " ")

unfoldable pub preference : Text → Text → Text
preference role style = runes "role=" ++ (role ++ (runes " style=" ++ style))

module _ (stat : Text → Text → Option Bool) where
  -- The loop of detectProject.
  abbrev add_signatures : Text → List (Text × Text × Text) → ProjectHint → ProjectHint
  add_signatures cwd [] h = h
  add_signatures cwd ((file, language, tool) ∷ sigs) h = add_signatures cwd sigs (
      if is_file (stat cwd file)
      then record h {
        language = or_text h.language language;
        build_tool = or_text h.build_tool tool;
        files = h.files ++ file ∷ [];
      }
      else h)

  abbrev has_either : Text → Text → Text → Bool
  has_either cwd name other = is_there (stat cwd name) || is_there (stat cwd other)

  unfoldable pub detect_project : Text → ProjectHint
  detect_project cwd =
      let h = add_signatures cwd project_signatures no_hint in
      if has_either cwd (runes "next.config.js") (runes "next.config.ts")
      then record h { framework = runes "next.js" }
      else if has_either cwd (runes "tailwind.config.js") (runes "tailwind.config.ts")
      then record h { framework = runes "tailwind" }
      else if has_either cwd (runes "vite.config.js") (runes "vite.config.ts")
      then record h { framework = runes "vite" }
      else h

module _ (unicode_lower : ℕ → ℕ) where
  abbrev pub says : Text → Text → Text → Text → Bool
  says prompt a b c =
      let lower = to_lower unicode_lower prompt in
      contains lower a || contains lower b || contains lower c

  unfoldable pub infer_role : Text → Text
  infer_role prompt =
      if says prompt (runes "review") (runes "audit") (runes "security")
      then runes "reviewer"
      else if says prompt (runes "architect") (runes "design") (runes "plan")
      then runes "architect"
      else if says prompt (runes "debug") (runes "fix") (runes "bug")
      then runes "debugger"
      else runes "developer"

  unfoldable pub infer_style : Text → Text
  infer_style prompt =
      if says prompt (runes "concise") (runes "brief") (runes "short")
      then runes "concise"
      else if says prompt (runes "detailed") (runes "verbose") (runes "explain")
      then runes "verbose"
      else runes "balanced"

  unfoldable pub analyze : (Text → Text → Option Bool) → Text → Text → CognitiveProfile
  unfolding detect_project infer_role infer_style
  analyze stat cwd initial_prompt =
      if is_empty cwd
      then record { goal = initial_prompt; role = []; style = []; project_hint = no_hint }
      else record {
        goal = initial_prompt;
        role = infer_role initial_prompt;
        style = infer_style initial_prompt;
        project_hint = detect_project stat cwd;
      }

-- The entries that Bootstrap upserts, in order.
abbrev pub seeded : Text → Text → ℕ → Entry
seeded session_id cwd now = record zero_entry {
  session_id = session_id;
  cwd = cwd;
  source = runes "kernel";
  created_at = now;
  updated_at = now;
}

unfoldable pub seeds : ℕ → Text → Text → CognitiveProfile → List Entry
unfolding format_project_hint preference
seeds now session_id cwd p =
    let base = seeded session_id cwd now in
    let project = record base {
      id = runes "intake-project-" ++ session_id;
      type = runes "project";
      domain = runes "code";
      title = runes "project context";
      content = format_project_hint p.project_hint;
    } in
    let goal = record base {
      id = runes "intake-goal-" ++ session_id;
      type = runes "short_term";
      domain = runes "task";
      title = runes "session goal";
      content = p.goal;
      source = runes "user";
    } in
    let pref = record base {
      id = runes "intake-pref-" ++ session_id;
      type = runes "long_term";
      domain = runes "dialogue";
      title = runes "user preference";
      content = preference p.role p.style;
    } in
    (if is_empty p.project_hint.language then [] else project ∷ [])
    ++ ((if is_empty p.goal then [] else goal ∷ [])
        ++ (if is_empty p.role && is_empty p.style then [] else pref ∷ []))

abbrev pub upsert_all : {M : Type 0} → (Entry → M → M) → List Entry → M → M
upsert_all upsert [] m = m
upsert_all upsert (e ∷ es) m = upsert_all upsert es (upsert e m)

abbrev pub bootstrap :
    {M : Type 0} → (Entry → M → M) → ℕ → Text → Text → CognitiveProfile → Option M → Option M
bootstrap upsert now session_id cwd p none = none
bootstrap upsert now session_id cwd p (some m) =
    some (upsert_all upsert (seeds now session_id cwd p) m)
