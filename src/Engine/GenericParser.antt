-- ===== src/Engine/GenericParser.antt =====
-- engine/generic_parser.go, GenericParser: the state machine that turns the lines of a command into
-- events. The time of an event is left out. parseLine calls itself after a flush: it runs on fuel.
pub mod Carrying
pub mod Rounds
pub mod Lines
pub mod Diffs
mod Examples
use vcos.Base.{
  ℕ, zero, suc, Bool, true, false, not, ◌&&◌, ◌||◌, List, [], ◌∷◌, ◌++◌, reverse, Option, none,
  some, if◌then◌else◌, nat_eq, ltb,
}
use vcos.Base.Text.{
  Text, runes, ◌==◌, is_empty, trim_space, has_prefix, has_suffix, contains, fields, join, to_lower,
}
use vcos.Engine.Patterns.{
  python_traceback_start, java_exception_start, java_stack_line, java_cause_line,
  python_exception_line, step_line, step_done, path_tail, diff_git_start, diff_hunk, patch_file,
  file_ext, trim_prefix, byte_length,
}

pub data ParserEvent : Type 0 where
  log : (session_id message stream : Text) → ParserEvent
  step_update : (session_id message status target tool command : Text) → ParserEvent
  error : (session_id message stack : Text) → ParserEvent
  file_diff : (session_id path title diff lang : Text) → ParserEvent

pub record GenericParser : Type 0 where
  pub buffer : List Text
  pub buffering : Bool
  pub error_kind : Text
  pub diff_buffer : List Text
  pub diffing : Bool
  pub diff_path : Text
  pub diff_title : Text
  pub diff_lang : Text
  pub patch_style : Bool

abbrev pub new_generic_parser : GenericParser
new_generic_parser = record {
  buffer = [];
  buffering = false;
  error_kind = [];
  diff_buffer = [];
  diffing = false;
  diff_path = [];
  diff_title = [];
  diff_lang = [];
  patch_style = false;
}

abbrev or_text : Text → Text → Text
or_text [] other = other
or_text (c ∷ s) other = c ∷ s

pub start_error_buffer : Text → Text → GenericParser → GenericParser
start_error_buffer kind first_line p = record p {
  buffering = true;
  error_kind = kind;
  buffer = first_line ∷ [];
}

pub should_continue_error_buffer : Text → GenericParser → Bool
should_continue_error_buffer line p =
    if is_empty line
    then true
    else if p.error_kind == runes "python"
    then has_prefix line (runes "  File ")
      || has_prefix line (runes "    ")
      || python_exception_line line
    else if p.error_kind == runes "java"
    then java_stack_line line
      || java_cause_line line
      || has_prefix line (runes "\t...")
      || has_prefix line (runes "\tSuppressed: ")
    else false

-- The loop over the reversed lines.
abbrev first_non_empty_line : List Text → Text
first_non_empty_line [] = []
first_non_empty_line (line ∷ lines) =
    if is_empty (trim_space line) then first_non_empty_line lines else trim_space line

pub last_non_empty_line : List Text → Text
last_non_empty_line lines = first_non_empty_line (reverse lines)

abbrev first_line_of : List Text → Text
first_line_of [] = []
first_line_of (line ∷ lines) = line

pub flush_buffered_error : Text → GenericParser → List ParserEvent × GenericParser
unfolding last_non_empty_line
flush_buffered_error session_id p =
    let message = or_text (last_non_empty_line p.buffer) (first_line_of p.buffer) in
    (
      error session_id message (join p.buffer (runes "\n")) ∷ [],
      record p { buffer = []; buffering = false; error_kind = [] },
    )

-- setDiffPath, for the path trimmed.
abbrev placed : Text → GenericParser → GenericParser
placed path p =
    let ext = trim_prefix (file_ext path) (runes ".") in
    record p {
      diff_path = path;
      diff_lang = or_text ext p.diff_lang;
      diff_title = or_text p.diff_title (runes "Updating " ++ path);
    }

pub set_diff_path : Text → GenericParser → GenericParser
set_diff_path path p =
    let path' = trim_space path in
    if is_empty path' || path' == runes "/dev/null" then p else placed path' p

abbrev titled : Text → GenericParser → GenericParser
titled title p = record p { diff_title = title }

abbrev capture_names : Text → GenericParser → GenericParser
capture_names line p =
    if has_prefix line (runes "+++ b/")
    then set_diff_path (trim_prefix line (runes "+++ b/")) p
    else if has_prefix line (runes "--- a/") && is_empty p.diff_path
    then set_diff_path (trim_prefix line (runes "--- a/")) p
    else p

abbrev capture_patch : Text → Option (Text × Text) → GenericParser → GenericParser
capture_patch line none p = capture_names line p
capture_patch line (some (action, name)) p =
    let path = trim_space name in titled (action ++ runes " " ++ path) (set_diff_path path p)

abbrev capture_git : Text → Option Text → GenericParser → GenericParser
capture_git line none p = capture_patch line (patch_file line) p
capture_git line (some name) p =
    let p' = set_diff_path name p in titled (or_text p'.diff_title (runes "Updating " ++ name)) p'

pub capture_diff_metadata : Text → GenericParser → GenericParser
unfolding set_diff_path
capture_diff_metadata line p = capture_git line (diff_git_start line) p

pub append_diff_line : Text → GenericParser → GenericParser
unfolding capture_diff_metadata
append_diff_line line p =
    capture_diff_metadata line (record p { diff_buffer = p.diff_buffer ++ line ∷ [] })

pub start_diff_buffer : Text → GenericParser → GenericParser
unfolding append_diff_line
start_diff_buffer first_line p = append_diff_line first_line (record p {
  diffing = true;
  diff_buffer = [];
  diff_path = [];
  diff_title = [];
  diff_lang = [];
  patch_style = has_prefix first_line (runes "*** ");
})

abbrev is_some {ℓ} : {A : Type ℓ} → Option A → Bool
is_some none = false
is_some (some a) = true

pub is_diff_start : Text → Bool
is_diff_start line =
    let trimmed = trim_space line in
    not (is_empty trimmed)
    && (is_some (diff_git_start trimmed)
        || has_prefix trimmed (runes "*** Begin Patch")
        || is_some (patch_file trimmed)
        || has_prefix trimmed (runes "--- ")
        || has_prefix trimmed (runes "+++ ")
        || diff_hunk trimmed)

-- The raw string of the last prefix has two backslashes.
pub should_continue_diff_buffer : Text → GenericParser → Bool
unfolding is_diff_start
should_continue_diff_buffer line p =
    if is_empty line
    then true
    else if p.patch_style
    then has_prefix line (runes "*** ")
      || has_prefix line (runes "@@")
      || has_prefix line (runes "+")
      || has_prefix line (runes "-")
      || has_prefix line (runes " ")
    else is_diff_start line
      || has_prefix line (runes "index ")
      || has_prefix line (runes "new file mode ")
      || has_prefix line (runes "deleted file mode ")
      || has_prefix line (runes "similarity index ")
      || has_prefix line (runes "rename from ")
      || has_prefix line (runes "rename to ")
      || has_prefix line (runes "--- ")
      || has_prefix line (runes "+++ ")
      || diff_hunk line
      || has_prefix line (runes "+")
      || has_prefix line (runes "-")
      || has_prefix line (runes " ")
      || has_prefix line (runes "\\\\ No newline at end of file")

abbrev default_title : Text → Text
default_title [] = runes "File diff"
default_title (c ∷ path) = runes "Updating " ++ c ∷ path

pub flush_buffered_diff : Text → GenericParser → List ParserEvent × GenericParser
flush_buffered_diff session_id p = (
  file_diff session_id p.diff_path (or_text p.diff_title (default_title p.diff_path))
        (join p.diff_buffer (runes "\n")) p.diff_lang
      ∷ [],
  record p {
    diff_buffer = [];
    diffing = false;
    diff_path = [];
    diff_title = [];
    diff_lang = [];
    patch_style = false;
  },
)

pub has_pending_diff : GenericParser → Bool
has_pending_diff p = elim p.diff_buffer [ [] ↦ false | line ∷ lines ↦ p.diffing ]

-- The early returns of detectStepUpdate.
abbrev no_step : Text → Bool
no_step trimmed =
    is_empty trimmed
    || ltb 140 (byte_length trimmed)
    || contains trimmed (runes "$")
    || contains trimmed (runes "|")
    || contains trimmed (runes "\t")
    || has_prefix trimmed (runes "[")
    || has_prefix trimmed (runes "(")
    || has_prefix trimmed (runes "{")
    || contains trimmed (runes "://")
    || not (step_line trimmed || step_done trimmed)

-- Message, status and target.
pub detect_step_update : Text → Option (Text × Text × Text)
detect_step_update line =
    let trimmed = trim_space line in
    let status =
      if step_done trimmed
      then runes "done"
      else if has_suffix trimmed (runes "...")
      then runes "info"
      else runes "running" in
    if no_step trimmed then none else some (trimmed, status, path_tail trimmed)

-- Flush
pub flush : Text → GenericParser → List ParserEvent × GenericParser
unfolding flush_buffered_error flush_buffered_diff
flush session_id p =
    let (es, p') = if p.buffering then flush_buffered_error session_id p else ([], p) in
    let (fs, p″) = if p'.diffing then flush_buffered_diff session_id p' else ([], p') in
    (es ++ fs, p″)

abbrev with_events :
    List ParserEvent
    → Option (List ParserEvent × GenericParser)
    → Option (List ParserEvent × GenericParser)
with_events es none = none
with_events es (some (fs, p)) = some (es ++ fs, p)

-- strings.TrimRight(line, "\r\n")
abbrev skip_ends : Text → Text
skip_ends [] = []
skip_ends (c ∷ s) = if nat_eq c 13 || nat_eq c 10 then skip_ends s else c ∷ s

-- strings.TrimLeft(line, "\r")
abbrev skip_returns : Text → Text
skip_returns [] = []
skip_returns (c ∷ s) = if nat_eq c 13 then skip_returns s else c ∷ s

pub trim_line : Text → Text
trim_line line = skip_returns (reverse (skip_ends (reverse line)))

module _ (unicode_lower : ℕ → ℕ) where
  abbrev tool_of : List Text → Text → Text × Text
  tool_of [] trimmed = ([], [])
  tool_of (part ∷ parts) trimmed = (to_lower unicode_lower part, trimmed)

  pub detect_step_tool_and_command : Text → Text × Text
  detect_step_tool_and_command message =
      let trimmed = trim_space message in
      if is_empty trimmed then ([], []) else tool_of (fields trimmed) trimmed

  abbrev plain : Text → Text → Text → Option (Text × Text × Text) → ParserEvent
  plain line session_id stream none = log session_id line stream
  plain line session_id stream (some (message, status, target)) =
      let (tool, command) = detect_step_tool_and_command message in
      step_update session_id message status target tool command

  abbrev ends_patch : Text → GenericParser → Bool
  ends_patch line p = p.patch_style && line == runes "*** End Patch"

  -- A line of a diff, which may be its last.
  abbrev diff_line : Text → Text → GenericParser → List ParserEvent × GenericParser
  diff_line line session_id p =
      if ends_patch line p then flush_buffered_diff session_id p else ([], p)

  -- The part of parseLine for a parser that buffers nothing.
  pub parse_fresh : Text → Text → Text → GenericParser → List ParserEvent × GenericParser
  unfolding detect_step_tool_and_command
  parse_fresh line session_id stream p =
      if python_traceback_start line
      then ([], start_error_buffer (runes "python") line p)
      else if java_exception_start line
      then ([], start_error_buffer (runes "java") line p)
      else if is_diff_start line
      then diff_line line session_id (start_diff_buffer line p)
      else (plain line session_id stream (detect_step_update line) ∷ [], p)

  pub parse_from :
      ℕ → Text → Text → Text → GenericParser → Option (List ParserEvent × GenericParser)
  unfolding parse_fresh
  parse_from zero line session_id stream p = none
  parse_from (suc fuel) line session_id stream p =
      let (es, p') = flush_buffered_error session_id p in
      let (fs, q') = flush_buffered_diff session_id p in
      let after_error = parse_from fuel line session_id stream p' in
      let after_diff = parse_from fuel line session_id stream q' in
      if p.buffering
      then (if should_continue_error_buffer line p
          then some ([], record p { buffer = p.buffer ++ line ∷ [] })
          else if is_empty line
          then some (es, p')
          else with_events es after_error)
      else if p.diffing
      then (if should_continue_diff_buffer line p
          then some (diff_line line session_id (append_diff_line line p))
          else if is_empty line
          then some (fs, q')
          else with_events fs after_diff)
      else some (parse_fresh line session_id stream p)

  -- ParseLine: no line takes more than three rounds.
  pub parse_line : Text → Text → Text → GenericParser → Option (List ParserEvent × GenericParser)
  unfolding parse_from trim_line
  parse_line line session_id stream p = parse_from 3 (trim_line line) session_id stream p
