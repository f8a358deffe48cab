-- ===== src/Evolution/Evolve.antt =====
-- evolution/evolve/evolve.go: a proposal is checked in a shadow workspace, and what was learned is
-- written to the memory store. The process that Run starts is the parameter `exec`, the same for the
-- same command in one evaluation; of the workspace's creation and the write of the changes only their
-- errors are read, and a store is what an upsert makes of it. A confidence is in hundredths; a
-- duration is its text; `clock` is the clock's readings in order.
pub mod Checking
use vcos.Base.{
  ℕ, suc, ◌+◌, ◌/◌, Bool, true, false, not, ◌&&◌, List, [], ◌∷◌, ◌++◌, map, Option, none, some,
  if◌then◌else◌, nat_eq, length, drop,
}
use vcos.Base.Text.{Text, runes, is_empty, trim_space, has_prefix, decimal}
use vcos.Base.Int.{ℤ, pos, negsuc}
use vcos.Memory.{Entry, zero_entry}
use vcos.Memory.Chunker.{split_lines}
use vcos.Evolution.Shadow.{
  Capability, cap_read, cap_write, cap_build, cap_test, cap_lint, cap_format, allow,
}

pub data CheckType : Type 0 where
  check_build check_test check_lint check_format : CheckType
  other_check : Text → CheckType

abbrev pub check_name : CheckType → Text
check_name check_build = runes "build"
check_name check_test = runes "test"
check_name check_lint = runes "lint"
check_name check_format = runes "format"
check_name (other_check name) = name

-- shadow.RunResult, without the command.
pub record RunResult : Type 0 where
  pub exit_code : ℤ
  pub stdout : Text
  pub stderr : Text
  pub duration : Text

pub record CheckResult : Type 0 where
  pub type : CheckType
  pub passed : Bool
  pub exit_code : ℤ
  pub stdout : Text
  pub stderr : Text
  pub duration : Text

pub record Learning : Type 0 where
  pub pattern : Text
  pub confidence : ℕ
  pub domain : Text
  pub outcome : Text

pub record EvolveResult : Type 0 where
  pub title : Text
  pub passed : Bool
  pub checks : List CheckResult
  pub learnings : List Learning
  pub summary : Text

-- The switch of runCheck.
abbrev pub command_of : CheckType → Option (Text × List Text)
command_of check_build = some (runes "go", runes "build" ∷ runes "./..." ∷ [])
command_of check_test = some (runes "go", runes "test" ∷ runes "./..." ∷ [])
command_of check_lint = some (runes "go", runes "vet" ∷ runes "./..." ∷ [])
command_of check_format = some (runes "gofmt", runes "-l" ∷ runes "." ∷ [])
command_of (other_check name) = none

abbrev pub capabilities : List Capability
capabilities = cap_read ∷ cap_write ∷ cap_build ∷ cap_test ∷ cap_lint ∷ cap_format ∷ []

abbrev pub is_zero_code : ℤ → Bool
is_zero_code (pos n) = nat_eq n 0
is_zero_code (negsuc n) = false

abbrev pub blocked_message : Text
blocked_message = runes "shadow: command blocked by capability whitelist"

-- What stands before the first ": ", and after it.
abbrev split_colon : Text → Option (Text × Text)
split_colon [] = none
split_colon (c ∷ s) =
    if has_prefix (c ∷ s) (runes ": ")
    then some ([], drop 2 (c ∷ s))
    else elim (split_colon s) [ none ↦ none | some (k, v) ↦ some (c ∷ k, v) ]

abbrev message_of : Text → Option (Text × Text) → Text
message_of line none = line
message_of line (some ([], v)) = line
message_of line (some (c ∷ k, v)) = trim_space v

abbrev pattern_of : List Text → Text
pattern_of [] = []
pattern_of (line ∷ lines) =
    let rest = pattern_of lines in
    let trimmed = trim_space line in
    if is_empty trimmed then rest else message_of trimmed (split_colon trimmed)

unfoldable pub extract_error_pattern : Text → Text
extract_error_pattern stderr = pattern_of (split_lines stderr)

abbrev or_text : Text → Text → Text
or_text [] other = other
or_text (c ∷ s) other = c ∷ s

abbrev learning_of : CheckResult → Learning
learning_of c =
    if c.passed
    then record {
      pattern = check_name c.type ++ runes "_passed";
      confidence = 90;
      domain = runes "code";
      outcome = runes "passed";
    }
    else record {
      pattern = or_text (extract_error_pattern c.stderr) (check_name c.type ++ runes "_failed");
      confidence = 70;
      domain = runes "code";
      outcome = runes "failed";
    }

unfoldable pub extract_learnings : List CheckResult → List Learning
unfolding extract_error_pattern
extract_learnings cs = map learning_of cs

abbrev pub count_passed : List CheckResult → ℕ
count_passed [] = 0
count_passed (c ∷ cs) = if c.passed then suc (count_passed cs) else count_passed cs

abbrev status_of : Bool → Text
status_of true = runes "PASSED"
status_of false = runes "FAILED"

unfoldable pub build_summary : Text → Bool → List CheckResult → Text
build_summary title passed cs =
    title
    ++ (runes ": "
        ++ (status_of passed
            ++ (runes " ("
                ++ (decimal (count_passed cs)
                    ++ (runes "/" ++ (decimal (length cs) ++ runes " checks passed)"))))))

abbrev pub all_passed : List CheckResult → Bool
all_passed [] = true
all_passed (c ∷ cs) = c.passed && all_passed cs

-- `if len(checks) == 0`
abbrev pub checks_or_default : List CheckType → List CheckType
checks_or_default [] = check_lint ∷ check_build ∷ check_test ∷ []
checks_or_default (c ∷ cs) = c ∷ cs

-- The entry of a learning; the metadata has the pattern, and 0.7 or 0.9, as JSON.
abbrev pub entry_of : Text → ℕ → ℕ → Learning → Entry
entry_of title created updated l = record zero_entry {
  id = runes "evolve-" ++ (title ++ (runes "-" ++ l.pattern));
  type = runes "long_term";
  domain = runes "code";
  title = l.pattern;
  content = runes "outcome=" ++ (l.outcome ++ (runes " confidence=0." ++ decimal l.confidence));
  source = runes "kernel";
  metadata =
      (runes "pattern", l.pattern)
      ∷ (runes "confidence", runes "0." ++ decimal (l.confidence / 10))
      ∷ [];
  created_at = created;
  updated_at = updated;
}

module _ (unicode_lower : ℕ → ℕ) (exec : Text → List Text → RunResult) where
  -- shadow.Workspace.Run, `none` for ErrCapabilityBlocked.
  unfoldable pub run_command : List Capability → Text → List Text → Option RunResult
  run_command caps command args =
      if allow unicode_lower caps command args then some (exec command args) else none

  abbrev checked : CheckType → Option RunResult → CheckResult
  checked ct none = record {
    type = ct;
    passed = false;
    exit_code = pos 0;
    stdout = [];
    stderr = blocked_message;
    duration = [];
  }
  checked ct (some r) = record {
    type = ct;
    passed = is_zero_code r.exit_code;
    exit_code = r.exit_code;
    stdout = r.stdout;
    stderr = r.stderr;
    duration = r.duration;
  }

  abbrev check_command : CheckType → Option (Text × List Text) → CheckResult
  check_command ct none = record {
    type = ct;
    passed = true;
    exit_code = pos 0;
    stdout = [];
    stderr = [];
    duration = [];
  }
  check_command ct (some (cmd, args)) = checked ct (run_command capabilities cmd args)

  unfoldable pub run_check : CheckType → CheckResult
  unfolding run_command
  run_check ct = check_command ct (command_of ct)

  -- The result of Evaluate where the workspace is made and the changes are written.
  unfoldable pub evaluated : Text → List CheckType → EvolveResult
  unfolding run_check extract_learnings build_summary
  evaluated title checks =
      let cs = map run_check (checks_or_default checks) in
      record {
        title = title;
        passed = all_passed cs;
        checks = cs;
        learnings = extract_learnings cs;
        summary = build_summary title (all_passed cs) cs;
      }

  module _ {M : Type 0} (upsert : Entry → M → M) where
    abbrev store_all : Text → (ℕ → ℕ) → ℕ → List Learning → M → M
    store_all title clock i [] m = m
    store_all title clock i (l ∷ ls) m =
        store_all title clock (i + 2) ls (upsert (entry_of title (clock i) (clock (suc i)) l) m)

    abbrev store_some : Text → (ℕ → ℕ) → List Learning → Option M → Option M
    store_some title clock ls none = none
    store_some title clock ls (some m) = some (store_all title clock 0 ls m)

    abbrev empty_result : Text → EvolveResult
    empty_result title = record {
      title = title;
      passed = false;
      checks = [];
      learnings = [];
      summary = [];
    }

    -- Evaluate, with the errors of CreateWorkspace and, for a proposal with changes, of ApplyDiff.
    unfoldable pub evaluate :
        (ℕ → ℕ)
        → Text
        → List CheckType
        → Option Text
        → Option Text
        → Option M
        → EvolveResult × Option Text × Option M
    unfolding evaluated
    evaluate clock title checks (some e) apply_error store =
        (empty_result title, some (runes "evolve: create workspace: " ++ e), store)
    evaluate clock title checks none (some e) store =
        (empty_result title, some (runes "evolve: apply diff: " ++ e), store)
    evaluate clock title checks none none store =
        let r = evaluated title checks in (r, none, store_some title clock r.learnings store)
