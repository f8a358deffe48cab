-- ===== src/Engine/GenericParser/Carrying.antt =====
-- The lines that the parser's events carry (engine/generic_parser.go): definitions, and what the
-- parser does with a line when it buffers none.
use vcos.Base.{
  ℕ, ◌≡◌, refl, sym, ◌∙◌, subst, Bool, true, false, ◌&&◌, inl, inr, List, [], ◌∷◌, ◌++◌, Option,
  none, some, arith, if◌then◌else◌, Bool-cases, append-nil, append_assoc,
}
use vcos.Base.Text.{Text, runes, is_empty, trim_space, has_prefix, join}
use vcos.Engine.Patterns.{python_traceback_start, java_exception_start, diff_git_start, patch_file}
use vcos.Engine.GenericParser.{
  ParserEvent, log, step_update, error, file_diff, GenericParser, start_error_buffer,
  flush_buffered_error, set_diff_path, titled, capture_patch, capture_git, capture_diff_metadata,
  append_diff_line, start_diff_buffer, is_diff_start, flush_buffered_diff, no_step,
  detect_step_update, plain, ends_patch, diff_line, parse_fresh,
}

-- The lines that an event carries, whole or trimmed.
pub data Carries : ParserEvent → List Text → Type 0 where
  whole_line : {id line stream : Text} → Carries (log id line stream) (line ∷ [])
  trimmed_line :
      {id status target tool command : Text} {line : Text}
      → Carries (step_update id (trim_space line) status target tool command) (line ∷ [])
  stack_lines :
      {id message : Text} {lines : List Text}
      → Carries (error id message (join lines (runes "\n"))) lines
  diff_lines :
      {id path title lang : Text} {lines : List Text}
      → Carries (file_diff id path title (join lines (runes "\n")) lang) lines

-- The events carry these lines, each one once and in order.
pub data Accounts : List ParserEvent → List Text → Type 0 where
  nothing : Accounts [] []
  next :
      {e : ParserEvent} {lines : List Text} {es : List ParserEvent} {rest : List Text}
      → Carries e lines
      → Accounts es rest
      → Accounts (e ∷ es) (lines ++ rest)

pub Accounts-append :
    (es fs : List ParserEvent) {xs ys : List Text}
    → Accounts es xs
    → Accounts fs ys
    → Accounts (es ++ fs) (xs ++ ys)
Accounts-append es fs nothing b = b
Accounts-append es fs (next {lines = lines} {es = es'} {rest = rest} c a) b =
    rw (append_assoc lines rest _) (next c (Accounts-append es' fs a b))

abbrev pub held : Bool → List Text → List Text
held true lines = lines
held false lines = []

-- The lines that the parser still buffers.
abbrev pub pending : GenericParser → List Text
pending p = held p.buffering p.buffer ++ held p.diffing p.diff_buffer

-- It buffers a stack trace or a diff, or nothing.
abbrev pub OneBuffer : GenericParser → Type 0
OneBuffer p = p.buffering ≡ true → p.diffing ≡ false

-- Of the lines given, some are in the events, and the parser holds the others.
pub record Took (given : List Text) (r : List ParserEvent × GenericParser) : Type 0 where
  pub done : List Text
  pub one : OneBuffer r.1
  pub accounts : Accounts r.0 done
  pub split : given ≡ done ++ pending r.1

-- What append_diff_line leaves as it was.
pub record SameBuffers (p q : GenericParser) : Type 0 where
  pub buffer : q.buffer ≡ p.buffer
  pub buffering : q.buffering ≡ p.buffering
  pub diff_buffer : q.diff_buffer ≡ p.diff_buffer
  pub diffing : q.diffing ≡ p.diffing

set_diff_path-SameBuffers : (path : Text) (p : GenericParser) → SameBuffers p (set_diff_path path p)
unfolding set_diff_path
set_diff_path-SameBuffers path p = record {
  buffer = ground arith;
  buffering = ground arith;
  diff_buffer = ground arith;
  diffing = ground arith;
}

same_if :
    {p q r : GenericParser} (b : Bool)
    → SameBuffers p q
    → SameBuffers p r
    → SameBuffers p (if b then q else r)
same_if true hq hr = hq
same_if false hq hr = hr

untouched : {p : GenericParser} → SameBuffers p p
untouched = record { buffer = refl; buffering = refl; diff_buffer = refl; diffing = refl }

retitled :
    {p : GenericParser} (title : Text) (q : GenericParser)
    → SameBuffers p q
    → SameBuffers p (titled title q)
retitled title q h = record {
  buffer = h.buffer;
  buffering = h.buffering;
  diff_buffer = h.diff_buffer;
  diffing = h.diffing;
}

capture_patch-SameBuffers :
    (line : Text) (found : Option (Text × Text)) (p : GenericParser)
    → SameBuffers p (capture_patch line found p)
capture_patch-SameBuffers line none p =
    same_if (has_prefix line (runes "+++ b/")) (set_diff_path-SameBuffers _ p) (
      same_if (has_prefix line (runes "--- a/") && is_empty p.diff_path)
        (set_diff_path-SameBuffers _ p) untouched)
capture_patch-SameBuffers line (some (action, name)) p =
    retitled _ (set_diff_path (trim_space name) p) (set_diff_path-SameBuffers (trim_space name) p)

capture_git-SameBuffers :
    (line : Text) (found : Option Text) (p : GenericParser)
    → SameBuffers p (capture_git line found p)
capture_git-SameBuffers line none p = capture_patch-SameBuffers line (patch_file line) p
capture_git-SameBuffers line (some name) p =
    retitled _ (set_diff_path name p) (set_diff_path-SameBuffers name p)

pub append_diff_line-SameBuffers :
    (line : Text) (p : GenericParser)
    → SameBuffers (record p { diff_buffer = p.diff_buffer ++ line ∷ [] }) (append_diff_line line p)
unfolding append_diff_line capture_diff_metadata
append_diff_line-SameBuffers line p =
    capture_git-SameBuffers line (diff_git_start line)
      (record p { diff_buffer = p.diff_buffer ++ line ∷ [] })

pub one_event : {e : ParserEvent} {lines : List Text} → Carries e lines → Accounts (e ∷ []) lines
one_event {e} {lines} c = subst (Accounts (e ∷ [])) (append-nil lines) (next c nothing)

Took-if :
    {given : List Text} {q r : List ParserEvent × GenericParser} (b : Bool)
    → Took given q
    → Took given r
    → Took given (if b then q else r)
Took-if true hq hr = hq
Took-if false hq hr = hr

flush_buffered_diff-Took :
    (id : Text) (p : GenericParser)
    → p.buffering ≡ false
    → Took p.diff_buffer (flush_buffered_diff id p)
unfolding flush_buffered_diff
flush_buffered_diff-Took id p quiet = record {
  done = p.diff_buffer;
  one = λ e. refl;
  accounts = one_event diff_lines;
  split = rw quiet (sym (append-nil p.diff_buffer));
}

flush_buffered_error-Took :
    (id : Text) (p : GenericParser) → p.diffing ≡ false → Took p.buffer (flush_buffered_error id p)
unfolding flush_buffered_error
flush_buffered_error-Took id p still = record {
  done = p.buffer;
  one = λ e. still;
  accounts = one_event stack_lines;
  split = rw still (sym (append-nil p.buffer));
}

-- A diff that takes a line holds it, or ends with it.
pub diff_line-Took :
    (unicode_lower : ℕ → ℕ) (line id : Text) (p : GenericParser)
    → p.buffering ≡ false
    → p.diffing ≡ true
    → Took p.diff_buffer (diff_line unicode_lower line id p)
diff_line-Took unicode_lower line id p quiet on =
    Took-if (ends_patch unicode_lower line p) (flush_buffered_diff-Took id p quiet) (record {
      done = [];
      one = λ e. absurd (cc (e, quiet));
      accounts = nothing;
      split = rw (quiet, on) refl;
    })

plain-Carries :
    (unicode_lower : ℕ → ℕ) (line id stream : Text)
    → Carries (plain unicode_lower line id stream (detect_step_update line)) (line ∷ [])
unfolding detect_step_update
plain-Carries unicode_lower line id stream = elim (Bool-cases (no_step (trim_space line))) [
  | inl other ↦ rw (other, if◌then◌else◌) whole_line
  | inr step ↦ rw (step, if◌then◌else◌) trimmed_line
]

started-Took :
    (kind line : Text) (p : GenericParser)
    → p.diffing ≡ false
    → Took (line ∷ []) ([], start_error_buffer kind line p)
unfolding start_error_buffer
started-Took kind line p still = record {
  done = [];
  one = λ e. still;
  accounts = nothing;
  split = rw still refl;
}

pub parse_fresh-Took :
    (unicode_lower : ℕ → ℕ) (line id stream : Text) (p : GenericParser)
    → p.buffering ≡ false
    → p.diffing ≡ false
    → Took (line ∷ []) (parse_fresh unicode_lower line id stream p)
unfolding parse_fresh start_diff_buffer
parse_fresh-Took unicode_lower line id stream p quiet still =
    let same = append_diff_line-SameBuffers line (record p {
      diffing = true;
      diff_buffer = [];
      diff_path = [];
      diff_title = [];
      diff_lang = [];
      patch_style = has_prefix line (runes "*** ");
    }) in
    Took-if (python_traceback_start line) (started-Took (runes "python") line p still) (
      Took-if (java_exception_start line) (started-Took (runes "java") line p still) (
        Took-if (is_diff_start line)
          (subst (λ g. Took g (diff_line unicode_lower line id (start_diff_buffer line p)))
            same.diff_buffer
            (diff_line-Took unicode_lower line id (start_diff_buffer line p)
              (same.buffering ∙ quiet) same.diffing))
          (record {
            done = line ∷ [];
            one = λ e. still;
            accounts = one_event (plain-Carries unicode_lower line id stream);
            split = rw (quiet, still) refl;
          })))
