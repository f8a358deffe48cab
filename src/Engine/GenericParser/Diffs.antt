-- ===== src/Engine/GenericParser/Diffs.antt =====
-- How a diff ends (engine/generic_parser.go).
use vcos.Base.{ℕ, ◌≡◌, refl, true, false, [], ◌∷◌, ◌++◌, some, if◌then◌else◌}
use vcos.Base.Text.{Text, runes, ◌==◌, trim_space, has_prefix, contains}
use vcos.Engine.Patterns.{
  python_traceback_start, java_exception_start, diff_git_start, patch_file, diff_hunk, byte_length,
  step_line, step_done,
}
use vcos.Engine.GenericParser.{
  log, GenericParser, is_diff_start, should_continue_diff_buffer, flush_buffered_diff,
  detect_step_update, parse_fresh, parse_from, parse_line,
}
use vcos.Engine.GenericParser.Rounds.{parse_diff_lem, parse_still_lem}

-- What git prints under a last line that has no line end.
abbrev pub no_newline_marker : Text
no_newline_marker = runes "\\ No newline at end of file"

marker_stops :
    (p : GenericParser)
    → p.patch_style ≡ false
    → should_continue_diff_buffer no_newline_marker p ≡ false
unfolding should_continue_diff_buffer trim_space diff_git_start has_prefix patch_file diff_hunk
marker_stops p git = rw git refl

marker_fresh :
    (unicode_lower : ℕ → ℕ) (id stream : Text) (p : GenericParser)
    → parse_fresh unicode_lower no_newline_marker id stream p
      ≡ (log id no_newline_marker stream ∷ [], p)
unfolding parse_fresh python_traceback_start ◌==◌ java_exception_start has_prefix is_diff_start
    trim_space diff_git_start patch_file diff_hunk detect_step_update byte_length contains step_line
    step_done
marker_fresh unicode_lower id stream p = refl

marker_line :
    (unicode_lower : ℕ → ℕ) (id stream : Text) (p : GenericParser)
    → parse_line unicode_lower no_newline_marker id stream p
      ≡ parse_from unicode_lower 3 no_newline_marker id stream p
unfolding parse_line
marker_line unicode_lower id stream p = refl

-- Git's marker of a missing line end, which starts with one backslash, ends a diff: the parser
-- gives the diff out without it, and the marker as a log line.
marker_ends_diff :
    (unicode_lower : ℕ → ℕ) (id stream : Text) (p : GenericParser)
    → p.buffering ≡ false
    → p.diffing ≡ true
    → p.patch_style ≡ false
    → let (es, p') = flush_buffered_diff id p in
      parse_line unicode_lower no_newline_marker id stream p
      ≡ some (es ++ log id no_newline_marker stream ∷ [], p')
marker_ends_diff unicode_lower id stream p quiet on git =
    let q = (flush_buffered_diff id p).1 in
    rw
      (
        marker_line unicode_lower id stream p,
        parse_diff_lem unicode_lower no_newline_marker id stream 2 p quiet on,
        marker_stops p git,
        if◌then◌else◌,
        parse_still_lem unicode_lower no_newline_marker id stream 1 q
            (unfold flush_buffered_diff in quiet) (unfold flush_buffered_diff in refl),
        marker_fresh unicode_lower id stream q,
      )
      refl
