-- ===== src/Engine/GenericParser/Examples.antt =====
-- Runs of the parser, and its theorems at concrete outputs.
use vcos.Base.{◌≡◌, ℕ, suc, true, List, [], ◌∷◌, some, map}
use vcos.Base.Text.{Text, runes}
use vcos.Engine.GenericParser.{
  ParserEvent, GenericParser, new_generic_parser, trim_line, parse_from,
}
use vcos.Engine.GenericParser.Rounds.{parse_line_ends}
use vcos.Engine.GenericParser.Lines.{AllCarried, parse_all, parse_all-carries}

abbrev same_rune : ℕ → ℕ
same_rune c = c

abbrev traceback : List Text
traceback =
    runes "Reading src/app.py"
    ∷ runes "Traceback (most recent call last):"
    ∷ runes "  File \"app.py\", line 1"
    ∷ runes "KeyError: 'a'"
    ∷ runes "+++ b/x.go"
    ∷ runes "+1\r"
    ∷ []

abbrev in_diff : GenericParser
in_diff = record new_generic_parser {
  diffing = true;
  diff_buffer = runes "--- a/x.go" ∷ runes "+1" ∷ [];
  diff_path = runes "x.go";
}

abbrev in_trace : GenericParser
in_trace = record new_generic_parser {
  buffering = true;
  error_kind = runes "python";
  buffer = runes "Traceback (most recent call last):" ∷ [];
}

parse_line_ends_example :
    (r : List ParserEvent × GenericParser) × ((more : ℕ)
      → parse_from same_rune
          (suc (suc (suc more)))
          (runes "ok")
          (runes "s1")
          (runes "stdout")
          in_trace
        ≡ some r)
parse_line_ends_example =
    parse_line_ends same_rune (runes "ok") (runes "s1") (runes "stdout") in_trace

parse_all-carries_example :
    AllCarried
      (map trim_line traceback)
      (parse_all same_rune (runes "s1") (runes "stdout") traceback new_generic_parser)
parse_all-carries_example = parse_all-carries same_rune (runes "s1") (runes "stdout") traceback
