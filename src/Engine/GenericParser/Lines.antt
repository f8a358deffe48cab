-- ===== src/Engine/GenericParser/Lines.antt =====
-- Where the lines of a command's output go (engine/generic_parser.go).
use vcos.Base.{
  ℕ, ◌≡◌, refl, sym, ap, ◌∙◌, subst, true, false, inl, inr, List, [], ◌∷◌, ◌++◌, map, Option, none,
  some, if◌then◌else◌, Bool-cases, append-nil, append_assoc,
}
use vcos.Base.Text.{Text}
use vcos.Engine.GenericParser.{
  ParserEvent, GenericParser, new_generic_parser, flush_buffered_error, flush_buffered_diff, flush,
  with_events, trim_line, parse_line,
}
use vcos.Engine.GenericParser.Carrying.{
  stack_lines, diff_lines, Accounts, nothing, Accounts-append, pending, OneBuffer, one_event,
}
use vcos.Engine.GenericParser.Rounds.{
  pending_error, pending_diff, pending_none, parse-Returned, Returned,
}

abbrev and_then :
    (GenericParser → Option (List ParserEvent × GenericParser))
    → Option (List ParserEvent × GenericParser)
    → Option (List ParserEvent × GenericParser)
and_then rest none = none
and_then rest (some (es, p)) = with_events es (rest p)

-- A command's output: ParseLine on each line, then Flush.
abbrev pub parse_all :
    (ℕ → ℕ) → Text → Text → List Text → GenericParser → Option (List ParserEvent × GenericParser)
parse_all unicode_lower id stream [] p = some (flush id p)
parse_all unicode_lower id stream (line ∷ lines) p =
    and_then (parse_all unicode_lower id stream lines) (parse_line unicode_lower line id stream p)

flush_error :
    (id : Text) (p : GenericParser)
    → p.buffering ≡ true
    → p.diffing ≡ false
    → flush id p ≡ flush_buffered_error id p
unfolding flush
flush_error id p loud still = rw (loud, still, if◌then◌else◌) refl

flush_diff :
    (id : Text) (p : GenericParser)
    → p.buffering ≡ false
    → p.diffing ≡ true
    → flush id p ≡ flush_buffered_diff id p
unfolding flush
flush_diff id p quiet on = rw (quiet, on, if◌then◌else◌) refl

flush_none :
    (id : Text) (p : GenericParser) → p.buffering ≡ false → p.diffing ≡ false → flush id p ≡ ([], p)
unfolding flush
flush_none id p quiet still = rw (quiet, still, if◌then◌else◌) refl

flush-Accounts : (id : Text) (p : GenericParser) → OneBuffer p → Accounts (flush id p).0 (pending p)
unfolding flush_buffered_error flush_buffered_diff
flush-Accounts id p one = elim (Bool-cases p.buffering) [
  | inl loud ↦
      let still = one loud in
      accounts_by (pending_error p loud still) (flush_error id p loud still) (one_event stack_lines)
  | inr quiet ↦ elim (Bool-cases p.diffing) [
    | inl on ↦
        accounts_by (pending_diff p quiet on) (flush_diff id p quiet on) (one_event diff_lines)
    | inr still ↦ accounts_by (pending_none p quiet still) (flush_none id p quiet still) nothing
  ]
]
  where
    accounts_by :
        {lines given : List Text} {q r : List ParserEvent × GenericParser}
        → lines ≡ given
        → r ≡ q
        → Accounts q.0 given
        → Accounts r.0 lines
    accounts_by {lines} {given} {q} {r} e f h =
        subst (Accounts r.0) (sym e) (subst (λ x. Accounts x.0 given) (sym f) h)

parse_line-Returned :
    (unicode_lower : ℕ → ℕ) (line id stream : Text) (p : GenericParser)
    → OneBuffer p
    → Returned (pending p ++ trim_line line ∷ []) (parse_line unicode_lower line id stream p)
unfolding parse_line
parse_line-Returned unicode_lower line id stream p one =
    parse-Returned unicode_lower (trim_line line) id stream 1 p one

-- A run returns events that account for all lines.
pub record AllCarried (lines : List Text) (r : Option (List ParserEvent × GenericParser))
    : Type 0 where
  pub result : List ParserEvent × GenericParser
  pub returned : r ≡ some result
  pub accounts : Accounts result.0 lines

parse_all-AllCarried :
    (unicode_lower : ℕ → ℕ) (id stream : Text) (lines : List Text) (p : GenericParser)
    → OneBuffer p
    → AllCarried (pending p ++ map trim_line lines) (parse_all unicode_lower id stream lines p)
parse_all-AllCarried unicode_lower id stream [] p one = record {
  result = flush id p;
  returned = refl;
  accounts =
      subst (Accounts (flush id p).0) (sym (append-nil (pending p))) (flush-Accounts id p one);
}
parse_all-AllCarried unicode_lower id stream (line ∷ lines) p one =
    let h = parse_line-Returned unicode_lower line id stream p one in
    let (es, q) = h.result in
    let t = h.took in
    let rest = parse_all-AllCarried unicode_lower id stream lines q t.one in
    let e : t.done ++ (pending q ++ map trim_line lines)
        ≡ pending p ++ map trim_line (line ∷ lines) =
      sym (append_assoc t.done (pending q) (map trim_line lines))
      ∙ ap (λ l. l ++ map trim_line lines) (sym t.split)
      ∙ append_assoc (pending p) (trim_line line ∷ []) (map trim_line lines) in
    record {
      result = (es ++ rest.result.0, rest.result.1);
      returned = rw (h.returned, rest.returned) refl;
      accounts =
          subst (Accounts (es ++ rest.result.0)) e
            (Accounts-append es rest.result.0 t.accounts rest.accounts);
    }

-- No line is lost: of any output, parsed line by line and flushed, the run returns, and its events
-- carry all the lines without their line ends, each one once and in order: a log its line, a step
-- its line trimmed, an error and a diff the lines that they join.
pub parse_all-carries :
    (unicode_lower : ℕ → ℕ) (id stream : Text) (lines : List Text)
    → AllCarried (map trim_line lines) (parse_all unicode_lower id stream lines new_generic_parser)
parse_all-carries unicode_lower id stream lines =
    parse_all-AllCarried unicode_lower id stream lines new_generic_parser (λ e. refl)
