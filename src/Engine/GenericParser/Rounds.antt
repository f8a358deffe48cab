-- ===== src/Engine/GenericParser/Rounds.antt =====
-- The rounds of parseLine (engine/generic_parser.go).
use vcos.Base.{
  ℕ, suc, ◌≡◌, refl, sym, ap, ◌∙◌, subst, true, false, inl, inr, List, [], ◌∷◌, ◌++◌, Option, some,
  if◌then◌else◌, Bool-cases, append-nil, append_assoc,
}
use vcos.Base.Text.{Text, is_empty}
use vcos.Engine.GenericParser.{
  ParserEvent, GenericParser, should_continue_error_buffer, flush_buffered_error, append_diff_line,
  should_continue_diff_buffer, flush_buffered_diff, with_events, diff_line, parse_fresh, parse_from,
}
use vcos.Engine.GenericParser.Carrying.{
  stack_lines, diff_lines, Accounts, nothing, Accounts-append, pending, OneBuffer, Took,
  append_diff_line-SameBuffers, one_event, diff_line-Took, parse_fresh-Took,
}

pub pending_error :
    (p : GenericParser) → p.buffering ≡ true → p.diffing ≡ false → pending p ≡ p.buffer
pending_error p loud still = rw (loud, still) (append-nil p.buffer)

pub pending_diff :
    (p : GenericParser) → p.buffering ≡ false → p.diffing ≡ true → pending p ≡ p.diff_buffer
pending_diff p quiet on = rw (quiet, on) refl

pub pending_none : (p : GenericParser) → p.buffering ≡ false → p.diffing ≡ false → pending p ≡ []
pending_none p quiet still = rw (quiet, still) refl

-- A call returns, and accounts for what it was given.
pub record Returned (given : List Text) (r : Option (List ParserEvent × GenericParser))
    : Type 0 where
  pub result : List ParserEvent × GenericParser
  pub returned : r ≡ some result
  pub took : Took given result

-- First some events of a flush, then those of the rest.
then-Returned :
    {given lines : List Text} (es : List ParserEvent)
    {r : Option (List ParserEvent × GenericParser)}
    → Accounts es given
    → Returned lines r
    → Returned (given ++ lines) (with_events es r)
then-Returned {given} {lines} es {r} a h = record {
  result = (es ++ h.result.0, h.result.1);
  returned = rw h.returned refl;
  took = record {
    done = given ++ h.took.done;
    one = h.took.one;
    accounts = Accounts-append es h.result.0 a h.took.accounts;
    split =
        ap (λ l. given ++ l) h.took.split
        ∙ sym (append_assoc given h.took.done (pending h.result.1));
  };
}

module _ (unicode_lower : ℕ → ℕ) (line id stream : Text) where
  pub parse_still_lem :
      (fuel : ℕ) (p : GenericParser)
      → p.buffering ≡ false
      → p.diffing ≡ false
      → parse_from unicode_lower (suc fuel) line id stream p
        ≡ some (parse_fresh unicode_lower line id stream p)
  unfolding parse_from
  parse_still_lem fuel p quiet still = rw (quiet, still, if◌then◌else◌) refl

  parse_still-Returned :
      (fuel : ℕ) (p : GenericParser)
      → p.buffering ≡ false
      → p.diffing ≡ false
      → Returned (line ∷ []) (parse_from unicode_lower (suc fuel) line id stream p)
  parse_still-Returned fuel p quiet still = record {
    result = parse_fresh unicode_lower line id stream p;
    returned = parse_still_lem fuel p quiet still;
    took = parse_fresh-Took unicode_lower line id stream p quiet still;
  }

  pub parse_diff_lem :
      (fuel : ℕ) (p : GenericParser)
      → p.buffering ≡ false
      → p.diffing ≡ true
      → parse_from unicode_lower (suc fuel) line id stream p ≡ (
          if should_continue_diff_buffer line p
          then some (diff_line unicode_lower line id (append_diff_line line p))
          else with_events
              (flush_buffered_diff id p).0
              (parse_from unicode_lower fuel line id stream (flush_buffered_diff id p).1))
  unfolding parse_from should_continue_diff_buffer
  parse_diff_lem fuel p quiet on = elim (Bool-cases (is_empty line)) [
    | inl blank ↦ rw (quiet, on, blank, if◌then◌else◌) refl
    | inr full ↦ rw (quiet, on, full, if◌then◌else◌) refl
  ]

  parse_error_lem :
      (fuel : ℕ) (p : GenericParser)
      → p.buffering ≡ true
      → parse_from unicode_lower (suc fuel) line id stream p ≡ (
          if should_continue_error_buffer line p
          then some ([], record p { buffer = p.buffer ++ line ∷ [] })
          else with_events
              (flush_buffered_error id p).0
              (parse_from unicode_lower fuel line id stream (flush_buffered_error id p).1))
  unfolding parse_from should_continue_error_buffer
  parse_error_lem fuel p loud = elim (Bool-cases (is_empty line)) [
    | inl blank ↦ rw (loud, blank, if◌then◌else◌) refl
    | inr full ↦ rw (loud, full, if◌then◌else◌) refl
  ]

  parse_diff-Returned :
      (fuel : ℕ) (p : GenericParser)
      → p.buffering ≡ false
      → p.diffing ≡ true
      → Returned
          (p.diff_buffer ++ line ∷ [])
          (parse_from unicode_lower (suc (suc fuel)) line id stream p)
  parse_diff-Returned fuel p quiet on =
      rw (parse_diff_lem (suc fuel) p quiet on)
        (elim (Bool-cases (should_continue_diff_buffer line p)) [
          | inl goes ↦
              let q = append_diff_line line p in
              let same = append_diff_line-SameBuffers line p in
              rw (goes, if◌then◌else◌)
                (record {
                  result = diff_line unicode_lower line id q;
                  returned = refl;
                  took =
                      subst (λ g. Took g (diff_line unicode_lower line id q)) same.diff_buffer
                        (diff_line-Took unicode_lower line id q (same.buffering ∙ quiet)
                          (same.diffing ∙ on));
                })
          | inr ends ↦
              let flushed = (flush_buffered_diff id p).1 in
              rw (ends, if◌then◌else◌)
                (then-Returned {given = p.diff_buffer} {lines = line ∷ []}
                  (flush_buffered_diff id p).0
                  (unfold flush_buffered_diff in (one_event diff_lines))
                  (parse_still-Returned fuel flushed (unfold flush_buffered_diff in quiet)
                    (unfold flush_buffered_diff in refl)))
        ])

  parse_error-Returned :
      (fuel : ℕ) (p : GenericParser)
      → p.buffering ≡ true
      → p.diffing ≡ false
      → Returned
          (p.buffer ++ line ∷ [])
          (parse_from unicode_lower (suc (suc fuel)) line id stream p)
  parse_error-Returned fuel p loud still =
      rw (parse_error_lem (suc fuel) p loud)
        (elim (Bool-cases (should_continue_error_buffer line p)) [
          | inl goes ↦
              rw (goes, if◌then◌else◌)
                (record {
                  result = ([], record p { buffer = p.buffer ++ line ∷ [] });
                  returned = refl;
                  took = record {
                    done = [];
                    one = λ e. still;
                    accounts = nothing;
                    split = rw (loud, still) (sym (append-nil (p.buffer ++ line ∷ [])));
                  };
                })
          | inr ends ↦
              let flushed = (flush_buffered_error id p).1 in
              rw (ends, if◌then◌else◌)
                (then-Returned {given = p.buffer} {lines = line ∷ []} (flush_buffered_error id p).0
                  (unfold flush_buffered_error in (one_event stack_lines))
                  (parse_still-Returned fuel flushed (unfold flush_buffered_error in refl)
                    (unfold flush_buffered_error in still)))
        ])

  pub parse-Returned :
      (fuel : ℕ) (p : GenericParser)
      → OneBuffer p
      → Returned
          (pending p ++ line ∷ [])
          (parse_from unicode_lower (suc (suc fuel)) line id stream p)
  parse-Returned fuel p one = elim (Bool-cases p.buffering) [
    | inl loud ↦
        holding (pending_error p loud (one loud)) (parse_error-Returned fuel p loud (one loud))
    | inr quiet ↦ elim (Bool-cases p.diffing) [
      | inl on ↦ holding (pending_diff p quiet on) (parse_diff-Returned fuel p quiet on)
      | inr still ↦
          holding (pending_none p quiet still) (parse_still-Returned (suc fuel) p quiet still)
    ]
  ]
    where
      holding :
          {lines : List Text}
          → pending p ≡ lines
          → Returned
              (lines ++ line ∷ [])
              (parse_from unicode_lower (suc (suc fuel)) line id stream p)
          → Returned
              (pending p ++ line ∷ [])
              (parse_from unicode_lower (suc (suc fuel)) line id stream p)
      holding e h =
          subst
            (λ g.
              Returned (g ++ line ∷ [])
                (parse_from unicode_lower (suc (suc fuel)) line id stream p))
            (sym e) h

  -- So many rounds are enough, and more make no difference.
  abbrev Ends : (ℕ → ℕ) → GenericParser → Type 0
  Ends rounds p =
      (r : List ParserEvent × GenericParser) × ((more : ℕ)
        → parse_from unicode_lower (rounds more) line id stream p ≡ some r)

  Ends-still : (p : GenericParser) → p.buffering ≡ false → p.diffing ≡ false → Ends (λ n. suc n) p
  unfolding parse_still-Returned
  Ends-still p quiet still = (
    (parse_still-Returned 0 p quiet still).result,
    λ more. (parse_still-Returned more p quiet still).returned,
  )

  Ends-quiet : (p : GenericParser) → p.buffering ≡ false → Ends (λ n. suc (suc n)) p
  Ends-quiet p quiet = elim (Bool-cases p.diffing) [
    | inl on ↦
        let q = (flush_buffered_diff id p).1 in
        let (r, h) =
          Ends-still q (unfold flush_buffered_diff in quiet) (unfold flush_buffered_diff in refl) in
        elim (Bool-cases (should_continue_diff_buffer line p)) [
          | inl goes ↦ (
            diff_line unicode_lower line id (append_diff_line line p),
            λ more. rw (parse_diff_lem (suc more) p quiet on, goes, if◌then◌else◌) refl,
          )
          | inr ends ↦ (
            ((flush_buffered_diff id p).0 ++ r.0, r.1),
            λ more. rw (parse_diff_lem (suc more) p quiet on, ends, if◌then◌else◌, h more) refl,
          )
        ]
    | inr still ↦ let (r, h) = Ends-still p quiet still in (r, λ more. h (suc more))
  ]

  Ends-any : (p : GenericParser) → Ends (λ n. suc (suc (suc n))) p
  Ends-any p = elim (Bool-cases p.buffering) [
    | inl loud ↦
        let q = (flush_buffered_error id p).1 in
        let (r, h) = Ends-quiet q (unfold flush_buffered_error in refl) in
        elim (Bool-cases (should_continue_error_buffer line p)) [
          | inl goes ↦ (
            ([], record p { buffer = p.buffer ++ line ∷ [] }),
            λ more. rw (parse_error_lem (suc (suc more)) p loud, goes, if◌then◌else◌) refl,
          )
          | inr ends ↦ (
            ((flush_buffered_error id p).0 ++ r.0, r.1),
            λ more. rw (parse_error_lem (suc (suc more)) p loud, ends, if◌then◌else◌, h more) refl,
          )
        ]
    | inr quiet ↦ let (r, h) = Ends-quiet p quiet in (r, λ more. h (suc more))
  ]

-- parseLine returns in whatever state the parser is: it calls itself at most twice, and a larger
-- bound on the rounds gives the same.
pub parse_line_ends :
    (unicode_lower : ℕ → ℕ) (line id stream : Text) (p : GenericParser)
    → (r : List ParserEvent × GenericParser) × ((more : ℕ)
        → parse_from unicode_lower (suc (suc (suc more))) line id stream p ≡ some r)
parse_line_ends unicode_lower line id stream p = Ends-any unicode_lower line id stream p
