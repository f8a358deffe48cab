-- ===== src/Memory/Chunker.antt =====
-- memory/semantic/chunker.go: the chunks of a source file, cut at blank lines and at a number of
-- lines. The content is given as its lines, of which strings.Split makes at least one.
pub mod Bounds
use vcos.Base.{
  ℕ, zero, suc, ◌+◌, ◌-◌, Bool, true, false, not, ◌&&◌, ◌||◌, List, [], ◌∷◌, ◌++◌, if◌then◌else◌,
  leb, length, nat_eq,
}
use vcos.Base.Text.{Text, runes, is_empty, trim_space, has_suffix, join}
use vcos.Base.Int.{ℤ, positive_or}

pub record Chunk : Type 0 where
  pub path : Text
  pub start : ℕ
  pub end : ℕ
  pub symbol : Text
  pub kind : Text
  pub lang : Text
  pub text : Text

pub infer_lang : Text → Text
infer_lang path =
    if has_suffix path (runes ".go")
    then runes "go"
    else if has_suffix path (runes ".ts") || has_suffix path (runes ".tsx")
    then runes "ts"
    else if has_suffix path (runes ".js") || has_suffix path (runes ".jsx")
    then runes "js"
    else if has_suffix path (runes ".py")
    then runes "py"
    else if has_suffix path (runes ".rs")
    then runes "rust"
    else if has_suffix path (runes ".java")
    then runes "java"
    else if has_suffix path (runes ".c")
        || has_suffix path (runes ".h")
        || has_suffix path (runes ".cc")
        || has_suffix path (runes ".cpp")
        || has_suffix path (runes ".hpp")
    then runes "c"
    else []

-- strings.Split(content, "\n"): the line so far, and the rest of the text.
abbrev split_from : Text → Text → List Text
split_from line [] = line ∷ []
split_from line (c ∷ s) =
    let longer = split_from (line ++ c ∷ []) s in
    let next = split_from [] s in if nat_eq c 10 then line ∷ next else longer

unfoldable pub split_lines : Text → List Text
split_lines content = split_from [] content

-- The variables of the loop of Chunk.
pub record State : Type 0 where
  pub chunks : List Chunk
  pub buf : List Text
  pub start : ℕ

module _ (path lang : Text) where
  abbrev pub flush : ℕ → State → State
  flush end s = elim s.buf [
    | [] ↦ s
    | _ ↦ record s {
      chunks =
          s.chunks
          ++ record {
            path = path;
            start = s.start;
            end = end;
            symbol = [];
            kind = [];
            lang = lang;
            text = join s.buf (runes "\n");
          }
            ∷ [];
      buf = [];
    }
  ]

  -- `if len(buf) == 0 { start = ln }`, and the append.
  abbrev pub take_line : ℕ → Text → State → State
  take_line ln line s = elim s.buf [
    | [] ↦ record s { buf = line ∷ []; start = ln }
    | _ ↦ record s { buf = s.buf ++ line ∷ [] }
  ]

  abbrev blank : Text → List Text → Bool
  blank line [] = false
  blank line (l ∷ buf) = is_empty (trim_space line)

  -- The body of the loop, at the line of this number.
  abbrev pub chunk_line : ℕ → ℕ → Text → State → State
  chunk_line max_lines ln line s =
      if blank line s.buf
      then record (flush (ln - 1) s) { start = ln + 1 }
      else if leb max_lines (length s.buf)
      then take_line ln line (record (flush (ln - 1) s) { start = ln })
      else take_line ln line s

  abbrev pub chunk_lines : ℕ → ℕ → List Text → State → State
  chunk_lines max_lines ln [] s = s
  chunk_lines max_lines ln (line ∷ lines) s =
      chunk_lines max_lines (suc ln) lines (chunk_line max_lines ln line s)

-- 60 lines
abbrev pub default_max_lines : ℕ
default_max_lines = 60

-- Chunk
unfoldable pub chunk : ℤ → Text → Text → List Chunk
unfolding infer_lang split_lines
chunk max_lines path content =
    let lang = infer_lang path in
    let lines = split_lines content in
    let s =
      chunk_lines path lang (positive_or max_lines default_max_lines) 1 lines
        (record { chunks = []; buf = []; start = 1 }) in
    (flush path lang (length lines) s).chunks
