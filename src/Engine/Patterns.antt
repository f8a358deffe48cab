-- ===== src/Engine/Patterns.antt =====
-- engine/generic_parser.go: the regular expressions, each as the function that its pattern stands
-- for, with the group that the code reads. In Go `.` is any rune but a newline, `\s` one of five
-- ASCII spaces, `\b` an ASCII word boundary, and a match is the leftmost and the greedy one.
use vcos.Base.{
  ℕ, ◌+◌, Bool, true, false, not, ◌&&◌, ◌||◌, List, [], ◌∷◌, ◌++◌, Option, none, some,
  if◌then◌else◌, leb, ltb, nat_eq, length, any, drop, reverse,
}
use vcos.Base.Text.{Text, runes, ◌==◌, is_empty, has_prefix}

abbrev is_newline : ℕ → Bool
is_newline c = nat_eq c 10

-- `.+$`, and `.*$`
abbrev one_line : Text → Bool
one_line s = not (any is_newline s)

abbrev re_space : ℕ → Bool
re_space c = nat_eq c 9 || nat_eq c 10 || nat_eq c 12 || nat_eq c 13 || nat_eq c 32

abbrev skip_spaces : Text → Text
skip_spaces [] = []
skip_spaces (c ∷ s) = if re_space c then skip_spaces s else c ∷ s

abbrev letter : ℕ → Bool
letter c = (leb b'A' c && leb c b'Z') || (leb b'a' c && leb c b'z')

abbrev digit : ℕ → Bool
digit c = leb b'0' c && leb c b'9'

abbrev word_rune : ℕ → Bool
word_rune c = letter c || digit c || nat_eq c b'_'

abbrev all_runes : (ℕ → Bool) → Text → Bool
all_runes p s = not (any (λ c. not (p c)) s)

unfoldable pub python_traceback_start : Text → Bool
python_traceback_start s = s == runes "Traceback (most recent call last):"

unfoldable pub java_exception_start : Text → Bool
java_exception_start s = has_prefix s (runes "Exception in thread ")

abbrev starts_space : Text → Bool
starts_space [] = false
starts_space (c ∷ s) = re_space c

unfoldable pub java_stack_line : Text → Bool
java_stack_line [] = false
java_stack_line (c ∷ s) =
    let t = skip_spaces s in re_space c && has_prefix t (runes "at") && starts_space (drop 2 t)

unfoldable pub java_cause_line : Text → Bool
java_cause_line s = has_prefix s (runes "Caused by: ")

abbrev starts_dot : Text → Bool
starts_dot [] = false
starts_dot (c ∷ s) = not (is_newline c)

-- `[A-Za-z0-9_\.]*`, then the word, then `.+`
abbrev name_then : Text → Text → Bool
name_then word [] = false
name_then word (c ∷ s) =
    (has_prefix (c ∷ s) word && starts_dot (drop (length word) (c ∷ s)))
    || ((word_rune c || nat_eq c b'.') && name_then word s)

unfoldable pub python_exception_line : Text → Bool
python_exception_line [] = false
python_exception_line (c ∷ s) =
    (letter c || nat_eq c b'_')
    && (name_then (runes "Error: ") s || name_then (runes "Exception: ") s)

abbrev ends_word : Text → Bool
ends_word [] = true
ends_word (c ∷ s) = not (word_rune c)

-- A word at the start of a text, to its boundary, and no newline after it.
abbrev starts_word : Text → Text → Bool
starts_word s word =
    has_prefix s word && ends_word (drop (length word) s) && one_line (drop (length word) s)

-- `(?:[•*\-]\s*)?`
abbrev skip_bullet : Text → Text
skip_bullet [] = []
skip_bullet (c ∷ s) =
    if nat_eq c 0x2022 || nat_eq c b'*' || nat_eq c b'-' then skip_spaces s else c ∷ s

abbrev step_words : List Text
step_words =
    runes "Installing"
    ∷ runes "Reading"
    ∷ runes "Updating"
    ∷ runes "Creating"
    ∷ runes "Running"
    ∷ runes "Thinking"
    ∷ runes "Analyzing"
    ∷ runes "Writing"
    ∷ runes "Editing"
    ∷ runes "Checking"
    ∷ runes "Loading"
    ∷ runes "Searching"
    ∷ runes "Inspecting"
    ∷ runes "Planning"
    ∷ runes "Applying"
    ∷ runes "Resolving"
    ∷ runes "Building"
    ∷ runes "Compiling"
    ∷ runes "Testing"
    ∷ runes "Reviewing"
    ∷ runes "Opening"
    ∷ runes "Exploring"
    ∷ []

abbrev done_words : List Text
done_words = runes "Done" ∷ runes "Completed" ∷ runes "Finished" ∷ runes "Resolved" ∷ []

unfoldable pub step_line : Text → Bool
step_line s = any (starts_word (skip_bullet s)) step_words

unfoldable pub step_done : Text → Bool
step_done s = any (starts_word (skip_bullet s)) done_words

abbrev path_rune : ℕ → Bool
path_rune c = word_rune c || nat_eq c b'.' || nat_eq c b'/' || nat_eq c 92 || nat_eq c b'-'

abbrev suffix_rune : ℕ → Bool
suffix_rune c = word_rune c || nat_eq c b'+' || nat_eq c b'-'

-- The whole text is a path; `seen` tells whether a rune of it has been read.
abbrev path_from : Bool → Text → Bool
path_from seen [] = false
path_from seen (c ∷ s) =
    (seen && nat_eq c b'.' && not (is_empty s) && all_runes suffix_rune s)
    || (path_rune c && path_from true s)

-- The group of pathTailPattern, "" where it does not match.
unfoldable pub path_tail : Text → Text
path_tail [] = []
path_tail (c ∷ s) = if path_from false (c ∷ s) then c ∷ s else path_tail s

-- What stands after the last " b/" that has something before and after it.
abbrev after_last_b : Bool → Text → Option Text
after_last_b seen [] = none
after_last_b seen (c ∷ s) = elim (after_last_b true s) [
  | some t ↦ some t
  | none ↦
      if seen && has_prefix (c ∷ s) (runes " b/") && not (is_empty (drop 3 (c ∷ s)))
      then some (drop 3 (c ∷ s))
      else none
]

-- The second group of diffGitStartPattern.
unfoldable pub diff_git_start : Text → Option Text
diff_git_start s =
    if has_prefix s (runes "diff --git a/") && one_line s
    then after_last_b false (drop 13 s)
    else none

abbrev hunk_from : Bool → Text → Bool
hunk_from seen [] = false
hunk_from seen (c ∷ s) =
    (seen && has_prefix (c ∷ s) (runes " @@")) || (not (is_newline c) && hunk_from true s)

unfoldable pub diff_hunk : Text → Bool
diff_hunk s = has_prefix s (runes "@@ ") && hunk_from false (drop 3 s)

-- `\s+(.+)$` on spaces only: the greedy `\s+` gives the last of them back.
abbrev last_space : Text → Option Text
last_space [] = none
last_space (c ∷ []) = none
last_space (c ∷ d ∷ []) = if is_newline d then none else some (d ∷ [])
last_space (c ∷ d ∷ e ∷ s) = last_space (d ∷ e ∷ s)

abbrev file_name : Text → Option Text
file_name s =
    let r = skip_spaces s in
    if not (starts_space s)
    then none
    else if is_empty r
    then last_space s
    else if one_line r
    then some r
    else none

abbrev with_action : Text → Option Text → Option (Text × Text)
with_action action none = none
with_action action (some name) = some (action, name)

abbrev patch_action : Text → Text → Option (Text × Text) → Option (Text × Text)
patch_action s action other =
    let head = runes "*** " ++ action ++ runes " File:" in
    if has_prefix s head then with_action action (file_name (drop (length head) s)) else other

-- The groups of patchFilePattern.
unfoldable pub patch_file : Text → Option (Text × Text)
patch_file s =
    patch_action s (runes "Update")
      (patch_action s (runes "Add") (patch_action s (runes "Delete") none))

-- filepath.Ext, with the separator of Unix: the runes from the end, and those read.
abbrev ext_from : Text → Text → Text
ext_from seen [] = []
ext_from seen (c ∷ s) =
    if nat_eq c b'/' then [] else if nat_eq c b'.' then c ∷ seen else ext_from (c ∷ seen) s

unfoldable pub file_ext : Text → Text
file_ext path = ext_from [] (reverse path)

-- strings.TrimPrefix
unfoldable pub trim_prefix : Text → Text → Text
trim_prefix s p = if has_prefix s p then drop (length p) s else s

abbrev utf8_length : ℕ → ℕ
utf8_length c = if ltb c 0x80 then 1 else if ltb c 0x800 then 2 else if ltb c 0x10000 then 3 else 4

-- len of a string
unfoldable pub byte_length : Text → ℕ
byte_length [] = 0
byte_length (c ∷ s) = utf8_length c + byte_length s
