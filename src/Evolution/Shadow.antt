-- ===== src/Evolution/Shadow.antt =====
-- evolution/shadow/shadow.go: which commands the capabilities of a shadow workspace allow.
use mathlib.Core.Bool.{true≢false}
use vcos.Base.{
  ℕ, ◌≡◌, inl, inr, Bool, true, false, not, ◌&&◌, ◌||◌, List, [], ◌∷◌, ◌++◌, reverse, arith,
  if◌then◌else◌, Bool-cases, nat_eq, any, sym, subst, All, ◌⊎◌,
}
use vcos.Base.Text.{Text, runes, ◌==◌, is_empty, to_lower, contains, join}

pub data Capability : Type 0 where
  cap_read cap_write cap_build cap_test cap_lint cap_format cap_network cap_shell : Capability

abbrev capability_eq : Capability → Capability → Bool
capability_eq cap_read cap_read = true
capability_eq cap_write cap_write = true
capability_eq cap_build cap_build = true
capability_eq cap_test cap_test = true
capability_eq cap_lint cap_lint = true
capability_eq cap_format cap_format = true
capability_eq cap_network cap_network = true
capability_eq cap_shell cap_shell = true
capability_eq _ _ = false

-- The closure `has` of Allow.
pub has : List Capability → Capability → Bool
has caps c = any (λ x. capability_eq x c) caps

-- filepath.Base, with slashes: of the reversed path, what stands before the next slash.
abbrev last_part : Text → Text
last_part [] = []
last_part (c ∷ s) = let rest = last_part s in if nat_eq c b'/' then [] else c ∷ rest

abbrev no_slashes : Text → Text
no_slashes [] = []
no_slashes (c ∷ s) = let rest = no_slashes s in if nat_eq c b'/' then rest else c ∷ s

unfoldable pub base : Text → Text
base [] = runes "."
base (c ∷ s) =
    let part = reverse (last_part (no_slashes (reverse (c ∷ s)))) in
    if is_empty part then runes "/" else part

abbrev pub blocked_patterns : List Text
blocked_patterns =
    runes "rm "
    ∷ runes "sudo "
    ∷ runes "chmod 777"
    ∷ runes "> /dev/"
    ∷ runes "mkfs."
    ∷ runes "dd if="
    ∷ runes ":(){"
    ∷ runes "curl "
    ∷ runes "wget "
    ∷ []

abbrev pub one_of : Text → List Text → Bool
one_of cmd names = any (λ n. cmd == n) names

-- The classes of command names of the switch; the first that fits counts.
pub data Tool : Type 0 where
  go cargo node python rustc make reader git linter shell unknown : Tool

unfoldable pub tool_of : Text → Tool
tool_of cmd =
    if cmd == runes "go"
    then go
    else (if cmd == runes "cargo"
        then cargo
        else (if one_of cmd (runes "npm" ∷ runes "npx" ∷ runes "yarn" ∷ [])
            then node
            else (if one_of cmd (runes "python" ∷ runes "python3" ∷ runes "pytest" ∷ [])
                then python
                else (if cmd == runes "rustc"
                    then rustc
                    else (if one_of cmd (runes "make" ∷ runes "cmake" ∷ [])
                        then make
                        else (if one_of cmd (
                              runes "cat"
                              ∷ runes "ls"
                              ∷ runes "head"
                              ∷ runes "tail"
                              ∷ runes "wc"
                              ∷ [])
                            then reader
                            else (if cmd == runes "git"
                                then git
                                else (if one_of cmd (
                                      runes "gofmt"
                                      ∷ runes "golangci-lint"
                                      ∷ runes "eslint"
                                      ∷ runes "prettier"
                                      ∷ [])
                                    then linter
                                    else (if one_of cmd
                                          (runes "sh" ∷ runes "bash" ∷ runes "zsh" ∷ [])
                                        then shell
                                        else unknown)))))))))

-- The cases of the switch. Cargo without its capabilities falls to the default.
unfoldable pub tool_allowed : List Capability → Text → Tool → Bool
unfolding has
tool_allowed caps full go = has caps cap_build || has caps cap_test || has caps cap_lint
tool_allowed caps full cargo = has caps cap_build || has caps cap_test || has caps cap_read
tool_allowed caps full node = has caps cap_build || has caps cap_test || has caps cap_lint
tool_allowed caps full python = has caps cap_test
tool_allowed caps full rustc = has caps cap_build
tool_allowed caps full make = has caps cap_build
tool_allowed caps full reader = has caps cap_read
tool_allowed caps full git = not (contains full (runes "push")) && has caps cap_read
tool_allowed caps full linter = has caps cap_lint || has caps cap_format
tool_allowed caps full shell = has caps cap_shell
tool_allowed caps full unknown = has caps cap_read

-- Each capability of the first list is in the second.
abbrev pub Within : List Capability → List Capability → Type 0
Within caps more = (c : Capability) → has caps c ≡ true → has more c ≡ true

tool_allowed_mono :
    (caps more : List Capability) (full : Text) (t : Tool)
    → Within caps more
    → tool_allowed caps full t ≡ true
    → tool_allowed more full t ≡ true
unfolding tool_allowed
tool_allowed_mono caps more full go w h = ground (arith, w cap_build, w cap_test, w cap_lint)
tool_allowed_mono caps more full cargo w h = ground (arith, w cap_build, w cap_test, w cap_read)
tool_allowed_mono caps more full node w h = ground (arith, w cap_build, w cap_test, w cap_lint)
tool_allowed_mono caps more full python w h = w cap_test h
tool_allowed_mono caps more full rustc w h = w cap_build h
tool_allowed_mono caps more full make w h = w cap_build h
tool_allowed_mono caps more full reader w h = w cap_read h
tool_allowed_mono caps more full git w h = ground (arith, w cap_read)
tool_allowed_mono caps more full linter w h = ground (arith, w cap_lint, w cap_format)
tool_allowed_mono caps more full shell w h = w cap_shell h
tool_allowed_mono caps more full unknown w h = w cap_read h

quiet : {a b : Bool} → (not a && b) ≡ true → (b ≡ true) × (a ≡ false)
quiet h = ground arith

module _ (unicode_lower : ℕ → ℕ) where
  unfoldable pub full_command : Text → List Text → Text
  full_command command args =
      to_lower unicode_lower (command ++ (runes " " ++ join args (runes " ")))

  unfoldable pub allow : List Capability → Text → List Text → Bool
  unfolding full_command base tool_of tool_allowed
  allow caps command args =
      let cmd = to_lower unicode_lower (base command) in
      let full = full_command command args in
      if any (contains full) blocked_patterns then false else tool_allowed caps full (tool_of cmd)

  -- More capabilities allow more: what Allow permits under some capabilities it permits under all
  -- lists that have them.
  allow_mono :
      (caps more : List Capability) (command : Text) (args : List Text)
      → Within caps more
      → allow caps command args ≡ true
      → allow more command args ≡ true
  unfolding allow
  allow_mono caps more command args w h =
      let full = full_command command args in
      ground (
        arith,
        tool_allowed_mono caps more full (tool_of (to_lower unicode_lower (base command))) w,
      )

  missed :
      (full : Text) (ps : List Text)
      → any (contains full) ps ≡ false
      → All (λ p. contains full p ≡ false) ps
  missed full [] h = tt
  missed full (p ∷ ps) h = (ground arith, missed full ps (ground arith))

  -- What Allow permits, whatever the capabilities: the command and its arguments, joined by spaces
  -- and in lower case, have none of the nine dangerous patterns; and by the name of the command, in
  -- lower case and without its directory, sh, bash and zsh need the capability for shells, python,
  -- python3 and pytest that for tests, make, cmake and rustc that for builds, and git that for reads,
  -- and then "push" stands nowhere.
  pub allow_safe :
      (caps : List Capability) (command : Text) (args : List Text)
      → allow caps command args ≡ true
      → let cmd = to_lower unicode_lower (base command) in
        let full = to_lower unicode_lower (command ++ (runes " " ++ join args (runes " "))) in
        All
          (λ p. contains full p ≡ false)
          (runes "rm "
            ∷ runes "sudo "
            ∷ runes "chmod 777"
            ∷ runes "> /dev/"
            ∷ runes "mkfs."
            ∷ runes "dd if="
            ∷ runes ":(){"
            ∷ runes "curl "
            ∷ runes "wget "
            ∷ [])
        × ((cmd ≡ runes "sh") ⊎ (cmd ≡ runes "bash") ⊎ (cmd ≡ runes "zsh")
            → has caps cap_shell ≡ true)
        × ((cmd ≡ runes "python") ⊎ (cmd ≡ runes "python3") ⊎ (cmd ≡ runes "pytest")
            → has caps cap_test ≡ true)
        × ((cmd ≡ runes "make") ⊎ (cmd ≡ runes "cmake") ⊎ (cmd ≡ runes "rustc")
            → has caps cap_build ≡ true)
        × (cmd ≡ runes "git" → (has caps cap_read ≡ true) × (contains full (runes "push") ≡ false))
  unfolding allow full_command tool_allowed tool_of ◌==◌
  allow_safe caps command args h =
      let cmd = to_lower unicode_lower (base command) in
      let full = full_command command args in
      elim (Bool-cases (any (contains full) blocked_patterns)) [
        | inl hit ↦ elim (true≢false (sym (rw (hit, if◌then◌else◌) at h))) [ ]
        | inr miss ↦
            let allowed : tool_allowed caps full (tool_of cmd) ≡ true =
              rw (miss, if◌then◌else◌) at h in
            let at : (name : Text) → cmd ≡ name → tool_allowed caps full (tool_of name) ≡ true =
              λ name e. subst (λ c. tool_allowed caps full (tool_of c) ≡ true) e allowed in
            (
              missed full blocked_patterns miss,
              λ which. elim which [
                | inl e ↦ at (runes "sh") e
                | inr (inl e) ↦ at (runes "bash") e
                | inr (inr e) ↦ at (runes "zsh") e
              ],
              λ which. elim which [
                | inl e ↦ at (runes "python") e
                | inr (inl e) ↦ at (runes "python3") e
                | inr (inr e) ↦ at (runes "pytest") e
              ],
              λ which. elim which [
                | inl e ↦ at (runes "make") e
                | inr (inl e) ↦ at (runes "cmake") e
                | inr (inr e) ↦ at (runes "rustc") e
              ],
              λ e. quiet (at (runes "git") e),
            )
      ]
