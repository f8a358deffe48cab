-- ===== src/Evolution/Evolve/Checking.antt =====
-- What a proposal's report says (evolution/evolve/evolve.go).
use vcos.Base.{
  ℕ, ◌≡◌, ◌↔◌, ◌⊎◌, refl, ap, true, false, inl, inr, List, [], ◌∷◌, map, Option, none, some, arith,
  if◌then◌else◌, Bool-cases, All,
}
use vcos.Base.Text.{Text, runes, ◌==◌, to_lower, contains, join}
use vcos.Base.Int.{ℤ, pos, negsuc}
use vcos.Evolution.Shadow.{allow}
use vcos.Evolution.Evolve.{
  CheckType, check_build, check_test, check_lint, check_format, other_check, RunResult, Learning,
  command_of, capabilities, is_zero_code, extract_learnings, all_passed, run_command, run_check,
  evaluated,
}

module _ (unicode_lower : ℕ → ℕ) (exec : Text → List Text → RunResult) where
  -- The command of the check ends with code 0; a check of another name has none.
  abbrev pub Succeeds : CheckType → Type 0
  Succeeds check_build = (exec (runes "go") (runes "build" ∷ runes "./..." ∷ [])).exit_code ≡ pos 0
  Succeeds check_test = (exec (runes "go") (runes "test" ∷ runes "./..." ∷ [])).exit_code ≡ pos 0
  Succeeds check_lint = (exec (runes "go") (runes "vet" ∷ runes "./..." ∷ [])).exit_code ≡ pos 0
  Succeeds check_format = (exec (runes "gofmt") (runes "-l" ∷ runes "." ∷ [])).exit_code ≡ pos 0
  Succeeds (other_check name) = Unit

  abbrev Runs : Option (Text × List Text) → Type 0
  Runs none = Unit
  Runs (some (cmd, args)) =
      run_command unicode_lower exec capabilities cmd args ≡ some (exec cmd args)

  -- The capabilities of the evolver let each of its commands run.
  command_of-Runs : (ct : CheckType) → Runs (command_of ct)
  unfolding run_command allow contains to_lower join ◌==◌
  command_of-Runs check_build = refl
  command_of-Runs check_test = refl
  command_of-Runs check_lint = refl
  command_of-Runs check_format = refl
  command_of-Runs (other_check name) = tt

  is_zero_iff : (code : ℤ) → (is_zero_code code ≡ true) ↔ (code ≡ pos 0)
  is_zero_iff (pos n) = (λ h. ap pos (ground arith), λ h. ap is_zero_code h)
  is_zero_iff (negsuc n) = (λ h. cc, λ h. ap is_zero_code h)

  run_check-passed :
      (ct : CheckType) → ((run_check unicode_lower exec ct).passed ≡ true) ↔ Succeeds ct
  unfolding run_check
  run_check-passed check_build = rw (command_of-Runs check_build) (is_zero_iff _)
  run_check-passed check_test = rw (command_of-Runs check_test) (is_zero_iff _)
  run_check-passed check_lint = rw (command_of-Runs check_lint) (is_zero_iff _)
  run_check-passed check_format = rw (command_of-Runs check_format) (is_zero_iff _)
  run_check-passed (other_check name) = (λ h. tt, λ h. refl)

  all_passed_iff :
      (checks : List CheckType)
      → (all_passed (map (run_check unicode_lower exec) checks) ≡ true) ↔ All Succeeds checks
  all_passed_iff [] = (λ h. tt, λ h. refl)
  all_passed_iff (ct ∷ checks) =
      let (to, from) = run_check-passed ct in
      let (to', from') = all_passed_iff checks in
      elim (Bool-cases (run_check unicode_lower exec ct).passed) [
        | inl good ↦ rw good (λ h. (to good, to' h), λ h. from' h.1)
        | inr bad ↦ rw bad (λ h. absurd (cc h), λ h. absurd (cc (from h.0, bad)))
      ]

  -- A learning for each check, in order: that it passed, with confidence 0.9, where it succeeds, and
  -- that it failed, with 0.7, where it does not.
  abbrev pub Learned : List CheckType → List Learning → Type 0
  Learned [] [] = Unit
  Learned [] (l ∷ ls) = true ≡ false
  Learned (ct ∷ cts) [] = true ≡ false
  Learned (ct ∷ cts) (l ∷ ls) =
      (((l.outcome ≡ runes "passed") × (l.confidence ≡ 90) × Succeeds ct)
        ⊎ ((l.outcome ≡ runes "failed") × (l.confidence ≡ 70) × (Succeeds ct → true ≡ false)))
      × Learned cts ls

  learnings-Learned :
      (checks : List CheckType)
      → Learned checks (extract_learnings (map (run_check unicode_lower exec) checks))
  unfolding extract_learnings
  learnings-Learned [] = tt
  learnings-Learned (ct ∷ checks) =
      let (to, from) = run_check-passed ct in
      (
        elim (Bool-cases (run_check unicode_lower exec ct).passed) [
          | inl good ↦ inl (rw (good, if◌then◌else◌) (refl, refl, to good))
          | inr bad ↦ inr (rw (bad, if◌then◌else◌) (refl, refl, λ h. cc (from h, bad)))
        ],
        learnings-Learned checks,
      )

-- A report is right: a proposal that names checks passes exactly where the command of each of them
-- ends with code 0 (a check of an unknown name has none and counts as passed), one that names none
-- exactly where the commands of lint, build and test do; the whitelist of the shadow workspace blocks
-- none of these commands; and the learnings are one for each check, in order, with its outcome.
pub evaluated-passed :
    (unicode_lower : ℕ → ℕ) (exec : Text → List Text → RunResult) (title : Text)
    → ((check : CheckType) (checks : List CheckType)
        → let r = evaluated unicode_lower exec title (check ∷ checks) in
          ((r.passed ≡ true) ↔ All (Succeeds unicode_lower exec) (check ∷ checks))
          × Learned unicode_lower exec (check ∷ checks) r.learnings)
      × (let r = evaluated unicode_lower exec title [] in
          let checks = check_lint ∷ check_build ∷ check_test ∷ [] in
          ((r.passed ≡ true) ↔ All (Succeeds unicode_lower exec) checks)
          × Learned unicode_lower exec checks r.learnings)
unfolding evaluated
evaluated-passed unicode_lower exec title = (
  λ check checks. (
    all_passed_iff unicode_lower exec (check ∷ checks),
    learnings-Learned unicode_lower exec (check ∷ checks),
  ),
  (
    all_passed_iff unicode_lower exec (check_lint ∷ check_build ∷ check_test ∷ []),
    learnings-Learned unicode_lower exec (check_lint ∷ check_build ∷ check_test ∷ []),
  ),
)
