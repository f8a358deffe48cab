-- ===== src/Session/Permission/Prompts.antt =====
-- session/permission_rules.go: which prompts and interactions ask for a permission.
use vcos.Base.{ℕ, Bool, false, not, ◌&&◌, ◌||◌, List, [], ◌∷◌, any}
use vcos.Base.Text.{Text, runes, ◌==◌, is_empty, trim_space, to_lower, contains}
use vcos.Session.{PromptRequestEvent, InteractionAction, InteractionRequestEvent}
use vcos.Session.Permission.{first_non_empty_string, generic_kind, classify_permission_kind}

module _ (unicode_lower : ℕ → ℕ) where
  abbrev pub asks_permission : Text → Bool
  asks_permission kind = not (is_empty kind) && not (kind == generic_kind)

  abbrev yes_no : List Text → Bool
  yes_no (first ∷ second ∷ more) =
      let a = to_lower unicode_lower (trim_space first) in
      let b = to_lower unicode_lower (trim_space second) in
      any (λ w. a == w) (runes "y" ∷ runes "yes" ∷ runes "approve" ∷ [])
      && any (λ w. b == w) (runes "n" ∷ runes "no" ∷ runes "deny" ∷ [])
  yes_no _ = false

  unfoldable pub looks_like_permission_prompt : PromptRequestEvent → Bool
  unfolding classify_permission_kind
  looks_like_permission_prompt event =
      yes_no event.options
      || asks_permission (
          classify_permission_kind unicode_lower event.message
            (trim_space event.runtime_meta.target_path) (trim_space event.runtime_meta.command))

  abbrev action_value : InteractionAction → Text
  action_value a =
      to_lower unicode_lower
        (trim_space (first_non_empty_string (a.decision ∷ a.value ∷ a.label ∷ [])))

  abbrev approves : InteractionAction → Bool
  approves a =
      any (λ w. action_value a == w)
        (runes "approve" ∷ runes "allow" ∷ runes "accept" ∷ runes "yes" ∷ runes "y" ∷ [])

  abbrev denies : InteractionAction → Bool
  denies a =
      any (λ w. action_value a == w) (runes "deny" ∷ runes "reject" ∷ runes "no" ∷ runes "n" ∷ [])

  unfoldable pub looks_like_permission_interaction : InteractionRequestEvent → Bool
  unfolding classify_permission_kind first_non_empty_string
  looks_like_permission_interaction event =
      let meta = event.runtime_meta in
      let message = first_non_empty_string (event.message ∷ event.title ∷ []) in
      let target_path = first_non_empty_string (event.target_path ∷ meta.target_path ∷ []) in
      contains (to_lower unicode_lower (trim_space event.kind)) (runes "permission")
      || (any approves event.actions && any denies event.actions)
      || asks_permission (
          classify_permission_kind unicode_lower message (trim_space target_path)
            (trim_space meta.command))
