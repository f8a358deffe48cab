-- ===== src/Session/Permission/Plan/Decisions.antt =====
-- What is decided on a permission prompt (session/permission_router.go).
use vcos.Base.{
  ℕ, ◌≡◌, ◌↔◌, ◌⊎◌, refl, true, false, subst, inl, inr, List, [], ◌∷◌, arith, if◌then◌else◌,
  Bool-cases,
}
use vcos.Base.Text.{Text, runes, ◌==◌, eq_iff, is_empty, trim_space, to_lower, fields, has_suffix}
use vcos.Session.{
  RuntimeMeta, no_meta, PermissionDecisionRequestEvent, SessionRuntime, ControllerSnapshot,
}
use vcos.Session.Permission.{first_non_empty_string, head_or_empty}
use vcos.Session.Permission.Matching.{empty_iff}
use vcos.Session.Permission.Plan.{
  PermissionDecisionPlan, ok, direct, deny_then_input, approve, deny, denied, prompt_text,
  approved_message, permission_decision_intent, is_claude_head, is_claude_command_like,
  effective_permission_mode, plan_meta, build_permission_decision_prompt,
  build_permission_decision_plan,
}

-- BuildPermissionDecisionPrompt gives a prompt for the decisions approve and deny, in any case and
-- with space around, and for no other.
prompt-ok_iff :
    (unicode_lower : ℕ → ℕ) (given : Text) (req : PermissionDecisionRequestEvent)
    → let decision = trim_space (to_lower unicode_lower given) in
      ((prompt : Text) × (build_permission_decision_prompt unicode_lower given req ≡ ok prompt))
      ↔ ((decision ≡ approve) ⊎ (decision ≡ deny))
unfolding build_permission_decision_prompt ◌==◌
prompt-ok_iff unicode_lower given req =
    let decision = trim_space (to_lower unicode_lower given) in
    (
      λ (prompt, e).
          ground (arith, e, empty_iff decision, eq_iff decision approve, eq_iff decision deny),
      λ either. elim either [
        | inl yes' ↦ (
          prompt_text
              (approved_message unicode_lower (permission_decision_intent unicode_lower req)) req,
          rw yes' refl,
        )
        | inr no' ↦ (prompt_text denied req, rw no' refl)
      ],
    )

deny-lower : (unicode_lower : ℕ → ℕ) → trim_space (to_lower unicode_lower deny) ≡ deny
unfolding to_lower trim_space
deny-lower unicode_lower = refl

prompt-deny :
    (unicode_lower : ℕ → ℕ) (d : Text) (req : PermissionDecisionRequestEvent)
    → d ≡ deny
    → build_permission_decision_prompt unicode_lower d req ≡ ok (prompt_text denied req)
unfolding build_permission_decision_prompt ◌==◌
prompt-deny unicode_lower d req e = rw (e, deny-lower unicode_lower) refl

-- The text is the first of the values that is not blank, trimmed, and empty if all are blank.
abbrev pub FirstOf : List Text → Text → Type 0
FirstOf [] v = v ≡ []
FirstOf (x ∷ xs) v =
    ((is_empty (trim_space x) ≡ false) × (v ≡ trim_space x)) ⊎ ((trim_space x ≡ []) × FirstOf xs v)

first-FirstOf : (xs : List Text) → FirstOf xs (first_non_empty_string xs)
unfolding first_non_empty_string
first-FirstOf [] = refl
first-FirstOf (x ∷ xs) = elim (Bool-cases (is_empty (trim_space x))) [
  | inl blank ↦
      rw (blank, if◌then◌else◌) (inr ((empty_iff (trim_space x)).0 blank, first-FirstOf xs))
  | inr filled ↦ rw (filled, if◌then◌else◌) (inl (refl, refl))
]

-- The meta of a plan: these fields, and no others.
pub record Describes (req : PermissionDecisionRequestEvent) (runtime : SessionRuntime)
    (controller : ControllerSnapshot) (decision : Text) (meta : RuntimeMeta) : Type 0 where
  pub resume_session_id :
      FirstOf
        (req.resume_session_id ∷ controller.resume_session
          ∷ controller.active_meta.resume_session_id ∷ runtime.resume_session_id ∷ [])
        meta.resume_session_id
  pub context_id : FirstOf (req.context_id ∷ controller.active_meta.context_id ∷ []) meta.context_id
  pub context_title :
      FirstOf (req.context_title ∷ controller.active_meta.context_title ∷ []) meta.context_title
  pub target_path :
      FirstOf (req.target_path ∷ controller.active_meta.target_path ∷ []) meta.target_path
  pub command :
      FirstOf
        (req.fallback_command ∷ runtime.command ∷ controller.current_command
          ∷ controller.active_meta.command ∷ [])
        meta.command
  pub engine : FirstOf (req.fallback_engine ∷ controller.active_meta.engine ∷ []) meta.engine
  pub cwd : FirstOf (req.fallback_cwd ∷ controller.active_meta.cwd ∷ runtime.cwd ∷ []) meta.cwd
  pub target : FirstOf (req.fallback_target ∷ controller.active_meta.target ∷ []) meta.target
  pub target_type :
      FirstOf (req.fallback_target_type ∷ controller.active_meta.target_type ∷ []) meta.target_type
  pub permission_mode :
      FirstOf
        (req.permission_mode ∷ controller.active_meta.permission_mode ∷ runtime.permission_mode
          ∷ [])
        meta.permission_mode
  pub fixed : meta ≡ record no_meta {
    source = runes "permission-decision";
    target_text = decision;
    permission_request_id = trim_space req.permission_request_id;
    resume_session_id = meta.resume_session_id;
    context_id = meta.context_id;
    context_title = meta.context_title;
    target_path = meta.target_path;
    command = meta.command;
    engine = meta.engine;
    cwd = meta.cwd;
    target = meta.target;
    target_type = meta.target_type;
    permission_mode = meta.permission_mode;
  }

module _ (unicode_lower : ℕ → ℕ) where
  -- The first word of the command, in lower case, names Claude.
  abbrev pub NamesClaude : Text → Type 0
  NamesClaude command =
      let head =
        to_lower unicode_lower (trim_space (head_or_empty (fields (trim_space command)))) in
      (head ≡ runes "claude")
      ⊎ (has_suffix head (runes "/claude") ≡ true)
      ⊎ (has_suffix head (92 ∷ 92 ∷ runes "claude") ≡ true)
      ⊎ (head ≡ runes "claude.exe")

  like-NamesClaude :
      (command : Text) → (is_claude_command_like unicode_lower command ≡ true) ↔ NamesClaude command
  unfolding is_claude_command_like is_claude_head
  like-NamesClaude command =
      let head =
        to_lower unicode_lower (trim_space (head_or_empty (fields (trim_space command)))) in
      (
        λ h. ground (arith, eq_iff head (runes "claude"), eq_iff head (runes "claude.exe")),
        λ h. ground (arith, eq_iff head (runes "claude"), eq_iff head (runes "claude.exe")),
      )

  plan_meta-Describes :
      (req : PermissionDecisionRequestEvent) (runtime : SessionRuntime)
      (controller : ControllerSnapshot)
      → Describes req runtime controller
          (trim_space (to_lower unicode_lower req.decision))
          (plan_meta unicode_lower req runtime controller)
  unfolding plan_meta effective_permission_mode first_non_empty_string
  plan_meta-Describes req runtime controller =
      let active = controller.active_meta in
      let modes = req.permission_mode ∷ active.permission_mode ∷ runtime.permission_mode ∷ [] in
      record {
        resume_session_id = first-FirstOf (
            req.resume_session_id ∷ controller.resume_session ∷ active.resume_session_id
            ∷ runtime.resume_session_id ∷ []);
        context_id = first-FirstOf (req.context_id ∷ active.context_id ∷ []);
        context_title = first-FirstOf (req.context_title ∷ active.context_title ∷ []);
        target_path = first-FirstOf (req.target_path ∷ active.target_path ∷ []);
        command = first-FirstOf (
            req.fallback_command ∷ runtime.command ∷ controller.current_command ∷ active.command
            ∷ []);
        engine = first-FirstOf (req.fallback_engine ∷ active.engine ∷ []);
        cwd = first-FirstOf (req.fallback_cwd ∷ active.cwd ∷ runtime.cwd ∷ []);
        target = first-FirstOf (req.fallback_target ∷ active.target ∷ []);
        target_type = first-FirstOf (req.fallback_target_type ∷ active.target_type ∷ []);
        permission_mode = subst (FirstOf modes) mode (first-FirstOf modes);
        fixed = refl;
      }
    where
      mode :
          first_non_empty_string (
            req.permission_mode ∷ controller.active_meta.permission_mode ∷ runtime.permission_mode
            ∷ [])
          ≡ effective_permission_mode unicode_lower req runtime controller
      mode = ground (arith, empty_iff (trim_space runtime.permission_mode))

  -- A plan is always made. Its decision is the one given, trimmed and in lower case. Its meta has the
  -- source "permission-decision", that decision as its text, the trimmed identifier of the request,
  -- each of ten further fields from the first of its sources that is not blank, and nothing else. If
  -- that command names Claude and the decision is deny, the plan is to deny and then to send the
  -- prompt that BuildPermissionDecisionPrompt gives for deny; in every other case, a decision that is
  -- neither approve nor deny included, it is direct and has no prompt.
  pub plan_lem :
      (req : PermissionDecisionRequestEvent) (runtime : SessionRuntime)
      (controller : ControllerSnapshot)
      → let decision = trim_space (to_lower unicode_lower req.decision) in
        (plan : PermissionDecisionPlan) × (build_permission_decision_plan unicode_lower req runtime
            controller
          ≡ ok plan)
        × (plan.decision ≡ decision)
        × Describes req runtime controller decision plan.meta
        × (((plan.action ≡ deny_then_input)
              × NamesClaude plan.meta.command
              × (decision ≡ deny)
              × (build_permission_decision_prompt unicode_lower deny req ≡ ok plan.prompt))
            ⊎ ((plan.action ≡ direct)
                × (plan.prompt ≡ [])
                × ¬ (NamesClaude plan.meta.command × (decision ≡ deny))))
  unfolding build_permission_decision_plan
  plan_lem req runtime controller =
      let decision = trim_space (to_lower unicode_lower req.decision) in
      let meta = plan_meta unicode_lower req runtime controller in
      let described = plan_meta-Describes req runtime controller in
      let (to, from) = like-NamesClaude meta.command in
      elim (Bool-cases (is_claude_command_like unicode_lower meta.command)) [
        | inl claude ↦ elim (Bool-cases (decision == deny)) [
          | inl hit ↦
              let e = (eq_iff decision deny).0 hit in
              rw (claude, hit, prompt-deny unicode_lower decision req e)
                (
                  record {
                    action = deny_then_input;
                    decision = decision;
                    meta = meta;
                    prompt = prompt_text denied req;
                  },
                  refl,
                  refl,
                  described,
                  inl (refl, to claude, e, prompt-deny unicode_lower deny req refl),
                )
          | inr miss ↦
              rw (claude, miss)
                (
                  record { action = direct; decision = decision; meta = meta; prompt = [] },
                  refl,
                  refl,
                  described,
                  inr (refl, refl, λ h. cc (miss, (eq_iff decision deny).1 h.1)),
                )
        ]
        | inr other ↦ rw other (
          record { action = direct; decision = decision; meta = meta; prompt = [] },
          refl,
          refl,
          described,
          inr (refl, refl, λ h. cc (other, from h.0)),
        )
      ]
