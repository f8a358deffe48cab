-- ===== src/Session/Permission/Examples.antt =====
-- Permission rules and decisions on concrete prompts, and their theorems at them.
use vcos.Base.{ℕ, ◌≡◌, refl, true, false, List, ◌⊎◌, [], ◌∷◌, ◌++◌, some}
use vcos.Base.Text.{Text, runes, ◌==◌, to_lower, trim_space, contains, fields, has_suffix}
use vcos.Session.{
  no_meta, PermissionDecisionRequestEvent, SessionRuntime, ControllerSnapshot, PermissionRule,
}
use vcos.Session.Permission.{
  PermissionMatchContext, permission_context_from_prompt, build_permission_rule,
  match_permission_rule, matches_rule,
}
use vcos.Session.Permission.Matching.{First, match_permission_rule-First}
use vcos.Session.Permission.Editing.{
  IdsDiffer, Edit, upserting, deleting, toggling, marking, edit_all, edit_all-IdsDiffer,
}
use vcos.Session.Permission.Plan.{
  PermissionDecisionPlan, ok, deny, denied, direct, deny_then_input, prompt_text,
  is_claude_command_like, plan_meta, build_permission_decision_prompt,
  build_permission_decision_plan,
}
use vcos.Session.Permission.Plan.Decisions.{Describes, NamesClaude, plan_lem}

abbrev same : ℕ → ℕ
same c = c

abbrev runtime : SessionRuntime
runtime = record {
  resume_session_id = [];
  command = runes "claude";
  engine = runes "Claude";
  permission_mode = [];
  cwd = runes "/p";
  claude_lifecycle = [];
  source = [];
}

abbrev controller : ControllerSnapshot
controller = record { current_command = []; resume_session = []; active_meta = no_meta }

-- A prompt without a target path, and the decision that is made of it.
abbrev message : Text
message = runes "write a.txt"

abbrev approval : PermissionDecisionRequestEvent
approval = record {
  action = runes "permission_decision";
  decision = runes " Approve";
  scope = [];
  permission_mode = [];
  permission_request_id = [];
  resume_session_id = [];
  target_path = [];
  context_id = [];
  context_title = [];
  prompt_message = message;
  fallback_command = runes "claude";
  fallback_cwd = runes "/p";
  fallback_engine = runes "Claude";
  fallback_target = [];
  fallback_target_type = [];
}

abbrev blank : PermissionMatchContext → Text
blank ctx = []

abbrev context : PermissionMatchContext
context = record {
  engine = runes "claude";
  kind = runes "shell";
  command_head = runes "claude";
  target_path = [];
}

-- The context of the prompt is a shell command, since no target path is named.
prompt_context : permission_context_from_prompt same message no_meta runtime controller ≡ context
unfolding permission_context_from_prompt trim_space contains fields to_lower
prompt_context = refl

-- The rule made of the approval does not answer the prompt that was approved: the decision's context
-- falls back to the working directory as target path, so its kind is another.
rule_misses_prompt :
    matches_rule context (build_permission_rule same blank 7 approval [] runtime controller) ≡ false
unfolding matches_rule build_permission_rule trim_space to_lower ◌==◌ contains
rule_misses_prompt = refl

-- One backslash before the name is not enough.
windows_path :
    (is_claude_command_like same (runes "c:" ++ 92 ∷ runes "claude") ≡ false)
    × (is_claude_command_like same (runes "/bin/Claude -p") ≡ true)
unfolding is_claude_command_like ◌==◌ to_lower trim_space fields has_suffix
windows_path = (refl, refl)

abbrev rule : Text → Text → PermissionRule
rule id kind = record {
  id = id;
  scope = runes "session";
  enabled = true;
  engine = [];
  kind = kind;
  command_head = [];
  target_path_prefix = [];
  summary = [];
  created_at = 1;
  last_matched_at = 0;
  match_count = 3;
}

abbrev rules : List PermissionRule
rules = rule (runes "a") (runes "write") ∷ rule (runes "b") (runes "generic") ∷ []

match_permission_rule-First_example :
    First context rules (some (rule (runes "b") (runes "generic")))
unfolding match_permission_rule ◌==◌
match_permission_rule-First_example = match_permission_rule-First rules context

abbrev edits : List Edit
edits =
    upserting (rule [] (runes "shell"))
    ∷ marking 5 (runes "a")
    ∷ deleting (runes "b")
    ∷ toggling false
    ∷ []

edit_all-IdsDiffer_example : IdsDiffer (edit_all edits rules)
unfolding ◌==◌
edit_all-IdsDiffer_example = edit_all-IdsDiffer edits rules (refl, (refl, tt))

abbrev denial : PermissionDecisionRequestEvent
denial = record approval { decision = runes " Deny"; permission_request_id = runes " r1 " }

-- A denied command of Claude: the plan is to deny, and to say so.
plan_of_denial :
    build_permission_decision_plan same denial runtime controller
    ≡ ok (record {
      action = deny_then_input;
      decision = deny;
      meta = plan_meta same denial runtime controller;
      prompt = prompt_text denied denial;
    })
unfolding build_permission_decision_plan build_permission_decision_prompt to_lower
    is_claude_command_like ◌==◌ trim_space fields plan_meta
plan_of_denial = refl

plan_lem_example :
    (plan : PermissionDecisionPlan) × (build_permission_decision_plan same denial runtime controller
      ≡ ok plan)
    × (plan.decision ≡ deny)
    × Describes denial runtime controller deny plan.meta
    × (((plan.action ≡ deny_then_input)
          × NamesClaude same plan.meta.command
          × (deny ≡ deny)
          × (build_permission_decision_prompt same deny denial ≡ ok plan.prompt))
        ⊎ ((plan.action ≡ direct)
            × (plan.prompt ≡ [])
            × ¬ (NamesClaude same plan.meta.command × (deny ≡ deny))))
unfolding to_lower trim_space
plan_lem_example = plan_lem same denial runtime controller
