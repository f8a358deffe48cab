-- ===== src/Session/Permission/Matching.antt =====
-- Which rule answers a permission prompt (session/permission_rules.go).
use vcos.Base.{
  ℕ, ◌≡◌, refl, true, inl, inr, List, [], ◌∷◌, Option, none, some, arith, if◌then◌else◌, Bool-cases,
  ◌↔◌, ◌⊎◌,
}
use vcos.Base.Text.{Text, eq_iff, is_empty, trim_space, has_prefix}
use vcos.Session.{
  PermissionDecisionRequestEvent, SessionRuntime, ControllerSnapshot, PermissionRule,
}
use vcos.Session.Permission.{
  PermissionMatchContext, matches_rule, match_permission_rule, count_match,
  mark_permission_rule_matched, build_permission_rule, permission_context_from_decision,
  first_non_empty_string, any_engine, generic_kind,
}

-- A rule answers a context: it is enabled, and each part that it names agrees with the context; the
-- engine "any" and the kind "generic" agree with every engine and kind.
pub record Answers (ctx : PermissionMatchContext) (r : PermissionRule) : Type 0 where
  pub enabled : r.enabled ≡ true
  pub engine : (r.engine ≡ []) ⊎ ((r.engine ≡ any_engine) ⊎ (r.engine ≡ ctx.engine))
  pub kind : (r.kind ≡ []) ⊎ ((r.kind ≡ generic_kind) ⊎ (r.kind ≡ ctx.kind))
  pub command_head : (r.command_head ≡ []) ⊎ (r.command_head ≡ ctx.command_head)
  pub target_path :
      (r.target_path_prefix ≡ []) ⊎ (has_prefix ctx.target_path r.target_path_prefix ≡ true)

-- The first rule that answers: none before it does.
pub data First (ctx : PermissionMatchContext)
    : List PermissionRule → Option PermissionRule → Type 0 where
  nowhere : First ctx [] none
  here :
      {r : PermissionRule} {rs : List PermissionRule} → Answers ctx r → First ctx (r ∷ rs) (some r)
  later :
      {r : PermissionRule} {rs : List PermissionRule} {found : Option PermissionRule}
      → ¬ Answers ctx r
      → First ctx rs found
      → First ctx (r ∷ rs) found

pub empty_iff : (s : Text) → (is_empty s ≡ true) ↔ (s ≡ [])
empty_iff [] = (λ h. refl, λ h. refl)
empty_iff (c ∷ s) = ground arith

matches_rule-Answers :
    (ctx : PermissionMatchContext) (r : PermissionRule) → matches_rule ctx r ≡ true → Answers ctx r
unfolding matches_rule
matches_rule-Answers ctx r h = record {
  enabled = ground arith;
  engine =
      ground (arith, empty_iff r.engine, eq_iff r.engine any_engine, eq_iff r.engine ctx.engine);
  kind = ground (arith, empty_iff r.kind, eq_iff r.kind generic_kind, eq_iff r.kind ctx.kind);
  command_head = ground (arith, empty_iff r.command_head, eq_iff r.command_head ctx.command_head);
  target_path = ground (arith, empty_iff r.target_path_prefix);
}

Answers-matches_rule :
    (ctx : PermissionMatchContext) (r : PermissionRule) → Answers ctx r → matches_rule ctx r ≡ true
unfolding matches_rule
Answers-matches_rule ctx r h = ground (
  arith,
  h.enabled,
  h.engine,
  h.kind,
  h.command_head,
  h.target_path,
  empty_iff r.engine,
  eq_iff r.engine any_engine,
  eq_iff r.engine ctx.engine,
  empty_iff r.kind,
  eq_iff r.kind generic_kind,
  eq_iff r.kind ctx.kind,
  empty_iff r.command_head,
  eq_iff r.command_head ctx.command_head,
  empty_iff r.target_path_prefix,
)

-- MatchPermissionRule returns the first rule that answers the context, or none if no rule does.
pub match_permission_rule-First :
    (items : List PermissionRule) (ctx : PermissionMatchContext)
    → First ctx items (match_permission_rule items ctx)
unfolding match_permission_rule
match_permission_rule-First [] ctx = First.nowhere
match_permission_rule-First (r ∷ rs) ctx = elim (Bool-cases (matches_rule ctx r)) [
  | inl hit ↦ rw (hit, if◌then◌else◌) (First.here (matches_rule-Answers ctx r hit))
  | inr miss ↦
      rw (miss, if◌then◌else◌)
        (First.later (λ a. cc (miss, Answers-matches_rule ctx r a))
          (match_permission_rule-First rs ctx))
]

abbrev pub marked : ℕ → Text → Option PermissionRule → Option PermissionRule
marked now id none = none
marked now id (some r) = some (count_match now id r)

-- Marking rules as matched changes no answer: the rule that MatchPermissionRule returns afterwards
-- is the one that it returned before, marked where it has the identifier.
match-mark :
    (now : ℕ) (items : List PermissionRule) (id : Text) (ctx : PermissionMatchContext)
    → match_permission_rule (mark_permission_rule_matched now items id) ctx
      ≡ marked now id (match_permission_rule items ctx)
unfolding match_permission_rule mark_permission_rule_matched matches_rule
match-mark now [] id ctx = refl
match-mark now (r ∷ rs) id ctx = ground (arith, match-mark now rs id ctx)

-- The first text that is not blank, where the first of the list is one, is that one, trimmed.
own_prefix :
    (s : Text) (others : List Text)
    → (trim_space s ≡ []) ⊎ (first_non_empty_string (s ∷ others) ≡ trim_space s)
unfolding first_non_empty_string
own_prefix s others = ground (arith, empty_iff (trim_space s))

has_prefix_refl : (s : Text) → has_prefix s s ≡ true
unfolding has_prefix
has_prefix_refl [] = refl
has_prefix_refl (c ∷ s) = ground (arith, has_prefix_refl s)

-- The rule that BuildPermissionRule makes of a decision answers the decision's own context.
build_permission_rule-Answers :
    (unicode_lower : ℕ → ℕ) (summarize : PermissionMatchContext → Text) (now : ℕ)
    (req : PermissionDecisionRequestEvent) (scope : Text) (runtime : SessionRuntime)
    (controller : ControllerSnapshot)
    → Answers
        (permission_context_from_decision unicode_lower req runtime controller)
        (build_permission_rule unicode_lower summarize now req scope runtime controller)
unfolding build_permission_rule permission_context_from_decision
build_permission_rule-Answers unicode_lower summarize now req scope runtime controller = record {
  enabled = refl;
  engine = inr (inr refl);
  kind = inr (inr refl);
  command_head = inr refl;
  target_path =
      elim (own_prefix req.target_path (controller.active_meta.target_path ∷ runtime.cwd ∷ [])) [
        | inl blank ↦ inl blank
        | inr own ↦ inr (rw own (has_prefix_refl (trim_space req.target_path)))
      ];
}
