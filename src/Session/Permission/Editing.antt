-- ===== src/Session/Permission/Editing.antt =====
-- gateway/permission_rules.go: the edits of the rule lists.
use vcos.Base.{
  ℕ, ◌≡◌, refl, Bool, true, false, ◌&&◌, List, [], ◌∷◌, Option, none, some, arith, if◌then◌else◌,
}
use vcos.Base.Text.{Text, ◌==◌, eq_iff, is_empty, trim_space}
use vcos.Session.{PermissionRule}
use vcos.Session.Permission.{
  PermissionMatchContext, match_permission_rule, matches_rule, permission_rule_id,
  mark_permission_rule_matched,
}

-- The rule with the identifier that upsertPermissionRule gives it.
unfoldable pub named : PermissionRule → PermissionRule
named rule =
    if is_empty (trim_space rule.id) then record rule { id = permission_rule_id rule } else rule

-- A rule in the place of an old one, whose history it keeps.
abbrev pub inherit : PermissionRule → PermissionRule → PermissionRule
inherit old rule = record rule {
  created_at = old.created_at;
  match_count = old.match_count;
  last_matched_at = old.last_matched_at;
}

-- The loop of upsertPermissionRule.
unfoldable pub replace_or_append : PermissionRule → List PermissionRule → List PermissionRule
replace_or_append rule [] = rule ∷ []
replace_or_append rule (item ∷ items) =
    let rest = replace_or_append rule items in
    if item.id == rule.id then inherit item rule ∷ items else item ∷ rest

pub upsert_permission_rule : List PermissionRule → PermissionRule → List PermissionRule
unfolding named replace_or_append
upsert_permission_rule items rule = replace_or_append (named rule) items

unfoldable pub delete_permission_rule : List PermissionRule → Text → List PermissionRule
delete_permission_rule [] id = []
delete_permission_rule (item ∷ items) id =
    let rest = delete_permission_rule items id in if item.id == id then rest else item ∷ rest

pub toggle_permission_rules : List PermissionRule → Bool → List PermissionRule
toggle_permission_rules [] enabled = []
toggle_permission_rules (item ∷ items) enabled =
    record item { enabled = enabled && item.enabled } ∷ toggle_permission_rules items enabled

-- The first rule with an identifier: a list of rules as a map.
abbrev pub find : Text → List PermissionRule → Option PermissionRule
find id [] = none
find id (item ∷ items) = if item.id == id then some item else find id items

-- A rule as it stands after the rule of the same identifier, if there was one.
abbrev pub succeeding : Option PermissionRule → PermissionRule → PermissionRule
succeeding none rule = rule
succeeding (some old) rule = inherit old rule

find-replace_or_append :
    (rule : PermissionRule) (items : List PermissionRule) (id : Text)
    → find id (replace_or_append rule items)
      ≡ (if rule.id == id then some (succeeding (find rule.id items) rule) else find id items)
unfolding replace_or_append
find-replace_or_append rule [] id = refl
find-replace_or_append rule (item ∷ items) id = ground (
  arith,
  find-replace_or_append rule items id,
  eq_iff item.id rule.id,
  eq_iff item.id id,
  eq_iff rule.id id,
)

-- After upsertPermissionRule the rule is found under its identifier, the given one or, where that
-- is blank, the one made of its parts, with the history of the rule that was found there; under any
-- other identifier the rule found is the same as before.
find-upsert_permission_rule :
    (items : List PermissionRule) (rule : PermissionRule) (id : Text)
    → find id (upsert_permission_rule items rule) ≡ (
        if (named rule).id == id
        then some (succeeding (find (named rule).id items) (named rule))
        else find id items)
unfolding upsert_permission_rule
find-upsert_permission_rule items rule id = find-replace_or_append (named rule) items id

-- After deletePermissionRule no rule is found under the identifier, and under any other identifier
-- the rule found is the same as before.
find-delete_permission_rule :
    (items : List PermissionRule) (gone id : Text)
    → find id (delete_permission_rule items gone) ≡ (if gone == id then none else find id items)
unfolding delete_permission_rule
find-delete_permission_rule [] gone id = ground arith
find-delete_permission_rule (item ∷ items) gone id = ground (
  arith,
  find-delete_permission_rule items gone id,
  eq_iff item.id gone,
  eq_iff item.id id,
  eq_iff gone id,
)

-- No identifier occurs twice.
abbrev pub IdsDiffer : List PermissionRule → Type 0
IdsDiffer [] = Unit
IdsDiffer (item ∷ items) = (find item.id items ≡ none) × IdsDiffer items

upsert_permission_rule-IdsDiffer :
    (items : List PermissionRule) (rule : PermissionRule)
    → IdsDiffer items
    → IdsDiffer (replace_or_append rule items)
unfolding replace_or_append
upsert_permission_rule-IdsDiffer [] rule h = (refl, tt)
upsert_permission_rule-IdsDiffer (item ∷ items) rule h = ground (
  arith,
  upsert_permission_rule-IdsDiffer items rule h.1,
  find-replace_or_append rule items item.id,
  eq_iff item.id rule.id,
  eq_iff rule.id item.id,
)

delete_permission_rule-IdsDiffer :
    (items : List PermissionRule) (id : Text)
    → IdsDiffer items
    → IdsDiffer (delete_permission_rule items id)
unfolding delete_permission_rule
delete_permission_rule-IdsDiffer [] id h = tt
delete_permission_rule-IdsDiffer (item ∷ items) id h = ground (
  arith,
  delete_permission_rule-IdsDiffer items id h.1,
  find-delete_permission_rule items id item.id,
)

find-none-toggle :
    (items : List PermissionRule) (b : Bool) (id : Text)
    → find id items ≡ none
    → find id (toggle_permission_rules items b) ≡ none
unfolding toggle_permission_rules
find-none-toggle [] b id h = refl
find-none-toggle (item ∷ items) b id h = ground (arith, find-none-toggle items b id)

toggle_permission_rules-IdsDiffer :
    (items : List PermissionRule) (b : Bool)
    → IdsDiffer items
    → IdsDiffer (toggle_permission_rules items b)
unfolding toggle_permission_rules
toggle_permission_rules-IdsDiffer [] b h = tt
toggle_permission_rules-IdsDiffer (item ∷ items) b h =
    (find-none-toggle items b item.id h.0, toggle_permission_rules-IdsDiffer items b h.1)

find-none-mark :
    (now : ℕ) (items : List PermissionRule) (which id : Text)
    → find id items ≡ none
    → find id (mark_permission_rule_matched now items which) ≡ none
unfolding mark_permission_rule_matched
find-none-mark now [] which id h = refl
find-none-mark now (item ∷ items) which id h = ground (arith, find-none-mark now items which id)

mark-IdsDiffer :
    (now : ℕ) (items : List PermissionRule) (which : Text)
    → IdsDiffer items
    → IdsDiffer (mark_permission_rule_matched now items which)
unfolding mark_permission_rule_matched
mark-IdsDiffer now [] which h = tt
mark-IdsDiffer now (item ∷ items) which h =
    ground (arith, find-none-mark now items which item.id h.0, mark-IdsDiffer now items which h.1)

-- The edits of a list of rules.
pub data Edit : Type 0 where
  upserting : PermissionRule → Edit
  deleting : Text → Edit
  toggling : Bool → Edit
  marking : ℕ → Text → Edit

abbrev pub edit : Edit → List PermissionRule → List PermissionRule
edit (upserting rule) items = upsert_permission_rule items rule
edit (deleting id) items = delete_permission_rule items id
edit (toggling enabled) items = toggle_permission_rules items enabled
edit (marking now id) items = mark_permission_rule_matched now items id

abbrev pub edit_all : List Edit → List PermissionRule → List PermissionRule
edit_all [] items = items
edit_all (e ∷ es) items = edit_all es (edit e items)

edit-IdsDiffer :
    (e : Edit) (items : List PermissionRule) → IdsDiffer items → IdsDiffer (edit e items)
unfolding upsert_permission_rule
edit-IdsDiffer (upserting rule) items h = upsert_permission_rule-IdsDiffer items (named rule) h
edit-IdsDiffer (deleting id) items h = delete_permission_rule-IdsDiffer items id h
edit-IdsDiffer (toggling enabled) items h = toggle_permission_rules-IdsDiffer items enabled h
edit-IdsDiffer (marking now id) items h = mark-IdsDiffer now items id h

-- Whatever edits are made of a list of rules in which no identifier occurs twice, none does after
-- them.
pub edit_all-IdsDiffer :
    (es : List Edit) (items : List PermissionRule) → IdsDiffer items → IdsDiffer (edit_all es items)
edit_all-IdsDiffer [] items h = h
edit_all-IdsDiffer (e ∷ es) items h =
    edit_all-IdsDiffer es (edit e items) (edit-IdsDiffer e items h)

-- Rules that are toggled off answer no prompt, and toggling them on again brings none of them back.
toggle_off :
    (items : List PermissionRule) (ctx : PermissionMatchContext)
    → (match_permission_rule (toggle_permission_rules items false) ctx ≡ none)
      × (toggle_permission_rules (toggle_permission_rules items false) true
          ≡ toggle_permission_rules items false)
unfolding toggle_permission_rules match_permission_rule matches_rule
toggle_off [] ctx = (refl, refl)
toggle_off (item ∷ items) ctx = ground (arith, toggle_off items ctx)
