-- ===== src/Session/Controller/Diffs.antt =====
-- session/session.go: the recent diffs of a controller and the one under review.
use vcos.Base.{
  Bool, not, ◌&&◌, ◌||◌, List, [], ◌∷◌, map, Option, none, some, if◌then◌else◌, any, nat_eq, length,
}
use vcos.Base.Text.{Text, ◌==◌, is_empty, trim_space}
use vcos.Session.Controller.{DiffContext, no_diff, Controller}

-- The diff is the one of this context, or of this path.
abbrev pub is_diff_of : Text → Text → DiffContext → Bool
is_diff_of id path item =
    (not (is_empty id) && trim_space item.context_id == id)
    || (not (is_empty path) && trim_space item.path == path)

abbrev pub put_diff : (DiffContext → Bool) → DiffContext → List DiffContext → List DiffContext
put_diff same diff [] = diff ∷ []
put_diff same diff (item ∷ items) =
    let rest = put_diff same diff items in if same item then diff ∷ items else item ∷ rest

-- upsertRecentDiffLocked
unfoldable pub upsert_recent_diff : DiffContext → Controller → Controller
upsert_recent_diff diff c = record c {
  recent_diffs =
      put_diff (is_diff_of (trim_space diff.context_id) (trim_space diff.path)) diff c.recent_diffs;
}

abbrev last_diff : List DiffContext → DiffContext
last_diff [] = no_diff
last_diff (item ∷ []) = item
last_diff (item ∷ next ∷ items) = last_diff (next ∷ items)

abbrev pub last_pending : List DiffContext → Option DiffContext
last_pending [] = none
last_pending (item ∷ items) = elim (last_pending items) [
  | none ↦ if item.pending_review then some item else none
  | some found ↦ some found
]

abbrev picked : List DiffContext → Option DiffContext → DiffContext
picked items none = last_diff items
picked items (some item) = item

unfoldable pub pick_active : List DiffContext → DiffContext
pick_active items = picked items (last_pending items)

-- pickActiveRecentDiffLocked, assigned to recentDiff.
unfoldable pub pick_active_recent_diff : Controller → Controller
unfolding pick_active
pick_active_recent_diff c = record c { recent_diff = pick_active c.recent_diffs }

abbrev set_pending : Bool → DiffContext → DiffContext
set_pending pending item = record item { pending_review = pending }

abbrev first_diff : (DiffContext → Bool) → DiffContext → List DiffContext → DiffContext
first_diff test old [] = old
first_diff test old (item ∷ items) =
    let rest = first_diff test old items in if test item then item else rest

abbrev mark_only : Bool → List DiffContext → List DiffContext
mark_only pending [] = []
mark_only pending (item ∷ items) = set_pending pending item ∷ items

-- markRecentDiffPendingLocked
unfoldable pub mark_recent_diff_pending : Text → Text → Bool → Controller → Controller
mark_recent_diff_pending id path pending c =
    let same = is_diff_of id path in
    let single = nat_eq (length c.recent_diffs) 1 in
    let found = any same c.recent_diffs in
    let marked =
      map (λ item. if same item then set_pending pending item else item) c.recent_diffs in
    let diffs = if not found && single then mark_only pending marked else marked in
    let test = λ (item : DiffContext). same item || single in
    let shown = if found || single then first_diff test c.recent_diff diffs else c.recent_diff in
    record c {
      recent_diffs = diffs;
      recent_diff = if test shown then set_pending pending shown else shown;
    }
