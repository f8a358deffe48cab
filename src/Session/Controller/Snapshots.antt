-- ===== src/Session/Controller/Snapshots.antt =====
-- session/session.go, Snapshot and Restore: what of a controller is stored, and comes back. The
-- fields of a snapshot that neither of them uses are left out.
use vcos.Base.{◌≡◌, refl, sym, ap, ◌∙◌, List, [], ◌∷◌, ◌++◌, if◌then◌else◌}
use vcos.Base.Text.{Text, is_empty, trim_space}
use vcos.Session.{RuntimeMeta}
use vcos.Session.Controller.{
  overlaid, DiffContext, Controller, first_non_empty, normalize_claude_lifecycle,
}
use vcos.Session.Controller.Diffs.{pick_active}
use vcos.Session.Controller.Emitting.{Steady, normalize-normalize}

pub record ControllerSnapshot : Type 0 where
  pub session_id : Text
  pub state : Text
  pub current_command : Text
  pub last_step : Text
  pub last_tool : Text
  pub resume_session : Text
  pub claude_lifecycle : Text
  pub last_user_input : Text
  pub active_meta : RuntimeMeta
  pub recent_diffs : List DiffContext
  pub recent_diff : DiffContext

unfoldable pub snapshot : Controller → ControllerSnapshot
snapshot c = record {
  session_id = c.session_id;
  state = c.current_state;
  current_command = c.current_command;
  last_step = c.last_step;
  last_tool = c.last_tool;
  resume_session = c.resume_session;
  claude_lifecycle = c.claude_lifecycle;
  last_user_input = c.last_user_input;
  active_meta = c.active_meta;
  recent_diffs = c.recent_diffs;
  recent_diff = c.recent_diff;
}

-- A snapshot with a shown diff only has that one as its recent diffs.
abbrev stored_diffs : List DiffContext → DiffContext → List DiffContext
stored_diffs [] shown =
    if is_empty (trim_space (shown.context_id ++ (shown.path ++ shown.title)))
    then []
    else shown ∷ []
stored_diffs (item ∷ items) shown = item ∷ items

abbrev restored : Text → List DiffContext → ControllerSnapshot → Controller → Controller
restored lifecycle diffs s c = record c {
  session_id = overlaid c.session_id s.session_id;
  current_state = s.state;
  current_command = s.current_command;
  last_step = s.last_step;
  last_tool = s.last_tool;
  resume_session = s.resume_session;
  claude_lifecycle = lifecycle;
  last_user_input = s.last_user_input;
  active_meta = record s.active_meta {
    claude_lifecycle = overlaid s.active_meta.claude_lifecycle lifecycle;
  };
  recent_diffs = diffs;
  recent_diff = pick_active diffs;
}

unfoldable pub restore : ControllerSnapshot → Controller → Controller
unfolding first_non_empty normalize_claude_lifecycle pick_active
restore s c =
    restored
      (first_non_empty (
        normalize_claude_lifecycle s.claude_lifecycle
        ∷ normalize_claude_lifecycle s.active_meta.claude_lifecycle
        ∷ []))
      (stored_diffs s.recent_diffs s.recent_diff) s c

first_same : (l : Text) → trim_space l ≡ l → first_non_empty (l ∷ l ∷ []) ≡ l
unfolding first_non_empty trim_space
first_same [] e = refl
first_same (c ∷ l) e = rw e refl

stored_same :
    (items : List DiffContext) (shown : DiffContext)
    → shown ≡ pick_active items
    → stored_diffs items shown ≡ items
unfolding pick_active trim_space
stored_same [] shown e = rw e refl
stored_same (item ∷ items) shown e = refl

overlaid_same : (l : Text) → overlaid l l ≡ l
overlaid_same [] = refl
overlaid_same (c ∷ l) = refl

-- A stored session comes back: restoring the snapshot of a controller in a state that calls lead to
-- gives that controller, and the other one keeps only its memory of repeated events, and its
-- identifier if the snapshot has none.
pub restore-snapshot :
    (c d : Controller)
    → Steady c
    → restore (snapshot c) d ≡ record c {
      session_id = overlaid d.session_id c.session_id;
      last_log_msg = d.last_log_msg;
      last_log_time = d.last_log_time;
      last_step_msg = d.last_step_msg;
      last_step_status = d.last_step_status;
      last_prompt_msg = d.last_prompt_msg;
    }
unfolding restore snapshot
restore-snapshot c d h =
    let l = c.claude_lifecycle in
    let trimmed : trim_space l ≡ l =
      ap trim_space (sym h.normal) ∙ (normalize-normalize l).1 ∙ h.normal in
    let active : normalize_claude_lifecycle c.active_meta.claude_lifecycle ≡ l =
      ap normalize_claude_lifecycle h.agrees ∙ h.normal in
    let lifecycle : first_non_empty (
          normalize_claude_lifecycle l
          ∷ normalize_claude_lifecycle c.active_meta.claude_lifecycle
          ∷ [])
        ≡ l =
      ap (λ x. first_non_empty (x ∷ normalize_claude_lifecycle c.active_meta.claude_lifecycle ∷ []))
        h.normal
      ∙ ap (λ x. first_non_empty (l ∷ x ∷ [])) active
      ∙ first_same l trimmed in
    let meta : overlaid c.active_meta.claude_lifecycle l ≡ c.active_meta.claude_lifecycle =
      ap (λ x. overlaid x l) h.agrees ∙ overlaid_same l ∙ sym h.agrees in
    ap (λ x. restored x (stored_diffs c.recent_diffs c.recent_diff) (snapshot c) d) lifecycle
    ∙ ap (λ x. restored l x (snapshot c) d) (stored_same c.recent_diffs c.recent_diff h.shown)
    ∙ ap (λ x. record (restored l c.recent_diffs (snapshot c) d) { recent_diff = x }) (sym h.shown)
    ∙ ap
        (λ x. record (restored l c.recent_diffs (snapshot c) d) {
          recent_diff = c.recent_diff;
          active_meta = record c.active_meta { claude_lifecycle = x };
        })
        meta

first-normal :
    (a b : Text)
    → normalize_claude_lifecycle a ≡ a
    → normalize_claude_lifecycle b ≡ b
    → trim_space a ≡ a
    → trim_space b ≡ b
    → let l = first_non_empty (a ∷ b ∷ []) in (normalize_claude_lifecycle l ≡ l) × (l ≡ [] → b ≡ [])
unfolding first_non_empty trim_space
first-normal [] [] na nb ta tb = (na, λ e. refl)
first-normal [] (c ∷ b) na nb ta tb = rw tb (nb, λ e. e)
first-normal (c ∷ a) b na nb ta tb = rw ta (na, λ e. cc e)

overlaid-agrees : (v l : Text) → (l ≡ [] → v ≡ []) → overlaid v l ≡ l
overlaid-agrees v [] h = h refl
overlaid-agrees v (c ∷ l) h = refl

-- Whatever the controller was, after the restore of a snapshot whose active meta has a normal
-- lifecycle it is steady.
pub restore-Steady :
    (s : ControllerSnapshot) (c : Controller)
    → normalize_claude_lifecycle s.active_meta.claude_lifecycle ≡ s.active_meta.claude_lifecycle
    → Steady (restore s c)
unfolding restore
restore-Steady s c normal =
    let (na, ta) = normalize-normalize s.claude_lifecycle in
    let (nb, tb) = normalize-normalize s.active_meta.claude_lifecycle in
    let (n, blank) = first-normal _ _ na nb ta tb in
    record {
      normal = n;
      agrees = overlaid-agrees s.active_meta.claude_lifecycle _ (λ e. sym normal ∙ blank e);
      shown = refl;
    }
