-- ===== src/Session/Controller/Emitting.antt =====
-- What an event of a session's controller says, and what emitting it keeps (session/session.go).
use vcos.Base.{
  ℕ, ◌≡◌, refl, subst, Bool, true, false, inl, inr, List, [], ◌∷◌, if◌then◌else◌, Bool-cases, All,
}
use vcos.Base.Text.{Text, runes, ◌==◌, eq_iff, is_empty, trim_space}
use vcos.Session.Controller.{
  overlaid, merge_runtime_meta, Controller, AgentStateEvent, thinking, wait_input, running_tool,
  idle, one_of, lifecycles, normalize_claude_lifecycle, derive_claude_lifecycle,
  refresh_claude_lifecycle, new_agent_state_event,
}
use vcos.Session.Controller.Diffs.{pick_active}

one_of-trimmed :
    (words : List Text) (s : Text)
    → All (λ w. trim_space w ≡ w) words
    → one_of words s ≡ true
    → trim_space s ≡ s
one_of-trimmed [] s h e = cc
one_of-trimmed (w ∷ words) s h e = elim (Bool-cases (w == s)) [
  | inl hit ↦ subst (λ t. trim_space t ≡ t) ((eq_iff w s).0 hit) h.0
  | inr miss ↦ one_of-trimmed words s h.1 (rw miss at e)
]

lifecycles_trimmed : All (λ w. trim_space w ≡ w) lifecycles
unfolding trim_space
lifecycles_trimmed = (refl, (refl, (refl, (refl, (refl, (refl, tt))))))

-- Normalising twice is normalising once.
pub normalize-normalize :
    (v : Text)
    → (normalize_claude_lifecycle (normalize_claude_lifecycle v) ≡ normalize_claude_lifecycle v)
      × (trim_space (normalize_claude_lifecycle v) ≡ normalize_claude_lifecycle v)
unfolding normalize_claude_lifecycle trim_space ◌==◌
normalize-normalize v = elim (Bool-cases (one_of lifecycles (trim_space v))) [
  | inl known ↦
      let same = one_of-trimmed lifecycles (trim_space v) lifecycles_trimmed known in
      rw (known, if◌then◌else◌, same, known, if◌then◌else◌) (refl, refl)
  | inr other ↦ rw (other, if◌then◌else◌) (refl, refl)
]

-- The lifecycle is a normal one, and the active meta has the same; the diff shown is the one that
-- the recent diffs pick.
pub record Steady (c : Controller) : Type 0 where
  pub normal : normalize_claude_lifecycle c.claude_lifecycle ≡ c.claude_lifecycle
  pub agrees : c.active_meta.claude_lifecycle ≡ c.claude_lifecycle
  pub shown : c.recent_diff ≡ pick_active c.recent_diffs

-- An event says the state, whether it waits for input, and the lifecycle, all as the controller has
-- them.
abbrev pub Says : List AgentStateEvent → Controller → Type 0
Says [] c = Unit
Says (e ∷ es) c =
    (e.state ≡ c.current_state)
    × (e.await_input ≡ (c.current_state == wait_input))
    × (e.runtime_meta.claude_lifecycle ≡ c.claude_lifecycle)
    × (es ≡ [])

pub record Good (r : List AgentStateEvent × Controller) : Type 0 where
  pub steady : Steady r.1
  pub says : Says r.0 r.1

pub Good-if :
    (b : Bool) (q r : List AgentStateEvent × Controller)
    → (b ≡ true → Good q)
    → (b ≡ false → Good r)
    → Good (if b then q else r)
Good-if true q r hq hr = hq refl
Good-if false q r hq hr = hr refl

pub silent : (c : Controller) → Steady c → Good ([], c)
silent c h = record { steady = h; says = tt }

overlaid-full : (base overlay : Text) → is_empty overlay ≡ false → overlaid base overlay ≡ overlay
overlaid-full base [] h = cc
overlaid-full base (c ∷ s) h = refl

pub thinking_busy : false ≡ (thinking == wait_input)
unfolding ◌==◌
thinking_busy = refl

pub running_busy : false ≡ (running_tool == wait_input)
unfolding ◌==◌
running_busy = refl

pub idle_busy : false ≡ (idle == wait_input)
unfolding ◌==◌
idle_busy = refl

pub waiting_waits : true ≡ (wait_input == wait_input)
unfolding ◌==◌
waiting_waits = refl

abbrev Normal : Text → Type 0
Normal t = (normalize_claude_lifecycle t ≡ t) × (is_empty t ≡ false)

Normal-if : {x y : Text} (b : Bool) → Normal x → Normal y → Normal (if b then x else y)
Normal-if true hx hy = hx
Normal-if false hx hy = hy

overlaid-Normal : (x n : Text) → Normal x → normalize_claude_lifecycle n ≡ n → Normal (overlaid x n)
overlaid-Normal x [] h e = h
overlaid-Normal x (c ∷ n) h e = (e, refl)

waiting-Normal : Normal (runes "waiting_input")
unfolding normalize_claude_lifecycle trim_space ◌==◌
waiting-Normal = (refl, refl)

active-Normal : Normal (runes "active")
unfolding normalize_claude_lifecycle trim_space ◌==◌
active-Normal = (refl, refl)

resumable-Normal : Normal (runes "resumable")
unfolding normalize_claude_lifecycle trim_space ◌==◌
resumable-Normal = (refl, refl)

unknown-Normal : Normal (runes "unknown")
unfolding normalize_claude_lifecycle trim_space ◌==◌
unknown-Normal = (refl, refl)

inactive-Normal : Normal (runes "inactive")
unfolding normalize_claude_lifecycle trim_space ◌==◌
inactive-Normal = (refl, refl)

module _ (unicode_lower : ℕ → ℕ) where
  derived_normal :
      (c : Controller)
      → (normalize_claude_lifecycle (derive_claude_lifecycle unicode_lower c)
          ≡ derive_claude_lifecycle unicode_lower c)
        × (is_empty (derive_claude_lifecycle unicode_lower c) ≡ false)
  unfolding derive_claude_lifecycle
  derived_normal c =
      overlaid-Normal _ (normalize_claude_lifecycle c.active_meta.claude_lifecycle)
        (Normal-if _ waiting-Normal (
          Normal-if _ active-Normal
            (Normal-if _ resumable-Normal (Normal-if _ unknown-Normal inactive-Normal))))
        (normalize-normalize c.active_meta.claude_lifecycle).0

  -- One event is emitted; it says what it was told of waiting, and the state and the lifecycle as the
  -- controller has them then.
  pub emit_lem :
      (message : Text) (await_input : Bool) (c : Controller)
      → c.recent_diff ≡ pick_active c.recent_diffs
      → let r = new_agent_state_event unicode_lower message await_input c in
        Steady r.1
        × ((e : AgentStateEvent) × (r.0 ≡ e ∷ [])
            × (e.state ≡ r.1.current_state)
            × (e.await_input ≡ await_input)
            × (e.runtime_meta.claude_lifecycle ≡ r.1.claude_lifecycle))
  unfolding new_agent_state_event refresh_claude_lifecycle merge_runtime_meta
  emit_lem message await_input c shown =
      let (normal, full) = derived_normal c in
      let agrees =
        overlaid-full c.active_meta.claude_lifecycle (derive_claude_lifecycle unicode_lower c)
          full in
      (
        record { normal = normal; agrees = agrees; shown = shown },
        (_, refl, refl, refl, overlaid-full _ _ full),
      )

  pub emit-Good :
      (message : Text) (await_input : Bool) (c : Controller)
      → c.recent_diff ≡ pick_active c.recent_diffs
      → await_input ≡ (c.current_state == wait_input)
      → Good (new_agent_state_event unicode_lower message await_input c)
  unfolding new_agent_state_event refresh_claude_lifecycle merge_runtime_meta
  emit-Good message await_input c shown awaits =
      let (normal, full) = derived_normal c in
      let agrees =
        overlaid-full c.active_meta.claude_lifecycle (derive_claude_lifecycle unicode_lower c)
          full in
      record {
        steady = record { normal = normal; agrees = agrees; shown = shown };
        says = (refl, awaits, overlaid-full _ _ full, refl);
      }
