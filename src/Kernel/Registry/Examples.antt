-- ===== src/Kernel/Registry/Examples.antt =====
-- Runs of the session registry, and its theorems at concrete states.
use mathlib.Core.List.Perm
use vcos.Base.{◌≡◌, ◌≤◌, ◌+◌, refl, false, List, [], ◌∷◌, none, some}
use vcos.Base.Text.{Text, runes, ◌==◌, trim_space}
use vcos.Base.Int.{pos, positive_or}
use vcos.Base.Dict.{lookup, insert, remove}
use vcos.Kernel.Runtime.{
  RuntimeSession, new_runtime_session, set_listener, remove_listener, listener_count,
  ensure_buffered_sink_with_processor,
}
use vcos.Kernel.Registry.{
  Registry, new_registry, attach, release, fire, cleanup_if_orphaned, cleanup_all,
}
use vcos.Kernel.Registry.Lifecycle.{
  Call, attaches, releases, fires, cleans, cleans_all, run, Listens, run-Listens,
}
use vcos.Kernel.Registry.Cleaning.{alive, cleanings, cleaned_once}

-- Two clients of one session, one of which leaves.
abbrev watched : RuntimeSession
watched = record {
  identity = 0;
  listeners = (runes "phone", 1) ∷ [];
  release_timer = none;
  pending_cursor = 0;
  pending_events = [];
  last_output_at = 0;
  client_actions = [];
  persisted_cursor = 0;
  sink = some [];
  sink_fn = none;
  sink_closed = false;
}

abbrev one_session : Registry
one_session = record {
  sessions = (runes "s1", watched) ∷ [];
  release_after = 10;
  next_identity = 1;
  fired = [];
  cleaned = [];
  shut = [];
}

abbrev others : List Call
others =
    attaches (runes "s1") (runes "desk") (some 2)
    ∷ releases 5 (runes " s1 ") (runes "desk") false
    ∷ fires 20 (runes "s1")
    ∷ cleans (runes "s1") 0
    ∷ []

run-Listens_example : Listens (runes "s1") (runes "phone") 1 0 (run others one_session)
unfolding lookup ◌==◌
run-Listens_example =
    run-Listens (runes "s1") (runes "phone") 1 0 others one_session
      (λ _ e. cc, (λ _ e. cc, (tt, (tt, tt))))
      (record { session = watched; found = refl; keeps = (refl, refl) })

-- A client comes and goes; the timer fires, and its function runs twice. Then another comes, and all
-- is cleaned up.
abbrev comings : List Call
comings =
    attaches (runes "s1") (runes "phone") (some 1)
    ∷ releases 5 (runes "s1") (runes "phone") false
    ∷ fires 15 (runes "s1")
    ∷ cleans (runes "s1") 0
    ∷ cleans (runes "s1") 0
    ∷ attaches (runes "s1") (runes "desk") (some 2)
    ∷ cleans_all (λ m. m) Perm.refl
    ∷ []

cleaned_once_lem :
    (run comings (new_registry (pos 10))).cleaned ≡ (runes "s1", 0) ∷ (runes "s1", 1) ∷ []
unfolding cleanup_all cleanup_if_orphaned lookup fire release trim_space attach insert new_registry
    ◌==◌ listener_count remove_listener remove ensure_buffered_sink_with_processor set_listener
    new_runtime_session positive_or
cleaned_once_lem = refl

cleaned_once_example :
    let r = run comings (new_registry (pos 10)) in alive 0 r.sessions + cleanings 0 r.cleaned ≤ 1
cleaned_once_example = cleaned_once (pos 10) comings 0
