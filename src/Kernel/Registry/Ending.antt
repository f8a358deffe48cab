-- ===== src/Kernel/Registry/Ending.antt =====
-- How the registry ends a session whose last listener leaves (kernel/registry.go).
use vcos.Base.{ℕ, ◌+◌, ◌≡◌, refl, Bool, true, false, [], ◌∷◌, ◌++◌, none, some, if◌then◌else◌}
use vcos.Base.Text.{Text, ==_refl, is_empty, trim_space}
use vcos.Base.Dict.{lookup, insert, remove, lookup-remove}
use vcos.Kernel.Runtime.{RuntimeSession, remove_listener, listener_count}
use vcos.Kernel.Registry.{Registry, release}
use vcos.Kernel.Registry.Cleaning.{remove_listener-identity}

abbrev orphaned : ℕ → Text → RuntimeSession → Registry → RuntimeSession
orphaned now name s r = record (remove_listener name s) {
  release_timer = some (now + r.release_after);
}

-- Release, where the last listener leaves.
release_last :
    (now : ℕ) (id name : Text) (cleanup : Bool) (r : Registry) (s : RuntimeSession)
    → trim_space id ≡ id
    → is_empty id ≡ false
    → lookup id r.sessions ≡ some s
    → listener_count (remove_listener name s) ≡ 0
    → release now id name cleanup r ≡ (
        if cleanup
        then record r {
          sessions = remove id r.sessions;
          cleaned = r.cleaned ++ (id, (remove_listener name s).identity) ∷ [];
        }
        else record r { sessions = insert id (orphaned now name s r) r.sessions })
unfolding release
release_last now id name cleanup r s trimmed full found empty =
    rw (trimmed, full, found, if◌then◌else◌, empty) refl

-- Release that cleans up at once removes the session and cleans it up, but leaves its sink running.
release_cleanup_leaves_sink :
    (now : ℕ) (id name : Text) (r : Registry) (s : RuntimeSession)
    → trim_space id ≡ id
    → is_empty id ≡ false
    → lookup id r.sessions ≡ some s
    → listener_count (remove_listener name s) ≡ 0
    → let after = release now id name true r in
      (lookup id after.sessions ≡ none)
      × (after.cleaned ≡ r.cleaned ++ (id, s.identity) ∷ [])
      × (after.shut ≡ r.shut)
release_cleanup_leaves_sink now id name r s trimmed full found empty =
    rw
      (
        release_last now id name true r s trimmed full found empty,
        if◌then◌else◌,
        remove_listener-identity name s,
        lookup-remove id id r.sessions,
        ==_refl id,
      )
      (refl, refl, refl)
