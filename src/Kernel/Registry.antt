-- ===== src/Kernel/Registry.antt =====
-- kernel/registry.go, RuntimeSessionRegistry: the sessions that are alive, by their identifier.
-- A session is the same where its identity, the pointer, is. `fired` are timers whose function has
-- begun and waits for the mutex: stopping such a timer comes too late. `cleaned` lists what onCleanup
-- and Service.Cleanup were called for, and `shut` the sessions whose sink was shut down.
pub mod Lifecycle
pub mod Cleaning
pub mod Ending
mod Examples
use vcos.Base.{
  ℕ, suc, ◌+◌, Bool, true, false, not, ◌&&◌, List, [], ◌∷◌, ◌++◌, map, Option, none, some,
  if◌then◌else◌, leb, nat_eq, ltb,
}
use vcos.Base.Text.{Text, ◌==◌, is_empty, trim_space}
use vcos.Base.Dict.{Dict, lookup, insert, remove}
use vcos.Base.Int.{ℤ, positive_or}
use vcos.Kernel.Runtime.{
  RuntimeSession, new_runtime_session, set_listener, remove_listener, listener_count,
  ensure_buffered_sink_with_processor,
}

pub record Registry : Type 0 where
  pub sessions : Dict RuntimeSession
  pub release_after : ℕ
  pub next_identity : ℕ
  pub fired : List (Text × ℕ)
  pub cleaned : List (Text × ℕ)
  pub shut : List ℕ

-- 15 minutes
abbrev pub default_release_after : ℕ
default_release_after = 900000000000

unfoldable pub new_registry : ℤ → Registry
new_registry release_after = record {
  sessions = [];
  release_after = positive_or release_after default_release_after;
  next_identity = 0;
  fired = [];
  cleaned = [];
  shut = [];
}

abbrev ensured : Text → Option RuntimeSession → Registry → RuntimeSession × Registry
ensured id (some s) r = (s, r)
ensured id none r =
    let s = new_runtime_session r.next_identity in
    (s, record r { sessions = insert id s r.sessions; next_identity = suc r.next_identity })

unfoldable pub ensure_locked : Text → Registry → RuntimeSession × Registry
ensure_locked id r = ensured id (lookup id r.sessions) r

unfoldable pub ensure : Text → Registry → Option RuntimeSession × Registry
unfolding ensure_locked
ensure session_id r =
    let id = trim_space session_id in
    if is_empty id then (none, r) else let (s, r') = ensure_locked id r in (some s, r')

unfoldable pub get : Text → Registry → Option RuntimeSession
get session_id r =
    let id = trim_space session_id in if is_empty id then none else lookup id r.sessions

abbrev connected : Option RuntimeSession → Bool
connected none = false
connected (some s) = ltb 0 (listener_count s)

unfoldable pub has_active_connection : Text → Registry → Bool
has_active_connection session_id r =
    let id = trim_space session_id in
    if is_empty id then false else connected (lookup id r.sessions)

-- What Attach makes of the session: the listener is set, the sink is there, no timer is pending.
abbrev pub attached : Text → Option ℕ → RuntimeSession → RuntimeSession
attached listener_id listener s =
    record (ensure_buffered_sink_with_processor none (set_listener listener_id listener s)) {
      release_timer = none;
    }

unfoldable pub attach : Text → Text → Option ℕ → Registry → Option RuntimeSession × Registry
unfolding ensure_locked
attach session_id listener_id listener r =
    let id = trim_space session_id in
    if is_empty id
    then (none, r)
    else let (s, r') = ensure_locked id r in
      let s' = attached listener_id listener s in
      (some s', record r' { sessions = insert id s' r'.sessions })

abbrev release_found : ℕ → Bool → Text → RuntimeSession → Registry → Registry
release_found now cleanup id s r =
    if ltb 0 (listener_count s)
    then record r { sessions = insert id s r.sessions }
    else if cleanup
    then record r { sessions = remove id r.sessions; cleaned = r.cleaned ++ (id, s.identity) ∷ [] }
    else record r {
      sessions = insert id (record s { release_timer = some (now + r.release_after) }) r.sessions;
    }

abbrev release_entry : ℕ → Text → Bool → Text → Option RuntimeSession → Registry → Registry
release_entry now listener_id cleanup id none r = r
release_entry now listener_id cleanup id (some s) r =
    release_found now cleanup id (remove_listener listener_id s) r

unfoldable pub release : ℕ → Text → Text → Bool → Registry → Registry
release now session_id listener_id cleanup r =
    let id = trim_space session_id in
    if is_empty id then r else release_entry now listener_id cleanup id (lookup id r.sessions) r

abbrev pub due : ℕ → Option ℕ → Bool
due now none = false
due now (some at) = leb at now

abbrev start_timer : ℕ → Text → Option RuntimeSession → Registry → Registry
start_timer now id none r = r
start_timer now id (some s) r =
    if due now s.release_timer then record r { fired = (id, s.identity) ∷ r.fired } else r

-- The pending timer of a session is due, and its function begins.
unfoldable pub fire : ℕ → Text → Registry → Registry
fire now id r = start_timer now id (lookup id r.sessions) r

abbrev clean_found : Text → ℕ → RuntimeSession → Registry → Registry
clean_found id target s r =
    if not (nat_eq s.identity target)
    then r
    else if ltb 0 (listener_count s)
    then record r { sessions = insert id (record s { release_timer = none }) r.sessions }
    else record r {
      sessions = remove id r.sessions;
      cleaned = r.cleaned ++ (id, target) ∷ [];
      shut = r.shut ++ target ∷ [];
    }

abbrev clean_entry : Text → ℕ → Option RuntimeSession → Registry → Registry
clean_entry id target none r = r
clean_entry id target (some s) r = clean_found id target s r

-- The critical section of cleanupIfOrphaned, and the calls after it.
unfoldable pub cleanup_if_orphaned : Text → ℕ → Registry → Registry
cleanup_if_orphaned id target r = clean_entry id target (lookup id r.sessions) r

-- `shuffle` is the order in which Go iterates over the map.
unfoldable pub cleanup_all : (Dict RuntimeSession → Dict RuntimeSession) → Registry → Registry
cleanup_all shuffle r = record r {
  sessions = [];
  cleaned = r.cleaned ++ map (λ x. (x.0, x.1.identity)) (shuffle r.sessions);
  shut = r.shut ++ map (λ x. x.1.identity) (shuffle r.sessions);
}
