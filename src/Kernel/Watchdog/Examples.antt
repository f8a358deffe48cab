-- ===== src/Kernel/Watchdog/Examples.antt =====
-- A watched execution, and the watchdog's theorems at it.
use vcos.Base.{ℕ, ◌≡◌, refl, arith, List, [], ◌∷◌, ◌++◌, none, some, false}
use vcos.Base.Text.{Text, runes, decimal, ◌==◌}
use vcos.Base.Dict.{lookup, insert, remove}
use vcos.Base.Int.{pos, positive_or}
use vcos.Kernel.Lockmgr.{Manager}
use vcos.Kernel.Watchdog.{
  Watchdog, WatchOptions, Item, new, effective, watch, refresh, heartbeat, settle, give_up, warning,
  on_timeout,
}
use vcos.Kernel.Watchdog.Deadlines.{
  Call, watches, heartbeats, fires, settles, Inv, step, run, run_from_new-Inv,
}
use vcos.Kernel.Watchdog.Timeout.{heartbeat_protects, due_timeout}

abbrev exec : Text
exec = runes "e1"

abbrev item : Item
item = record {
  session_id = runes "s1";
  lock_key = runes "s1";
  timeout = 30;
  deadline = 40;
  timer = 40;
}

abbrev watching : Watchdog
watching = record { min_idle = 5; items = (exec, item) ∷ []; closed = false }

abbrev options : WatchOptions
options = record {
  execution_id = exec;
  session_id = runes "s1";
  lock_key = runes "s1";
  timeout = pos 30;
}

watching_lem :
    watch 10 options (record { min_idle = 5; items = []; closed = false }) ≡ some watching
unfolding watch effective insert
watching_lem = refl

watching-Inv : Inv watching
unfolding lookup
watching-Inv = record {
  keyed = (refl, tt);
  entered = (ground arith, tt);
  emptied = λ c. cc;
  floored = omega arith;
}

-- The key is held by another execution, which took it after e1 had released it.
abbrev taken : Manager
taken = record {
  entries = (runes "s1", record { owner = runes "e2"; depth = 1; expire_at = 90; timer = 90 }) ∷ [];
  expired = [];
  sending = [];
  closed = false;
}

abbrev message : Text → ℕ → Text
message text timeout = text ++ decimal timeout

-- The execution is watched, heard of, and its timer runs early; another one is settled.
abbrev calls : List Call
calls =
    watches 10 options
    ∷ heartbeats 20 exec
    ∷ fires 40 exec
    ∷ watches 45 (record options { execution_id = runes "e2" })
    ∷ settles (runes "e2")
    ∷ []

abbrev later : Watchdog
later = record {
  min_idle = 5;
  items = (exec, record item { deadline = 50; timer = 50 }) ∷ [];
  closed = false;
}

run_from_new-Inv_example : Inv later
unfolding run step new watch effective insert heartbeat refresh give_up settle lookup remove ◌==◌
    positive_or
run_from_new-Inv_example = run_from_new-Inv (pos 5) calls later refl

heartbeat_protects_example : (on_timeout message 50 exec (heartbeat 35 exec watching) none).2 ≡ none
unfolding lookup ◌==◌
heartbeat_protects_example =
    (heartbeat_protects message 35 50 exec watching none item refl refl (omega arith)).1

due_timeout_example :
    (on_timeout message 40 exec watching (some taken)).2 ≡ some (warning message 40 exec item)
unfolding lookup ◌==◌
due_timeout_example =
    (due_timeout message 40 exec watching taken item watching-Inv refl (omega arith) refl).2
