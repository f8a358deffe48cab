-- ===== src/Lib.antt =====
-- VCOS (Go): the core packages of an event-driven kernel for AI agents.
--
-- The kernel arbitrates resources between executions. An intent comes to the scheduler, which asks
-- its rules and then takes a lock on the intent's resource; the watchdog gives up executions that
-- show no activity on the event bus, frees their locks and publishes a warning on the bus.
--
-- Files and what they model (paths from the repository's root):
--   Base            what the other modules share; Base/Text models Go strings of valid UTF-8 as
--                   lists of runes, with what the code uses of package strings; Base/Dict models
--                   Go maps with string keys as association lists; Base/Int has signed numbers.
--   Kernel/Lockmgr  kernel/lockmgr/lockmgr.go. Manager is the struct; acquire, release,
--                   force_release, holder, active, receive (the consumer of Expired), close and
--                   expire with deliver (the two halves of the timer's function) are its methods.
--                   Lockmgr/Calls orders them; Lockmgr/Table is the abstract lock table.
--   Kernel/Scheduler kernel/scheduler/scheduler.go. decide is Decide, give_back is Release.
--   Kernel/Eventbus kernel/eventbus: envelope.go (Eventbus), topic.go (Eventbus/Topic) and bus.go
--                   (Eventbus/Bus, whose calls are steps of publishers, dispatcher, subscribers).
--   Kernel/Watchdog kernel/watchdog/watchdog.go. watch, heartbeat, settle, on_event, on_timeout.
--   Kernel/Runtime  kernel/registry.go, RuntimeSession: append_pending and pending_since (Replay),
--                   mark_client_action (Actions), the sink (Sink).
--   Kernel/Registry kernel/registry.go, RuntimeSessionRegistry: the calls of clients and of the
--                   timers (fire, then cleanup_if_orphaned) and CleanupAll in any order.
--   Engine          engine/generic_parser.go: Patterns has its regular expressions, GenericParser
--                   the state machine; parse_from is parseLine, on three rounds, which are enough.
--   Memory          memory/types.go and memory/memstore.go, the store of memory entries in memory;
--                   shuffle is the order in which a map is iterated. Memory/Router is
--                   memory/moe/moe.go, the scheduler's rule that looks up memories.
--                   Memory/Chunker is memory/semantic/chunker.go.
--   Cognition       Vibe is cognition/vibe/vibe.go, over a store that is a parameter (the store in memory
--                   in what is proved of a restart), and Intake is cognition/intake/intake.go, over
--                   what os.Stat says of a file.
--   Session         the data of protocol/event.go and data/store.go that the permission rules read.
--                   Session/Permission is session/permission_rules.go, with the edits of
--                   gateway/permission_rules.go in Editing and session/permission_router.go in Plan.
--                   Session/Controller is session/session.go: Handlers, Diffs and Snapshots;
--                   Controller/Calls orders its methods.
--   Evolution       Evolution/Feedback is evolution/feedback/feedback.go, whose critical sections are
--                   steps; Evolution/Shadow is Allow of evolution/shadow/shadow.go; Evolution/Evolve is
--                   evolution/evolve/evolve.go, over the process that a check starts.
--
-- Conventions. What runs under a mutex is one step, and what runs between two critical sections is a
-- step of its own, so that every interleaving of goroutines is a sequence of steps; the exceptions are
-- the function that the buffered sink returns (sink_event), a round of the bus's dispatcher, and the
-- two sections of the lock manager's Close, each of which is one step. Times are
-- nanoseconds since the zero time, unbounded naturals, read by the caller of a step; a duration is an
-- integer. Counters of the Go types int, int64 and uint64 do not wrap in the model. A panic is a value
-- of the result. Loops recur on their lists; decimal has one unit of fuel more than its number, which
-- is more than it has digits. The map of the runes beyond ASCII to lower case (package unicode) is the
-- parameter unicode_lower.
--
-- Not modelled: of engine the runners, and gateway, support, desktop, cmd and the stores on disk and
-- over SQL, which are processes, sockets, terminals, files and a driver; the session service with its
-- projections, the skill registry and the semantic index, which would be next; of the
-- registry what asks the session service; of the permission rules the summary of a rule, which cuts a
-- string at a byte; of the shadow workspaces what runs git and copies files.
pub mod Base
pub mod Kernel
pub mod Memory
pub mod Session
pub mod Cognition
pub mod Engine
pub mod Evolution
