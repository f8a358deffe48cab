-- ===== src/Kernel/Runtime/Sink.antt =====
-- In which order the buffered sink of a session hands its events out.
use vcos.Base.{
  ℕ, ◌+◌, ◌≤◌, ◌<◌, ◌≡◌, refl, ap, ◌∙◌, true, false, List, [], ◌∷◌, ◌++◌, map, append-nil,
  append_assoc, Option, some, arith, if◌then◌else◌, length, length-append, All,
}
use vcos.Kernel.Runtime.{
  RuntimeEvent, RuntimeSession, Delivery, to_processor, present, listener_count, sink_buffer_size,
  ensure_buffered_sink_with_processor, sink_event, emit_buffered_event, drain, shutdown_sink,
}

-- The steps of the sink: its makers, the goroutines that send, its own goroutine, its end.
pub data SinkCall : Type 0 where
  ensures : Option ℕ → SinkCall
  sends : RuntimeEvent → SinkCall
  drains : ℕ → SinkCall
  shuts : SinkCall

abbrev pub step : SinkCall → RuntimeSession → RuntimeSession × List Delivery
step (ensures p) s = (ensure_buffered_sink_with_processor p s, [])
step (sends e) s = sink_event e s
step (drains now) s = drain now s
step shuts s = (shutdown_sink s, [])

abbrev pub run : List SinkCall → RuntimeSession → RuntimeSession × List Delivery
run [] s = (s, [])
run (c ∷ cs) s = let (s', out) = step c s in let (s'', more) = run cs s' in (s'', out ++ more)

step_closed :
    (c : SinkCall) (s : RuntimeSession)
    → s.sink_closed ≡ true
    → ((step c s).0.sink_closed ≡ true) × ((step c s).1 ≡ [])
unfolding ensure_buffered_sink_with_processor sink_event emit_buffered_event drain shutdown_sink
step_closed (ensures p) s h = ground arith
step_closed (sends e) s h = ground arith
step_closed (drains now) s h = ground arith
step_closed shuts s h = ground arith

run_closed : (cs : List SinkCall) (s : RuntimeSession) → s.sink_closed ≡ true → (run cs s).1 ≡ []
run_closed [] s h = refl
run_closed (c ∷ cs) s h =
    let (closed, silent) = step_closed c s h in rw (silent, run_closed cs (step c s).0 closed) refl

-- After ShutdownSink the sink hands nothing out, whatever is sent, drained or ensured then, and
-- whatever stood in its channel.
shutdown_silent : (cs : List SinkCall) (s : RuntimeSession) → (run cs (shutdown_sink s)).1 ≡ []
unfolding shutdown_sink
shutdown_silent cs s = run_closed cs (shutdown_sink s) (ground arith)

abbrev pub send_all : List RuntimeEvent → List SinkCall
send_all es = map sends es

abbrev pub drain_all : List RuntimeEvent → ℕ → List SinkCall
drain_all es now = map (λ e. drains now) es

-- A session with an open sink that holds these events for a processor.
abbrev pub serving : RuntimeSession → ℕ → List RuntimeEvent → RuntimeSession
serving s p q = record s { sink = some q; sink_fn = some p; sink_closed = false }

send_one :
    (e : RuntimeEvent) (q : List RuntimeEvent) (p : ℕ) (s : RuntimeSession)
    → 0 < listener_count s
    → present e ≡ true
    → length q < sink_buffer_size
    → sink_event e (serving s p q) ≡ (serving s p (q ++ e ∷ []), [])
unfolding sink_event listener_count
send_one e q p s on here room = ground arith

run_sends :
    (es q : List RuntimeEvent) (p : ℕ) (s : RuntimeSession) (later : List SinkCall)
    → 0 < listener_count s
    → All (λ e. present e ≡ true) es
    → length q + length es ≤ sink_buffer_size
    → run (send_all es ++ later) (serving s p q) ≡ run later (serving s p (q ++ es))
unfolding sink_event listener_count
run_sends [] q p s later on here room = rw append-nil refl
run_sends (e ∷ es) q p s later on here room =
    let longer = length-append q (e ∷ []) in
    let rest = run_sends es (q ++ e ∷ []) p s later on here.1 (omega (arith, longer)) in
    rw (send_one e q p s on here.0 (omega arith)) (rest ∙ rw append_assoc refl)

run_drains :
    (q : List RuntimeEvent) (p now : ℕ) (s : RuntimeSession)
    → (run (drain_all q now) (serving s p q)).1 ≡ map (to_processor p) q
unfolding drain emit_buffered_event
run_drains [] p now s = refl
run_drains (e ∷ q) p now s = rw (run_drains q p now s) refl

-- While a listener is there, the sink is a queue: sent events that find room are handed to the
-- processor after what stood in the channel, in the order in which they were sent.
pub sink_in_order :
    (es q : List RuntimeEvent) (p now : ℕ) (s : RuntimeSession)
    → 0 < listener_count s
    → All (λ e. present e ≡ true) es
    → length q + length es ≤ sink_buffer_size
    → (run (send_all es ++ drain_all (q ++ es) now) (serving s p q)).1
      ≡ map (to_processor p) (q ++ es)
sink_in_order es q p now s on here room =
    ap (λ r. r.1) (run_sends es q p s (drain_all (q ++ es) now) on here room)
    ∙ run_drains (q ++ es) p now s

-- Without a listener an event overtakes: the sink hands it to the processor at once, before all that
-- still stands in the channel.
sink_overtakes :
    (e : RuntimeEvent) (q : List RuntimeEvent) (p now : ℕ) (s : RuntimeSession)
    → listener_count s ≡ 0
    → present e ≡ true
    → (run (sends e ∷ drain_all q now) (serving s p q)).1
      ≡ to_processor p e ∷ map (to_processor p) q
unfolding sink_event listener_count
sink_overtakes e q p now s off here =
    rw (here, off, if◌then◌else◌) (ap (λ l. to_processor p e ∷ l) (run_drains q p now s))
