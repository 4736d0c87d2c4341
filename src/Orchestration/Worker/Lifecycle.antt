-- ===== src/Orchestration/Worker/Lifecycle.antt =====
-- The methods of `CameraWorker` up to the final clean-up.
use real_time_surveillance_a.Base.{
  ℕ, ◌+◌, String, Bool, true, false, not, ◌&&◌, ◌||◌, Option, none, some, [], ◌∷◌, ◌++◌, ltb,
  if◌then◌else◌, is_some, comparable_nat, comparable_text, comparable_pair, length, keep_last,
  Result, ok, err, ◌>>=◌,
}
use real_time_surveillance_a.Streaming.Buffer
use real_time_surveillance_a.Orchestration.Errors.{
  internal, sink, shutdown, capture, model, OrchestrationError, Raised, other, Patterns, failure,
  sanitize_error, orchestration_error, public_error,
}
use real_time_surveillance_a.Orchestration.States.{
  WorkerState, starting, running, reconnecting, stopping, is_state, is_valid_transition,
}
use real_time_surveillance_a.Orchestration.Worker.Record.{
  StateTransition, RoutedAnalyticsEvent, absent, pending, resolved, rejected, Worker, EventTask,
  alive, cancelled, ended,
}

-- A call on a worker: it returns or raises, and leaves a worker in both cases.
abbrev pub Outcome : Type 0 → Type 0
Outcome A = Result OrchestrationError (Unit {0}) × Worker A

infixl 5 ◌then_do◌
unfoldable pub ◌then_do◌ : {A : Type 0} → Outcome A → (Worker A → Outcome A) → Outcome A
(ok x, w) then_do f = f w
(err e, w) then_do f = (err e, w)

abbrev pub is_alive : EventTask → Bool
is_alive alive = true
is_alive _ = false

module _ {A : Type 0} where
  unfoldable pub record_failure : OrchestrationError → Worker A → Worker A
  record_failure e w = record w {
    failure = some (failure e);
    metrics = record w.metrics { worker_failures = w.metrics.worker_failures + 1 };
  }

  unfoldable pub resolve_started : Worker A → Worker A
  resolve_started w = elim w.started [ pending ↦ record w { started = resolved } | _ ↦ w ]

  unfoldable pub reject_started : OrchestrationError → Worker A → Worker A
  reject_started e w = elim w.started [ pending ↦ record w { started = rejected e } | _ ↦ w ]

  unfoldable pub count_frame : ℕ → Worker A → Worker A
  count_frame now w = record w {
    metrics = record w.metrics {
      frames_captured = w.metrics.frames_captured + 1;
      last_frame_at = some now;
    };
  }

  -- `_analytics_loop` after a frame was handed to the pipeline: whether it gave a result.
  unfoldable pub analytics_step : Bool → ℕ → Worker A → Worker A
  analytics_step analysed now w =
      if analysed
      then record w {
        metrics = record w.metrics {
          frames_processed = w.metrics.frames_processed + 1;
          last_processed_at = some now;
        };
      }
      else w

  unfoldable pub drop_event : Worker A → Worker A
  drop_event w = record w {
    metrics = record w.metrics { events_dropped = w.metrics.events_dropped + 1 };
  }

  -- `_queue_event`: it does not await, so `active_callbacks` is back when it ends. `routed` is
  -- what `RoutedAnalyticsEvent.from_callback` returns or raises.
  unfoldable pub queue_event : Result OrchestrationError RoutedAnalyticsEvent → Worker A → Outcome A
  unfolding drop_event
  queue_event routed w =
      if not w.accepting_events || w.stop_event then (ok tt, drop_event w) else elim routed [
        | err e ↦ (err e, record_failure e w)
        | ok event ↦
            if ltb (length w.event_queue) w.event_queue_size
            then (
              ok tt,
              record w {
                event_queue = w.event_queue ++ event ∷ [];
                metrics = record w.metrics { last_event_at = some event.timestamp };
              },
            )
            else (ok tt, drop_event w)
      ]

module _ {A : Type 0} (re : Patterns) where
  unfoldable pub moved : WorkerState → Option String → ℕ → Worker A → Worker A
  moved state reason now w =
      let entry : StateTransition = record {
        previous = w.state;
        current = state;
        timestamp = now;
        reason = elim reason [ none ↦ none | some text ↦ some (sanitize_error re text) ];
      } in
      record w {
        state = state;
        updated_at = now;
        transition_count = w.transition_count + 1;
        transitions = keep_last w.transition_history_size (w.transitions ++ entry ∷ []);
      }

  -- The listener that is told of the new status may fail without effect; what it does is the
  -- manager's.
  unfoldable pub transition : WorkerState → Option String → ℕ → Worker A → Outcome A
  transition state reason now w =
      if is_state state w.state
      then (ok tt, w)
      else if not (is_valid_transition w.state state)
      then (
        err (orchestration_error re internal (some w.camera_id) "invalid lifecycle transition"),
        w,
      )
      else (ok tt, moved state reason now w)

  -- `if test: self._transition(…)`
  unfoldable pub transition_if : Bool → WorkerState → Option String → ℕ → Worker A → Outcome A
  transition_if test state reason now w = if test then transition state reason now w else (ok tt, w)

  -- `start` up to its await: a worker that has a supervisor only waits for it.
  unfoldable pub begin_start : ℕ → Worker A → Outcome A
  begin_start now w = elim w.started [
    | absent ↦ transition starting none now (record w { started = pending })
    | _ ↦ (ok tt, w)
  ]

  -- `_close_capture_once`, where `closing` is what `capture.close()` raises.
  unfoldable pub close_capture_once : Option Raised → Worker A → Worker A
  close_capture_once closing w = if w.capture_closed || not w.capture then w else elim closing [
    | none ↦ record w { capture_closed = true; capture_closes = w.capture_closes + 1 }
    | some error ↦
        let f = failure (public_error re shutdown w.camera_id error) in
        record w {
          capture_closed = true;
          capture_closes = w.capture_closes + 1;
          shutdown_failures = w.shutdown_failures ++ f ∷ [];
          failure = some f;
        }
  ]

  -- `stop` up to its await: `done` is whether the supervisor has already ended.
  unfoldable pub begin_stop : Bool → Option Raised → ℕ → Worker A → Outcome A
  begin_stop done closing now w = elim w.started [
    | absent ↦ (ok tt, w)
    | _ ↦
        transition_if
          (not done
            && (is_state w.state starting
                || is_state w.state running
                || is_state w.state reconnecting))
          stopping none now w
        then_do λ w'. (
          ok tt,
          close_capture_once closing (record w' { accepting_events = false; stop_event = true }),
        )
  ]

  -- The two factory calls of `_run`; `making` is what the factory raises. A failure is the
  -- terminal error of the run.
  unfoldable pub make_capture : Option Raised → Worker A → Outcome A
  make_capture none w = (ok tt, record w { capture = true })
  make_capture (some error) w = (err (public_error re capture w.camera_id error), w)

  unfoldable pub make_pipeline : Option Raised → Worker A → Outcome A
  make_pipeline none w = (ok tt, record w { pipeline = true })
  make_pipeline (some error) w = (err (public_error re model w.camera_id error), w)

  -- `_run` after both: it starts the tasks and goes to RUNNING.
  unfoldable pub begin_running : ℕ → Worker A → Outcome A
  begin_running now w =
      transition running none now (record w { accepting_events = true; event_task = alive })
      then_do λ w'. (ok tt, resolve_started w')

  -- `_capture_loop` from one read to the next: what the read returned, a frame or nothing, and
  -- whether the loop is reconnecting. The loop ends when `stop_event` is set.
  unfoldable pub capture_step :
      (A → Bool) → Option A → Bool → ℕ → Worker A → Result OrchestrationError Bool × Worker A
  unfolding count_frame
  capture_step is_frame read is_reconnecting now w =
      if w.stop_event then (ok is_reconnecting, w) else elim read [
        | some frame ↦ elim (Buffer.put is_frame w.frame_buffer frame) [
          | err e ↦ (
            err (
                public_error re capture w.camera_id
                  (other "frame must be a non-empty numpy array")),
            w,
          )
          | ok (sequence, buffer) ↦
              let w' = count_frame now (record w { frame_buffer = buffer }) in
              if is_reconnecting
              then (let (r, w'') = transition running (some "capture reconnected") now w' in
                  (r >>= λ x. ok false, w''))
              else (ok false, w')
        ]
        | none ↦
            let w' = record w {
              metrics = record w.metrics { capture_failures = w.metrics.capture_failures + 1 };
            } in
            if is_reconnecting
            then (ok true, w')
            else (let (r, w'') =
                  transition reconnecting (some "capture unavailable") now (record w' {
                    metrics = record w'.metrics {
                      reconnect_count = w'.metrics.reconnect_count + 1;
                    };
                  }) in
                (r >>= λ x. ok true, w''))
      ]

  -- `_dispatch_events` from its `get` to the await of `emit`.
  unfoldable pub take_event : Worker A → Worker A
  take_event w =
      if is_alive w.event_task && not (is_some w.in_flight)
      then elim w.event_queue [
        | [] ↦ w
        | event ∷ rest ↦ record w { in_flight = some event; event_queue = rest }
      ]
      else w

  unfoldable pub count_emit : Option Raised → Worker A → Worker A
  count_emit none w = record w {
    metrics = record w.metrics { events_emitted = w.metrics.events_emitted + 1 };
  }
  count_emit (some error) w = record w {
    failure = some (failure (public_error re sink w.camera_id error));
    metrics = record w.metrics { event_sink_failures = w.metrics.event_sink_failures + 1 };
  }

  -- `emit` returns, or raises what is an `Exception`, such as the timeout.
  unfoldable pub end_emit : Option Raised → Worker A → Worker A
  unfolding count_emit
  end_emit emitting w = elim w.in_flight [
    | none ↦ w
    | some event ↦ count_emit emitting (record w { in_flight = none })
  ]

  -- The task is cancelled, at its `get` or during an `emit`, or an error leaves it. An event in
  -- flight is then counted nowhere.
  unfoldable pub end_event_task : Option Raised → Worker A → Worker A
  end_event_task raised w =
      if is_alive w.event_task
      then record w {
        in_flight = none;
        event_task = elim raised [ none ↦ cancelled | some error ↦ ended (some error) ];
      }
      else w
