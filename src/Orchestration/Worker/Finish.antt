-- ===== src/Orchestration/Worker/Finish.antt =====
-- The end of `CameraWorker._run`: its `except` and `finally` blocks.
use real_time_surveillance_a.Base.{
  ℕ, ◌+◌, String, Bool, true, false, not, ◌&&◌, ◌||◌, Option, none, some, List, [], ◌∷◌, ◌++◌,
  if◌then◌else◌, is_some, comparable_nat, comparable_text, comparable_pair, ok,
}
use real_time_surveillance_a.Streaming.Buffer
use real_time_surveillance_a.Orchestration.Errors.{
  internal, shutdown, callback, OrchestrationError, Raised, Patterns, failure, public_error,
}
use real_time_surveillance_a.Orchestration.States.{stopped, stopping, failed, is_state}
use real_time_surveillance_a.Orchestration.Worker.Record.{
  Worker, not_started, alive, cancelled, ended, Phase, before_end, gathering, closing_pipeline,
  skipping_pipeline, joining, awaiting_events, concluding, over, interrupted,
}
use real_time_surveillance_a.Orchestration.Worker.Lifecycle.{
  Outcome, ◌then_do◌, transition, transition_if, record_failure, resolve_started, reject_started,
  close_capture_once, is_alive,
}

-- What `pipeline.aclose()` does.
pub data PipelineClose : Type 0 where
  closes : PipelineClose
  callback_fails close_fails : Raised → PipelineClose

-- The stretches of the `finally` block, each up to the next await or the end: the `except` blocks
-- and the closing of the capture; after `gather`, with the errors of the two tasks, cancellations
-- left out; after `aclose`; after `join`; the task of the events at its stop sign; after that task;
-- and an exception, such as a cancellation, out of an await.
-- Where there is no task to gather or no pipeline to close, the source goes on without an await;
-- the schedules with other actions at that point are more than it has.
pub data Stretch : Type 0 where
  begins_ending : Option OrchestrationError → Option Raised → Stretch
  collects : List Raised → Stretch
  closes_pipeline : PipelineClose → Stretch
  joins stops_event_task awaits_event_task is_interrupted : Stretch

abbrev pub is_empty {ℓ} : {B : Type ℓ} → List B → Bool
is_empty [] = true
is_empty (b ∷ bs) = false

abbrev pub is_concluding : Phase → Bool
is_concluding concluding = true
is_concluding _ = false

abbrev pub or_else {ℓ} : {B : Type ℓ} → Option B → Option B → Option B
or_else none b = b
or_else (some a) b = some a

unfoldable pub task_error : Patterns → String → List Raised → Option OrchestrationError
task_error re camera_id [] = none
task_error re camera_id (error ∷ errors) = some (public_error re internal camera_id error)

module _ {A : Type 0} (re : Patterns) where
  -- `_close_pipeline_once` up to its await.
  unfoldable pub call_aclose : Worker A → Worker A
  call_aclose w =
      if w.pipeline_closed || not w.pipeline
      then record w { phase = skipping_pipeline }
      else record w {
        pipeline_closed = true;
        pipeline_closes = w.pipeline_closes + 1;
        phase = closing_pipeline;
      }

  abbrev pub close_failed : OrchestrationError → Worker A → Worker A
  close_failed public w = record w {
    shutdown_failures = w.shutdown_failures ++ failure public ∷ [];
    terminal_error = or_else w.terminal_error (some public);
  }

  -- `_close_pipeline_once` after its await.
  unfoldable pub end_aclose : PipelineClose → Worker A → Worker A
  end_aclose closes w = w
  end_aclose (callback_fails error) w = close_failed (public_error re callback w.camera_id error) w
  end_aclose (close_fails error) w = close_failed (public_error re shutdown w.camera_id error) w

  -- `_settle_event_task` up to its first await, or to its end. The `result` of a task that was
  -- cancelled raises past the `except`.
  unfoldable pub settle_event_task : Worker A → Worker A
  settle_event_task w = elim w.event_task [
    | not_started ↦ record w { phase = concluding }
    | alive ↦ record w { phase = joining }
    | cancelled ↦ record w { phase = interrupted }
    | ended raised ↦ elim raised [
      | none ↦ record w { event_queue = []; phase = concluding }
      | some error ↦ record w {
        shutdown_failures =
            w.shutdown_failures ++ failure (public_error re internal w.camera_id error) ∷ [];
        event_queue = [];
        phase = concluding;
      }
    ]
  ]

  -- `join` returns when each event was taken and handled.
  abbrev pub is_drained : Worker A → Bool
  is_drained w = is_empty w.event_queue && not (is_some w.in_flight)

  unfoldable pub await_event_task : Worker A → Worker A
  await_event_task w = elim w.event_task [
    | ended raised ↦ elim raised [
      | none ↦ record w { phase = concluding }
      | some error ↦ record w { phase = interrupted }
    ]
    | cancelled ↦ record w { phase = interrupted }
    | _ ↦ w
  ]

  -- What a stretch writes before the end is published; one whose await has not come does nothing.
  unfoldable pub advance : Stretch → Worker A → Worker A
  unfolding task_error call_aclose end_aclose settle_event_task await_event_task
  advance (begins_ending terminal closing) w = elim w.phase [
    | before_end ↦ close_capture_once re closing (record w {
      accepting_events = false;
      stop_event = true;
      terminal_error = terminal;
      phase = gathering;
    })
    | _ ↦ w
  ]
  advance (collects errors) w = elim w.phase [
    | gathering ↦
        call_aclose (record w {
          terminal_error = or_else w.terminal_error (task_error re w.camera_id errors);
        })
    | _ ↦ w
  ]
  advance (closes_pipeline closing) w = elim w.phase [
    | closing_pipeline ↦ settle_event_task (end_aclose closing w)
    | skipping_pipeline ↦ settle_event_task w
    | _ ↦ w
  ]
  advance joins w = elim w.phase [
    | joining ↦ if is_drained w then record w { phase = awaiting_events } else w
    | _ ↦ w
  ]
  advance stops_event_task w = elim w.phase [
    | awaiting_events ↦
        if is_alive w.event_task && is_drained w then record w { event_task = ended none } else w
    | _ ↦ w
  ]
  advance awaits_event_task w = elim w.phase [ awaiting_events ↦ await_event_task w | _ ↦ w ]
  advance is_interrupted w = elim w.phase [
    | gathering ↦ record w { phase = interrupted }
    | closing_pipeline ↦ record w { phase = interrupted }
    | joining ↦ record w { phase = interrupted }
    | awaiting_events ↦ record w { phase = interrupted }
    | _ ↦ w
  ]

  -- The part that publishes how the run ended.
  unfoldable pub conclude : Option OrchestrationError → ℕ → Worker A → Outcome A
  conclude (some error) now w =
      let w₁ = record_failure error w in
      transition_if re (not (is_state w₁.state failed)) failed (some error.public_message) now w₁
      then_do λ w₂. (ok tt, reject_started error w₂)
  conclude none now w =
      transition_if re (not (is_state w.state stopping)) stopping none now w then_do λ w₁.
      (transition re stopped none now w₁ then_do λ w₂. (ok tt, resolve_started w₂))

  abbrev pub cleared : Worker A → Worker A
  cleared w = record w { frame_buffer = Buffer.clear w.frame_buffer; phase = over }

  unfoldable pub finish : Stretch → ℕ → Worker A → Outcome A
  unfolding advance conclude
  finish stretch now w =
      let w' = advance stretch w in
      if is_concluding w'.phase then conclude w'.terminal_error now (cleared w') else (ok tt, w')
