-- ===== src/Orchestration/Worker/Tests.antt =====
-- A camera that starts, loses its capture once, gives an event, and is stopped; frames are numbers.
use real_time_surveillance_a.Base.{
  ℕ, ◌≡◌, refl, Bool, true, false, none, some, List, [], ◌∷◌, comparable_nat, comparable_text,
  comparable_pair, keep_last, ok, pos,
}
use real_time_surveillance_a.Streaming.Buffer
use real_time_surveillance_a.Orchestration.Errors.{other, Patterns}
use real_time_surveillance_a.Orchestration.States.{stopped, stopping}
use real_time_surveillance_a.Orchestration.Payload.{Value, Fields, FrozenValue, FrozenPayload}
use real_time_surveillance_a.Orchestration.Worker.Callback.{CallbackEvent}
use real_time_surveillance_a.Orchestration.Worker.Record.{
  RoutedAnalyticsEvent, Worker, Started, EventTask, Phase, new_worker,
}
use real_time_surveillance_a.Orchestration.Worker.Lifecycle.{
  moved, transition, transition_if, ◌then_do◌, resolve_started, reject_started, record_failure,
  close_capture_once, count_frame, analytics_step, queue_event, drop_event, count_emit, take_event,
  end_emit, end_event_task, begin_start, begin_stop, make_capture, make_pipeline, begin_running,
  capture_step,
}
use real_time_surveillance_a.Orchestration.Worker.Finish.{
  PipelineClose, Stretch, call_aclose, end_aclose, settle_event_task, await_event_task, advance,
  task_error, conclude, finish,
}
use real_time_surveillance_a.Orchestration.Worker.Actions.{Action, perform, run}
use real_time_surveillance_a.Orchestration.Worker.Transitions.{HasPath, run-HasPath}
use real_time_surveillance_a.Orchestration.Worker.Events.{IsBounded, run-IsBounded}
use real_time_surveillance_a.Orchestration.Worker.Shutdown.{ClosesOnce, run-ClosesOnce}
use real_time_surveillance_a.Orchestration.Worker.Stopping.{StaysStopped, run-StaysStopped}
use real_time_surveillance_a.Orchestration.Worker.Ending.{ending, HasEnded, ending-HasEnded}

abbrev no_patterns : Patterns
no_patterns = record { redact_url = λ s. s; redact_assignment = λ s. s }

abbrev any_frame : ℕ → Bool
any_frame n = true

abbrev count_event : RoutedAnalyticsEvent
count_event = record {
  camera_id = "gate";
  generation = 1;
  event_type = "count";
  timestamp = 5;
  track_id = none;
  zone_id = none;
  payload = FrozenPayload.end;
  accepted_at = 6;
}

abbrev one_run : List (Action ℕ)
one_run =
    Action.begins_start 1
    ∷ Action.makes_capture none
    ∷ Action.makes_pipeline none
    ∷ Action.begins_running 2
    ∷ Action.captures (some 7) false 3
    ∷ Action.captures none false 4
    ∷ Action.captures (some 8) true 5
    ∷ Action.queues (ok count_event)
    ∷ Action.queues (ok count_event)
    ∷ Action.takes
    ∷ Action.emits none
    ∷ Action.begins_stop false none 8
    ∷ Action.queues (ok count_event)
    ∷ Action.finishes (Stretch.begins_ending none none) 9
    ∷ Action.finishes (Stretch.collects []) 9
    ∷ Action.finishes (Stretch.closes_pipeline PipelineClose.closes) 9
    ∷ Action.takes
    ∷ Action.emits none
    ∷ Action.finishes Stretch.joins 9
    ∷ Action.finishes Stretch.stops_event_task 9
    ∷ Action.finishes Stretch.awaits_event_task 10
    ∷ []

abbrev gate : Worker ℕ
gate = new_worker "gate" 1 2 2 3 0

stops_in_order :
    let w = run no_patterns any_frame one_run gate in
    (w.state ≡ stopped)
    × (w.transition_count ≡ 6)
    × (w.metrics.events_emitted ≡ 2)
    × (w.metrics.events_dropped ≡ 1)
    × (w.capture_closes ≡ 1)
unfolding run perform new_worker begin_start begin_stop make_capture make_pipeline begin_running
    capture_step analytics_step queue_event take_event end_emit finish advance call_aclose
    end_aclose settle_event_task await_event_task conclude close_capture_once moved transition
    transition_if ◌then_do◌ resolve_started reject_started record_failure count_frame drop_event
    count_emit Buffer.put Buffer.append_frame Buffer.clear keep_last task_error
stops_in_order = (refl, refl, refl, refl, refl)

run-HasPath_example :
    HasPath no_patterns any_frame (run no_patterns any_frame one_run (new_worker "gate" 1 2 2 3 0))
run-HasPath_example = run-HasPath no_patterns any_frame one_run "gate" 1 2 2 3 0

run-IsBounded_example : IsBounded (run no_patterns any_frame one_run (new_worker "gate" 1 2 2 3 0))
run-IsBounded_example = run-IsBounded no_patterns any_frame one_run "gate" 1 2 2 3 0

run-ClosesOnce_example :
    ClosesOnce (run no_patterns any_frame one_run (new_worker "gate" 1 2 2 3 0))
run-ClosesOnce_example = run-ClosesOnce no_patterns any_frame one_run "gate" 1 2 2 3 0

-- A worker in the middle of a run that has been told to stop.
abbrev told : Worker ℕ
told = record (new_worker "gate" 1 2 2 3 0) {
  state = stopping;
  capture = true;
  pipeline = true;
  started = Started.resolved;
  stop_event = true;
  event_queue = count_event ∷ count_event ∷ [];
  event_task = EventTask.alive;
}

run-StaysStopped_example :
    StaysStopped told (run no_patterns any_frame (Action.captures (some 7) false 3 ∷ one_run) told)
run-StaysStopped_example =
    run-StaysStopped no_patterns any_frame told (Action.captures (some 7) false 3 ∷ one_run) refl

-- The capture does not close, a task was lost, `aclose` fails, and so does the sink.
abbrev failed_ending : List (Action ℕ)
failed_ending =
    ending none (some (other "busy")) (other "lost" ∷ []) (PipelineClose.close_fails (other "gpu"))
      (some (other "late")) (λ event. some (other "sink")) 9 told

ending-HasEnded_example : HasEnded no_patterns (run no_patterns any_frame failed_ending told)
unfolding new_worker
ending-HasEnded_example =
    ending-HasEnded no_patterns any_frame none (some (other "busy")) (other "lost" ∷ [])
      (PipelineClose.close_fails (other "gpu")) (some (other "late")) (λ event. some (other "sink"))
      9 told refl refl refl

-- A task of the events that was cancelled: the run ends without a last transition.
stays_in_stopping :
    let w =
      run no_patterns any_frame
        (Action.takes
          ∷ Action.ends_event_task none
          ∷ Action.finishes (Stretch.begins_ending none none) 9
          ∷ Action.finishes (Stretch.collects []) 9
          ∷ Action.finishes (Stretch.closes_pipeline PipelineClose.closes) 9
          ∷ [])
        told in
    (w.state ≡ stopping) × (w.phase ≡ Phase.interrupted) × (w.event_queue ≡ count_event ∷ [])
unfolding run perform take_event end_event_task finish advance call_aclose end_aclose
    settle_event_task close_capture_once new_worker
stays_in_stopping = (refl, refl, refl)

abbrev gate_callback : CallbackEvent
gate_callback = record {
  event_type = some "count";
  timestamp = some 5;
  track_id = none;
  zone_id = some "gate";
  payload = some (Fields.field (some "count_in") (Value.integer (pos 3)) Fields.end);
}

abbrev gate_routed : RoutedAnalyticsEvent
gate_routed = record {
  camera_id = "gate";
  generation = 1;
  event_type = "count";
  timestamp = 5;
  track_id = none;
  zone_id = some "gate";
  payload = FrozenPayload.field "count_in" (FrozenValue.integer (pos 3)) FrozenPayload.end;
  accepted_at = 6;
}
