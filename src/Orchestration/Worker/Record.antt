-- ===== src/Orchestration/Worker/Record.antt =====
-- The state of `CameraWorker`.
use real_time_surveillance_a.Base.{
  ℕ, String, Bool, false, ◌||◌, Option, none, some, List, [], ltb, if◌then◌else◌, is_some,
  comparable_nat, comparable_text, comparable_pair, length, Result, ok, ◌>>◌, raise_if,
}
use real_time_surveillance_a.Streaming.Buffer.{FrameBuffer}
use real_time_surveillance_a.Orchestration.Errors.{
  OrchestrationFailure, OrchestrationError, FailureCategory, Raised,
}
use real_time_surveillance_a.Orchestration.States.{
  WorkerState, stopped, failed, CameraHealth, healthy, degraded, broken, is_running, is_state,
}
use real_time_surveillance_a.Orchestration.Payload.{FrozenPayload}

pub record CameraMetrics : Type 0 where
  pub frames_captured : ℕ
  pub frames_processed : ℕ
  pub capture_failures : ℕ
  pub events_emitted : ℕ
  pub events_dropped : ℕ
  pub event_sink_failures : ℕ
  pub worker_failures : ℕ
  pub reconnect_count : ℕ
  pub last_frame_at : Option ℕ
  pub last_processed_at : Option ℕ
  pub last_event_at : Option ℕ

abbrev pub no_metrics : CameraMetrics
no_metrics = record {
  frames_captured = 0;
  frames_processed = 0;
  capture_failures = 0;
  events_emitted = 0;
  events_dropped = 0;
  event_sink_failures = 0;
  worker_failures = 0;
  reconnect_count = 0;
  last_frame_at = none;
  last_processed_at = none;
  last_event_at = none;
}

pub record StateTransition : Type 0 where
  pub previous : WorkerState
  pub current : WorkerState
  pub timestamp : ℕ
  pub reason : Option String

pub record RoutedAnalyticsEvent : Type 0 where
  pub camera_id : String
  pub generation : ℕ
  pub event_type : String
  pub timestamp : ℕ
  pub track_id : Option ℕ
  pub zone_id : Option String
  pub payload : FrozenPayload
  pub accepted_at : ℕ

-- The future that `start` waits for.
pub data Started : Type 0 where
  absent pending resolved : Started
  rejected : OrchestrationError → Started

pub data ArgumentError : Type 0 where
  generation_not_positive transition_history_size_not_positive : ArgumentError

-- The task of `_dispatch_events`: not created yet, alive, at its end (perhaps by an error), or
-- cancelled.
pub data EventTask : Type 0 where
  not_started alive cancelled : EventTask
  ended : Option Raised → EventTask

-- How far the `finally` block of `_run` has come: before it, at the await of `gather`, at that of
-- `aclose` or past it without a call, at that of `join`, at that of the task of the events, ready
-- to publish the end, past it, or left by an exception.
pub data Phase : Type 0 where
  before_end gathering closing_pipeline skipping_pipeline joining awaiting_events : Phase
  concluding over interrupted : Phase

pub record Worker (A : Type 0) : Type 0 where
  pub camera_id : String
  pub generation : ℕ
  pub frame_buffer : FrameBuffer A
  pub event_queue_size : ℕ
  pub transition_history_size : ℕ
  pub transitions : List StateTransition
  pub transition_count : ℕ
  pub state : WorkerState
  pub metrics : CameraMetrics
  pub updated_at : ℕ
  pub failure : Option OrchestrationFailure
  pub shutdown_failures : List OrchestrationFailure
  pub stop_event : Bool
  pub accepting_events : Bool
  pub active_callbacks : ℕ
  pub event_queue : List RoutedAnalyticsEvent
  pub capture : Bool
  pub pipeline : Bool
  pub capture_closed : Bool
  pub pipeline_closed : Bool
  pub capture_closes : ℕ
  pub pipeline_closes : ℕ
  pub started : Started
  -- Locals of the tasks: the event whose `emit` is awaited, and what `_run` holds.
  pub in_flight : Option RoutedAnalyticsEvent
  pub event_task : EventTask
  pub phase : Phase
  pub terminal_error : Option OrchestrationError

pub record CameraStatus : Type 0 where
  pub camera_id : String
  pub generation : ℕ
  pub lifecycle_state : WorkerState
  pub health : CameraHealth
  pub is_running : Bool
  pub updated_at : ℕ
  pub failure_category : Option FailureCategory
  pub error_summary : Option String
  pub metrics : CameraMetrics
  pub frame_buffer_size : ℕ
  pub frame_buffer_capacity : ℕ
  pub event_queue_size : ℕ
  pub event_queue_capacity : ℕ
  pub callback_backlog : ℕ
  pub transition_count : ℕ

module _ {A : Type 0} where
  -- The fields that `CameraWorker.__init__` sets, for a definition that has been validated.
  unfoldable pub new_worker : String → ℕ → ℕ → ℕ → ℕ → ℕ → Worker A
  new_worker camera_id generation buffer_size queue_size history_size now = record {
    camera_id = camera_id;
    generation = generation;
    frame_buffer = record { maxsize = buffer_size; frames = []; sequence = 0 };
    event_queue_size = queue_size;
    transition_history_size = history_size;
    transitions = [];
    transition_count = 0;
    state = stopped;
    metrics = no_metrics;
    updated_at = now;
    failure = none;
    shutdown_failures = [];
    stop_event = false;
    accepting_events = false;
    active_callbacks = 0;
    event_queue = [];
    capture = false;
    pipeline = false;
    capture_closed = false;
    pipeline_closed = false;
    capture_closes = 0;
    pipeline_closes = 0;
    started = absent;
    in_flight = none;
    event_task = not_started;
    phase = before_end;
    terminal_error = none;
  }

  -- The constructor with its two checks.
  unfoldable pub construct : String → ℕ → ℕ → ℕ → ℕ → ℕ → Result ArgumentError (Worker A)
  unfolding new_worker
  construct camera_id generation buffer_size queue_size history_size now = do
    raise_if (ltb generation 1) generation_not_positive
    raise_if (ltb history_size 1) transition_history_size_not_positive
    ok (new_worker camera_id generation buffer_size queue_size history_size now)

  unfoldable pub health : Worker A → CameraHealth
  health w =
      if is_state w.state failed
      then broken
      else if is_some w.failure || ltb 0 w.metrics.event_sink_failures
      then degraded
      else healthy

  unfoldable pub status : Worker A → CameraStatus
  unfolding health
  status w = record {
    camera_id = w.camera_id;
    generation = w.generation;
    lifecycle_state = w.state;
    health = health w;
    is_running = is_running w.state;
    updated_at = w.updated_at;
    failure_category = elim w.failure [ none ↦ none | some f ↦ some f.category ];
    error_summary = elim w.failure [ none ↦ none | some f ↦ some f.summary ];
    metrics = w.metrics;
    frame_buffer_size = length w.frame_buffer.frames;
    frame_buffer_capacity = w.frame_buffer.maxsize;
    event_queue_size = length w.event_queue;
    event_queue_capacity = w.event_queue_size;
    callback_backlog = w.active_callbacks;
    transition_count = w.transition_count;
  }
