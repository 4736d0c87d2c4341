-- ===== src/Orchestration/Worker/Snapshot.antt =====
-- `CameraStatus.to_dict` and `CameraStatus.from_dict` of models.py. The conversions of Python's
-- standard library are an interface with the laws that they document; the frame rate, which
-- `CameraStatus` leaves out, goes beside it.
pub mod RoundTrip
mod Tests
use real_time_surveillance_a.Base.{
  ℕ, zero, suc, ◌+◌, ◌-◌, ◌*◌, ◌/◌, ◌%◌, ◌≤◌, ◌<◌, min, max, String, ◌≡◌, refl, sym, ap, ◌∙◌, subst,
  ◌≢◌, ◌↔◌, ◌⊎◌, inl, inr, Bool, true, false, not, ◌&&◌, ◌||◌, Option, none, some, List, [], ◌∷◌,
  ◌++◌, map, arith, ltb, leb, if◌then◌else◌, Bool-cases, if_elim, Option-cases, is_some, Comparable,
  ◌==◌, ==_refl, comparable_nat, comparable_text, comparable_pair, length, length-append, last?,
  last?-snoc, keep_last, length-keep_last, keep_last-short, keep_last-snoc, keep_last-append, All,
  All-append, All-keep_last, All-map, keep_if, any_of, count_if, contains, Result, ok, err, ◌>>=◌,
  ◌>>◌, raise_if, is_ok, Result-cases, Ensures, Ensures-bind, ℤ, pos, negsuc, is_negative,
}
use real_time_surveillance_a.Dict.{Dict, lookup}
use real_time_surveillance_a.Orchestration.Errors.{
  FailureCategory, configuration, capacity, capture, model, pipeline, callback, sink, scheduler,
  shutdown, internal,
}
use real_time_surveillance_a.Orchestration.States.{
  WorkerState, stopped, starting, running, reconnecting, stopping, failed, CameraHealth, healthy,
  degraded, broken,
}
use real_time_surveillance_a.Orchestration.Worker.Record.{CameraStatus, CameraMetrics}

pub data Value (F : Type 0) : Type 0 where
  null : Value F
  string : String → Value F
  number : ℕ → Value F
  real : F → Value F
  truth : Bool → Value F

-- `str`, `int`, `float`, `bool` and the test of an `if`, where `none` stands for an exception.
-- `fromisoformat` gives no time when the text has no time zone.
pub record Conversions (F : Type 0) : Type 0 where
  pub str : Value F → String
  pub int : Value F → Option ℕ
  pub float : Value F → Option F
  pub bool : Value F → Bool
  pub isoformat : ℕ → String
  pub fromisoformat : Value F → Option (Option ℕ)
  pub str-string : (s : String) → str (string s) ≡ s
  pub int-number : (n : ℕ) → int (number n) ≡ some n
  pub float-real : (x : F) → float (real x) ≡ some x
  pub bool-truth : (b : Bool) → bool (truth b) ≡ b
  pub bool-null : bool null ≡ false
  pub bool-string : (s : String) → bool (string s) ≡ not (s == "")
  pub fromisoformat-isoformat : (t : ℕ) → fromisoformat (string (isoformat t)) ≡ some (some t)
  pub isoformat-empty : (t : ℕ) → (isoformat t == "") ≡ false

pub data StatusError : Type 0 where
  missing invalid naive : String → StatusError

unfoldable pub state_value : WorkerState → String
state_value stopped = "stopped"
state_value starting = "starting"
state_value running = "running"
state_value reconnecting = "reconnecting"
state_value stopping = "stopping"
state_value failed = "failed"

unfoldable pub health_value : CameraHealth → String
health_value healthy = "ok"
health_value degraded = "degraded"
health_value broken = "failed"

unfoldable pub category_value : FailureCategory → String
category_value configuration = "configuration"
category_value capacity = "capacity"
category_value capture = "capture"
category_value model = "model"
category_value pipeline = "pipeline"
category_value callback = "callback"
category_value sink = "sink"
category_value scheduler = "scheduler"
category_value shutdown = "shutdown"
category_value internal = "internal"

-- The member of an enumeration with that value.
unfoldable pub member : {A : Type 0} → (A → String) → List A → String → Option A
member value_of [] s = none
member value_of (a ∷ rest) s = if value_of a == s then some a else member value_of rest s

abbrev states : List WorkerState
states = stopped ∷ starting ∷ running ∷ reconnecting ∷ stopping ∷ failed ∷ []

abbrev healths : List CameraHealth
healths = healthy ∷ degraded ∷ broken ∷ []

abbrev categories : List FailureCategory
categories =
    configuration ∷ capacity ∷ capture ∷ model ∷ pipeline ∷ callback ∷ sink ∷ scheduler ∷ shutdown
    ∷ internal ∷ []

module _ {F : Type 0} (python : Conversions F) where
  open python use {str, int, float, bool, isoformat, fromisoformat}

  unfoldable pub time_value : Option ℕ → Value F
  time_value none = null
  time_value (some t) = string (isoformat t)

  unfoldable pub optional_text : Option String → Value F
  optional_text none = null
  optional_text (some s) = string s

  unfoldable pub optional_category : Option FailureCategory → Value F
  optional_category none = null
  optional_category (some c) = string (category_value c)

  unfoldable pub to_dict : CameraStatus → F → Dict String (Value F)
  to_dict s processing_fps =
      ("camera_id", string s.camera_id)
      ∷ ("generation", number s.generation)
      ∷ ("lifecycle_state", string (state_value s.lifecycle_state))
      ∷ ("health", string (health_value s.health))
      ∷ ("is_running", truth s.is_running)
      ∷ ("updated_at", string (isoformat s.updated_at))
      ∷ ("last_frame_at", time_value s.metrics.last_frame_at)
      ∷ ("last_event_at", time_value s.metrics.last_event_at)
      ∷ ("last_processed_at", time_value s.metrics.last_processed_at)
      ∷ ("failure_category", optional_category s.failure_category)
      ∷ ("error_summary", optional_text s.error_summary)
      ∷ ("reconnect_count", number s.metrics.reconnect_count)
      ∷ ("processing_fps", real processing_fps)
      ∷ ("frame_buffer_size", number s.frame_buffer_size)
      ∷ ("frame_buffer_capacity", number s.frame_buffer_capacity)
      ∷ ("event_queue_size", number s.event_queue_size)
      ∷ ("event_queue_capacity", number s.event_queue_capacity)
      ∷ ("callback_backlog", number s.callback_backlog)
      ∷ ("dropped_event_count", number s.metrics.events_dropped)
      ∷ ("frames_captured", number s.metrics.frames_captured)
      ∷ ("frames_processed", number s.metrics.frames_processed)
      ∷ ("capture_failures", number s.metrics.capture_failures)
      ∷ ("events_emitted", number s.metrics.events_emitted)
      ∷ ("event_sink_failures", number s.metrics.event_sink_failures)
      ∷ ("worker_failures", number s.metrics.worker_failures)
      ∷ ("transition_count", number s.transition_count)
      ∷ []

  -- `value[name]`, converted.
  unfoldable pub required :
      {X : Type 0} → (Value F → Option X) → String → Option (Value F) → Result StatusError X
  required convert name none = err (missing name)
  required convert name (some v) = elim (convert v) [ none ↦ err (invalid name) | some x ↦ ok x ]

  unfoldable pub aware : String → Option (Option ℕ) → Result StatusError ℕ
  aware name none = err (invalid name)
  aware name (some none) = err (naive name)
  aware name (some (some t)) = ok t

  unfoldable pub required_time : String → Option (Value F) → Result StatusError ℕ
  unfolding aware
  required_time name none = err (missing name)
  required_time name (some v) = aware name (fromisoformat v)

  unfoldable pub parsed : String → Option (Value F) → Result StatusError (Option ℕ)
  unfolding aware
  parsed name none = ok none
  parsed name (some v) =
      if bool v then (do t ← aware name (fromisoformat v); ok (some t)) else ok none

  unfoldable pub enumerated : {A : Type 0} → (A → String) → List A → Value F → Option A
  unfolding member
  enumerated value_of all (string s) = member value_of all s
  enumerated value_of all _ = none

  unfoldable pub read_category : Option (Value F) → Result StatusError (Option FailureCategory)
  unfolding enumerated
  read_category none = ok none
  read_category (some v) =
      if bool v
      then (do
        c ← required (enumerated category_value categories) "failure_category" (some v)
        ok (some c))
      else ok none

  -- A summary of another type than text would be kept as it is; here it is absent.
  unfoldable pub read_text : Option (Value F) → Option String
  read_text (some (string s)) = some s
  read_text _ = none

  unfoldable pub from_dict : Dict String (Value F) → Result StatusError (CameraStatus × F)
  unfolding required required_time parsed enumerated read_category read_text
  from_dict d = do
    camera_id ← required (λ v. some (str v)) "camera_id" (lookup "camera_id" d)
    generation ← required int "generation" (lookup "generation" d)
    lifecycle_state ←
        required (enumerated state_value states) "lifecycle_state" (lookup "lifecycle_state" d)
    health ← required (enumerated health_value healths) "health" (lookup "health" d)
    is_running ← required (λ v. some (bool v)) "is_running" (lookup "is_running" d)
    updated_at ← required_time "updated_at" (lookup "updated_at" d)
    last_frame_at ← parsed "last_frame_at" (lookup "last_frame_at" d)
    last_event_at ← parsed "last_event_at" (lookup "last_event_at" d)
    last_processed_at ← parsed "last_processed_at" (lookup "last_processed_at" d)
    failure_category ← read_category (lookup "failure_category" d)
    reconnect_count ← required int "reconnect_count" (lookup "reconnect_count" d)
    processing_fps ← required float "processing_fps" (lookup "processing_fps" d)
    frame_buffer_size ← required int "frame_buffer_size" (lookup "frame_buffer_size" d)
    frame_buffer_capacity ← required int "frame_buffer_capacity" (lookup "frame_buffer_capacity" d)
    event_queue_size ← required int "event_queue_size" (lookup "event_queue_size" d)
    event_queue_capacity ← required int "event_queue_capacity" (lookup "event_queue_capacity" d)
    callback_backlog ← required int "callback_backlog" (lookup "callback_backlog" d)
    events_dropped ← required int "dropped_event_count" (lookup "dropped_event_count" d)
    frames_captured ← required int "frames_captured" (lookup "frames_captured" d)
    frames_processed ← required int "frames_processed" (lookup "frames_processed" d)
    capture_failures ← required int "capture_failures" (lookup "capture_failures" d)
    events_emitted ← required int "events_emitted" (lookup "events_emitted" d)
    event_sink_failures ← required int "event_sink_failures" (lookup "event_sink_failures" d)
    worker_failures ← required int "worker_failures" (lookup "worker_failures" d)
    transition_count ← required int "transition_count" (lookup "transition_count" d)
    let metrics : CameraMetrics = record {
      frames_captured = frames_captured;
      frames_processed = frames_processed;
      capture_failures = capture_failures;
      events_emitted = events_emitted;
      events_dropped = events_dropped;
      event_sink_failures = event_sink_failures;
      worker_failures = worker_failures;
      reconnect_count = reconnect_count;
      last_frame_at = last_frame_at;
      last_processed_at = last_processed_at;
      last_event_at = last_event_at;
    }
    let status : CameraStatus = record {
      camera_id = camera_id;
      generation = generation;
      lifecycle_state = lifecycle_state;
      health = health;
      is_running = is_running;
      updated_at = updated_at;
      failure_category = failure_category;
      error_summary = read_text (lookup "error_summary" d);
      metrics = metrics;
      frame_buffer_size = frame_buffer_size;
      frame_buffer_capacity = frame_buffer_capacity;
      event_queue_size = event_queue_size;
      event_queue_capacity = event_queue_capacity;
      callback_backlog = callback_backlog;
      transition_count = transition_count;
    }
    ok (status, processing_fps)
