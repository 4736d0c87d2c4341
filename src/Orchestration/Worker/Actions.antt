-- ===== src/Orchestration/Worker/Actions.antt =====
-- Every stretch of `CameraWorker` as one action, and schedules of actions: whatever order the
-- event loop runs the tasks in, and whatever the callers do, is such a schedule.
use real_time_surveillance_a.Base.{
  ℕ, Bool, Option, List, [], ◌∷◌, comparable_nat, comparable_text, comparable_pair, Result,
}
use real_time_surveillance_a.Orchestration.Errors.{OrchestrationError, Raised, Patterns}
use real_time_surveillance_a.Orchestration.Worker.Record.{RoutedAnalyticsEvent, Worker}
use real_time_surveillance_a.Orchestration.Worker.Lifecycle.{
  begin_start, begin_stop, make_capture, make_pipeline, begin_running, capture_step, analytics_step,
  queue_event, take_event, end_emit, end_event_task,
}
use real_time_surveillance_a.Orchestration.Worker.Finish.{Stretch, finish}

pub data Action (A : Type 0) : Type 0 where
  begins_start : ℕ → Action A
  begins_stop : Bool → Option Raised → ℕ → Action A
  makes_capture makes_pipeline : Option Raised → Action A
  begins_running : ℕ → Action A
  captures : Option A → Bool → ℕ → Action A
  analyses : Bool → ℕ → Action A
  queues : Result OrchestrationError RoutedAnalyticsEvent → Action A
  takes : Action A
  emits ends_event_task : Option Raised → Action A
  finishes : Stretch → ℕ → Action A

module _ {A : Type 0} (re : Patterns) (is_frame : A → Bool) where
  unfoldable pub perform : Action A → Worker A → Worker A
  perform (begins_start now) w = (begin_start re now w).1
  perform (begins_stop done closing now) w = (begin_stop re done closing now w).1
  perform (makes_capture making) w = (make_capture re making w).1
  perform (makes_pipeline making) w = (make_pipeline re making w).1
  perform (begins_running now) w = (begin_running re now w).1
  perform (captures read is_reconnecting now) w =
      (capture_step re is_frame read is_reconnecting now w).1
  perform (analyses analysed now) w = analytics_step analysed now w
  perform (queues routed) w = (queue_event routed w).1
  perform takes w = take_event re w
  perform (emits emitting) w = end_emit re emitting w
  perform (ends_event_task raised) w = end_event_task re raised w
  perform (finishes stretch now) w = (finish re stretch now w).1

  unfoldable pub run : List (Action A) → Worker A → Worker A
  unfolding perform
  run [] w = w
  run (action ∷ actions) w = run actions (perform action w)

  -- An invariant of every action is one of every schedule.
  pub run_induction {ℓ} :
      (P : Worker A → Type ℓ)
      → ((action : Action A) (w : Worker A) → P w → P (perform action w))
      → (actions : List (Action A)) (w : Worker A) → P w
      → P (run actions w)
  unfolding run
  run_induction P keep [] w h = h
  run_induction P keep (action ∷ actions) w h =
      run_induction P keep actions (perform action w) (keep action w h)
