-- ===== src/Orchestration/Worker/Shutdown.antt =====
-- How a run of a worker ends, and what holds after the order to stop.
use real_time_surveillance_a.Base.{
  ℕ, String, ◌≡◌, refl, Bool, true, false, Option, List, arith, comparable_nat, comparable_text,
  comparable_pair, Result,
}
use real_time_surveillance_a.Orchestration.Errors.{OrchestrationError, Raised, Patterns}
use real_time_surveillance_a.Orchestration.Worker.Record.{RoutedAnalyticsEvent, Worker, new_worker}
use real_time_surveillance_a.Orchestration.Worker.Lifecycle.{
  moved, record_failure, close_capture_once, count_frame, analytics_step, queue_event, drop_event,
  take_event, count_emit, end_emit, end_event_task,
}
use real_time_surveillance_a.Orchestration.Worker.Finish.{
  PipelineClose, Stretch, call_aclose, end_aclose, settle_event_task, await_event_task, advance,
}
use real_time_surveillance_a.Orchestration.Worker.Actions.{Action, run, run_induction}
use real_time_surveillance_a.Orchestration.Worker.Invariants.{Keeps, Allows, perform-keeps}

abbrev pub as_count : Bool → ℕ
as_count true = 1
as_count false = 0

module _ {A : Type 0} where
  -- `close` was called once on what counts as closed, and never on anything else.
  abbrev pub ClosesOnce : Worker A → Type 0
  ClosesOnce w =
      (w.capture_closes ≡ as_count w.capture_closed)
      × (w.pipeline_closes ≡ as_count w.pipeline_closed)

  module _ (re : Patterns) (is_frame : A → Bool) where
    advance-ClosesOnce :
        (stretch : Stretch) (w : Worker A) → ClosesOnce w → ClosesOnce (advance re stretch w)
    unfolding advance call_aclose end_aclose settle_event_task await_event_task close_capture_once
    advance-ClosesOnce (Stretch.begins_ending terminal closing) w h = ground arith
    advance-ClosesOnce (Stretch.collects errors) w h = ground arith
    advance-ClosesOnce (Stretch.closes_pipeline PipelineClose.closes) w h = ground arith
    advance-ClosesOnce (Stretch.closes_pipeline (PipelineClose.callback_fails error)) w h =
        ground arith
    advance-ClosesOnce (Stretch.closes_pipeline (PipelineClose.close_fails error)) w h =
        ground arith
    advance-ClosesOnce Stretch.joins w h = ground arith
    advance-ClosesOnce Stretch.stops_event_task w h = ground arith
    advance-ClosesOnce Stretch.awaits_event_task w h = ground arith
    advance-ClosesOnce Stretch.is_interrupted w h = ground arith

    end_event_task-ClosesOnce :
        (raised : Option Raised) (w : Worker A)
        → ClosesOnce w
        → ClosesOnce (end_event_task re raised w)
    unfolding end_event_task
    end_event_task-ClosesOnce raised w h = ground arith

    queue_event-ClosesOnce :
        (routed : Result OrchestrationError RoutedAnalyticsEvent) (w : Worker A)
        → ClosesOnce w
        → ClosesOnce (queue_event routed w).1
    unfolding queue_event record_failure drop_event
    queue_event-ClosesOnce routed w h = ground arith

    ClosesOnce-Keeps : Keeps re is_frame ClosesOnce
    unfolding moved record_failure count_frame analytics_step take_event end_emit count_emit
        close_capture_once
    ClosesOnce-Keeps = record {
      keeps_lifecycle = record {
        keeps_moved = λ state reason now w h. h;
        keeps_started = λ s w h. h;
        keeps_failure = λ e w h. h;
      };
      keeps_created = λ w h. h;
      keeps_shut = λ w h. h;
      keeps_capture = λ w h. h;
      keeps_pipeline = λ w h. h;
      keeps_frame = λ now sequence frame b w s good h. h;
      keeps_missing = λ w h. h;
      keeps_retry = λ w h. h;
      keeps_analysed = λ analysed now w h. ground arith;
      keeps_take = λ w h. ground arith;
      keeps_emit = λ emitting w h. ground arith;
      keeps_close_capture = λ closing w h. ground arith;
      keeps_cleared = λ w e h. h;
    }

    Allows-ClosesOnce : (action : Action A) (w : Worker A) → Allows re is_frame ClosesOnce action w
    Allows-ClosesOnce (Action.queues routed) w = queue_event-ClosesOnce routed w
    Allows-ClosesOnce (Action.ends_event_task raised) w = end_event_task-ClosesOnce raised w
    Allows-ClosesOnce (Action.finishes stretch now) w = advance-ClosesOnce stretch w
    Allows-ClosesOnce (Action.begins_start now) w = tt
    Allows-ClosesOnce (Action.begins_stop done closing now) w = tt
    Allows-ClosesOnce (Action.makes_capture making) w = tt
    Allows-ClosesOnce (Action.makes_pipeline making) w = tt
    Allows-ClosesOnce (Action.begins_running now) w = tt
    Allows-ClosesOnce (Action.captures read is_reconnecting now) w = tt
    Allows-ClosesOnce (Action.analyses analysed now) w = tt
    Allows-ClosesOnce Action.takes w = tt
    Allows-ClosesOnce (Action.emits emitting) w = tt

    -- Whatever schedule of actions a new worker goes through, the capture and the pipeline are
    -- each closed at most once, and exactly once when the worker counts them as closed.
    pub run-ClosesOnce :
        (actions : List (Action A)) (camera_id : String) (generation buffer queue history now : ℕ)
        → ClosesOnce
            (run re is_frame actions (new_worker camera_id generation buffer queue history now))
    unfolding new_worker
    run-ClosesOnce actions camera_id generation buffer queue history now =
        run_induction re is_frame ClosesOnce
          (λ action w h.
            perform-keeps re is_frame ClosesOnce ClosesOnce-Keeps action w
              (Allows-ClosesOnce action w) h)
          actions _ (refl, refl)
