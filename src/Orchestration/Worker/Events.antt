-- ===== src/Orchestration/Worker/Events.antt =====
-- The bounded memory of a worker, and where the events that are offered to it go.
use real_time_surveillance_a.Base.{
  ℕ, suc, ◌≤◌, String, ◌≡◌, Bool, Option, List, [], ◌∷◌, ◌++◌, arith, comparable_nat,
  comparable_text, comparable_pair, length, length-append, length-keep_last, Result, ok, err,
}
use real_time_surveillance_a.Streaming.Buffer
use real_time_surveillance_a.Streaming.Buffer.{FrameBuffer}
use real_time_surveillance_a.Orchestration.Errors.{OrchestrationError, Raised, Patterns}
use real_time_surveillance_a.Orchestration.Worker.Record.{RoutedAnalyticsEvent, Worker, new_worker}
use real_time_surveillance_a.Orchestration.Worker.Lifecycle.{
  moved, record_failure, close_capture_once, count_frame, analytics_step, queue_event, drop_event,
  take_event, count_emit, end_emit, end_event_task,
}
use real_time_surveillance_a.Orchestration.Worker.Finish.{
  PipelineClose, Stretch, call_aclose, end_aclose, settle_event_task, await_event_task, advance,
}
use real_time_surveillance_a.Orchestration.Worker.Actions.{Action, run, run_induction}
use real_time_surveillance_a.Orchestration.Worker.Invariants.{Keeps, Allows, perform-keeps}

module _ {A : Type 0} where
  abbrev pub IsBounded : Worker A → Type 0
  IsBounded w =
      (length w.event_queue ≤ w.event_queue_size)
      × (length w.frame_buffer.frames ≤ w.frame_buffer.maxsize)
      × (length w.transitions ≤ w.transition_history_size)

  put-fits :
      (is_frame : A → Bool) (b b' : FrameBuffer A) (frame : A) (sequence : ℕ)
      → Buffer.put is_frame b frame ≡ ok (sequence, b')
      → length b'.frames ≤ b'.maxsize
  unfolding Buffer.put Buffer.append_frame
  put-fits is_frame b b' frame sequence good =
      ground (arith, length-keep_last b.maxsize (b.frames ++ (suc b.sequence, frame) ∷ []))

  module _ (re : Patterns) (is_frame : A → Bool) where
    advance-IsBounded :
        (stretch : Stretch) (w : Worker A) → IsBounded w → IsBounded (advance re stretch w)
    unfolding advance call_aclose end_aclose settle_event_task await_event_task close_capture_once
    advance-IsBounded (Stretch.begins_ending terminal closing) w h = ground arith
    advance-IsBounded (Stretch.collects errors) w h = ground arith
    advance-IsBounded (Stretch.closes_pipeline PipelineClose.closes) w h = ground arith
    advance-IsBounded (Stretch.closes_pipeline (PipelineClose.callback_fails error)) w h =
        ground arith
    advance-IsBounded (Stretch.closes_pipeline (PipelineClose.close_fails error)) w h = ground arith
    advance-IsBounded Stretch.joins w h = ground arith
    advance-IsBounded Stretch.stops_event_task w h = ground arith
    advance-IsBounded Stretch.awaits_event_task w h = ground arith
    advance-IsBounded Stretch.is_interrupted w h = ground arith

    end_event_task-IsBounded :
        (raised : Option Raised) (w : Worker A)
        → IsBounded w
        → IsBounded (end_event_task re raised w)
    unfolding end_event_task
    end_event_task-IsBounded raised w h = ground arith

    queue_event-IsBounded :
        (routed : Result OrchestrationError RoutedAnalyticsEvent) (w : Worker A)
        → IsBounded w
        → IsBounded (queue_event routed w).1
    unfolding queue_event record_failure drop_event
    queue_event-IsBounded (err error) w h = ground arith
    queue_event-IsBounded (ok event) w h = ground (arith, length-append w.event_queue (event ∷ []))

    IsBounded-Keeps : Keeps re is_frame IsBounded
    unfolding moved record_failure count_frame analytics_step take_event end_emit count_emit
        close_capture_once Buffer.clear
    IsBounded-Keeps = record {
      keeps_lifecycle = record {
        keeps_moved =
            λ state reason now w h. (h.0, h.1, length-keep_last w.transition_history_size _);
        keeps_started = λ s w h. h;
        keeps_failure = λ e w h. h;
      };
      keeps_created = λ w h. h;
      keeps_shut = λ w h. h;
      keeps_capture = λ w h. h;
      keeps_pipeline = λ w h. h;
      keeps_frame = λ now sequence frame b w s good h.
          (h.0, put-fits is_frame w.frame_buffer b frame sequence good, h.2);
      keeps_missing = λ w h. h;
      keeps_retry = λ w h. h;
      keeps_analysed = λ analysed now w h. ground arith;
      keeps_take = λ w h. ground arith;
      keeps_emit = λ emitting w h. ground arith;
      keeps_close_capture = λ closing w h. ground arith;
      keeps_cleared = λ w e h. (h.0, omega arith, h.2);
    }

    Allows-IsBounded : (action : Action A) (w : Worker A) → Allows re is_frame IsBounded action w
    Allows-IsBounded (Action.queues routed) w = queue_event-IsBounded routed w
    Allows-IsBounded (Action.ends_event_task raised) w = end_event_task-IsBounded raised w
    Allows-IsBounded (Action.finishes stretch now) w = advance-IsBounded stretch w
    Allows-IsBounded (Action.begins_start now) w = tt
    Allows-IsBounded (Action.begins_stop done closing now) w = tt
    Allows-IsBounded (Action.makes_capture making) w = tt
    Allows-IsBounded (Action.makes_pipeline making) w = tt
    Allows-IsBounded (Action.begins_running now) w = tt
    Allows-IsBounded (Action.captures read is_reconnecting now) w = tt
    Allows-IsBounded (Action.analyses analysed now) w = tt
    Allows-IsBounded Action.takes w = tt
    Allows-IsBounded (Action.emits emitting) w = tt

    -- Whatever schedule of actions a new worker goes through, its queue of events, its frames and
    -- its recorded transitions stay within the sizes that it holds for them.
    pub run-IsBounded :
        (actions : List (Action A)) (camera_id : String) (generation buffer queue history now : ℕ)
        → IsBounded
            (run re is_frame actions (new_worker camera_id generation buffer queue history now))
    unfolding new_worker
    run-IsBounded actions camera_id generation buffer queue history now =
        run_induction re is_frame IsBounded
          (λ action w h.
            perform-keeps re is_frame IsBounded IsBounded-Keeps action w (Allows-IsBounded action w)
              h)
          actions _ (omega arith, omega arith, omega arith)
