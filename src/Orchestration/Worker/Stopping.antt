-- ===== src/Orchestration/Worker/Stopping.antt =====
-- What holds of a worker after the order to stop.
use real_time_surveillance_a.Base.{
  ◌≡◌, refl, sym, ap, ◌∙◌, ◌⊎◌, inl, inr, Bool, true, not, ◌&&◌, Option, List, [], ◌∷◌, ◌++◌, arith,
  if_elim, is_some, comparable_nat, comparable_text, comparable_pair, Result,
}
use real_time_surveillance_a.Streaming.Buffer
use real_time_surveillance_a.Orchestration.Errors.{OrchestrationError, Raised, Patterns}
use real_time_surveillance_a.Orchestration.Worker.Record.{RoutedAnalyticsEvent, Worker}
use real_time_surveillance_a.Orchestration.Worker.Lifecycle.{
  moved, record_failure, is_alive, close_capture_once, count_frame, analytics_step, queue_event,
  drop_event, take_event, count_emit, end_emit, end_event_task,
}
use real_time_surveillance_a.Orchestration.Worker.Finish.{
  PipelineClose, Stretch, call_aclose, end_aclose, settle_event_task, await_event_task, advance,
}
use real_time_surveillance_a.Orchestration.Worker.Actions.{Action, run, run_induction}
use real_time_surveillance_a.Orchestration.Worker.Invariants.{Keeps, Allows, perform-keeps}

-- What is left of a queue of which only the front was taken.
abbrev pub IsRest : List RoutedAnalyticsEvent → List RoutedAnalyticsEvent → Type 0
IsRest rest events = (taken : List RoutedAnalyticsEvent) × (events ≡ taken ++ rest)

IsRest-tail :
    (event : RoutedAnalyticsEvent) (rest events : List RoutedAnalyticsEvent)
    → IsRest (event ∷ rest) events
    → IsRest rest events
IsRest-tail event rest events h = (h.0 ++ event ∷ [], h.1 ∙ ++-snoc h.0)
  where
    ++-snoc :
        (taken : List RoutedAnalyticsEvent) → taken ++ event ∷ rest ≡ (taken ++ event ∷ []) ++ rest
    ++-snoc [] = refl
    ++-snoc (e ∷ taken) = ap (λ es. e ∷ es) (++-snoc taken)

IsRest-empty : (events : List RoutedAnalyticsEvent) → IsRest [] events
IsRest-empty events = (events, ++-empty events)
  where
    ++-empty : (es : List RoutedAnalyticsEvent) → es ≡ es ++ []
    ++-empty [] = refl
    ++-empty (e ∷ es) = ap (λ es. e ∷ es) (++-empty es)

module _ {A : Type 0} where
  -- What a worker keeps from `before` on once it has been told to stop.
  abbrev pub StaysStopped : Worker A → Worker A → Type 0
  StaysStopped before w =
      (w.stop_event ≡ true)
      × (w.frame_buffer.sequence ≡ before.frame_buffer.sequence)
      × (w.metrics.frames_captured ≡ before.metrics.frames_captured)
      × (w.metrics.last_event_at ≡ before.metrics.last_event_at)
      × IsRest w.event_queue before.event_queue

  module _ (re : Patterns) (is_frame : A → Bool) (before : Worker A) where
    -- The parts that stand in equations.
    abbrev Same : Worker A → Worker A → Type 0
    Same w w' =
        (w'.stop_event ≡ true)
        × (w'.frame_buffer.sequence ≡ w.frame_buffer.sequence)
        × (w'.metrics.frames_captured ≡ w.metrics.frames_captured)
        × (w'.metrics.last_event_at ≡ w.metrics.last_event_at)

    carry :
        (w w' : Worker A)
        → Same w w'
        → (IsRest w.event_queue before.event_queue → IsRest w'.event_queue before.event_queue)
        → StaysStopped before w
        → StaysStopped before w'
    carry w w' s q h = (s.0, s.1 ∙ h.1, s.2 ∙ h.2, s.3 ∙ h.3, q h.4)

    Same-StaysStopped :
        (w w' : Worker A)
        → Same w w' × (w'.event_queue ≡ w.event_queue)
        → StaysStopped before w
        → StaysStopped before w'
    Same-StaysStopped w w' s = carry w w' s.0 λ r. rw s.1 r

    queue_event-StaysStopped :
        (routed : Result OrchestrationError RoutedAnalyticsEvent) (w : Worker A)
        → StaysStopped before w
        → StaysStopped before (queue_event routed w).1
    unfolding queue_event record_failure drop_event
    queue_event-StaysStopped routed w h =
        let told = h.0 in Same-StaysStopped w (queue_event routed w).1 (ground arith) h

    take_event-StaysStopped :
        (w : Worker A) → StaysStopped before w → StaysStopped before (take_event re w)
    unfolding take_event
    take_event-StaysStopped w h = by_queue w.event_queue refl
      where
        by_queue :
            (events : List RoutedAnalyticsEvent)
            → w.event_queue ≡ events
            → StaysStopped before (take_event re w)
        by_queue [] e = let told = h.0 in Same-StaysStopped w (take_event re w) (ground arith) h
        by_queue (event ∷ rest) e =
            if_elim (StaysStopped before) (is_alive w.event_task && not (is_some w.in_flight)) _ _
              (λ t.
                rw e
                  (h.0, h.1, h.2, h.3, IsRest-tail event rest before.event_queue (rw (sym e) h.4)))
              λ t. h

    end_emit-StaysStopped :
        (emitting : Option Raised) (w : Worker A)
        → StaysStopped before w
        → StaysStopped before (end_emit re emitting w)
    unfolding end_emit count_emit
    end_emit-StaysStopped emitting w h =
        let told = h.0 in Same-StaysStopped w (end_emit re emitting w) (ground arith) h

    end_event_task-StaysStopped :
        (raised : Option Raised) (w : Worker A)
        → StaysStopped before w
        → StaysStopped before (end_event_task re raised w)
    unfolding end_event_task
    end_event_task-StaysStopped raised w h =
        let told = h.0 in Same-StaysStopped w (end_event_task re raised w) (ground arith) h

    close_capture_once-StaysStopped :
        (closing : Option Raised) (w : Worker A)
        → StaysStopped before w
        → StaysStopped before (close_capture_once re closing w)
    unfolding close_capture_once
    close_capture_once-StaysStopped closing w h =
        let told = h.0 in Same-StaysStopped w (close_capture_once re closing w) (ground arith) h

    -- A stretch of the end keeps the queue, or empties it.
    advance-queue :
        (stretch : Stretch) (w : Worker A)
        → w.stop_event ≡ true
        → Same w (advance re stretch w)
          × (((advance re stretch w).event_queue ≡ w.event_queue)
              ⊎ ((advance re stretch w).event_queue ≡ []))
    unfolding advance call_aclose end_aclose settle_event_task await_event_task close_capture_once
    advance-queue (Stretch.begins_ending terminal closing) w h = ground arith
    advance-queue (Stretch.collects errors) w h = ground arith
    advance-queue (Stretch.closes_pipeline PipelineClose.closes) w h = ground arith
    advance-queue (Stretch.closes_pipeline (PipelineClose.callback_fails error)) w h = ground arith
    advance-queue (Stretch.closes_pipeline (PipelineClose.close_fails error)) w h = ground arith
    advance-queue Stretch.joins w h = ground arith
    advance-queue Stretch.stops_event_task w h = ground arith
    advance-queue Stretch.awaits_event_task w h = ground arith
    advance-queue Stretch.is_interrupted w h = ground arith

    advance-StaysStopped :
        (stretch : Stretch) (w : Worker A)
        → StaysStopped before w
        → StaysStopped before (advance re stretch w)
    advance-StaysStopped stretch w h =
        let moved_on = advance-queue stretch w h.0 in
        carry w (advance re stretch w) moved_on.0
          (λ r. elim moved_on.1 [ inl e ↦ rw e r | inr e ↦ rw e (IsRest-empty before.event_queue) ])
          h

    StaysStopped-Keeps : Keeps re is_frame (StaysStopped before)
    unfolding moved record_failure count_frame analytics_step Buffer.clear
    StaysStopped-Keeps = record {
      keeps_lifecycle = record {
        keeps_moved = λ state reason now w h. h;
        keeps_started = λ s w h. h;
        keeps_failure = λ e w h. h;
      };
      keeps_created = λ w h. h;
      keeps_shut = λ w h. (refl, h.1, h.2, h.3, h.4);
      keeps_capture = λ w h. h;
      keeps_pipeline = λ w h. h;
      keeps_frame = λ now sequence frame b w s good h. let told = h.0 in ground arith;
      keeps_missing = λ w h. h;
      keeps_retry = λ w h. h;
      keeps_analysed = λ analysed now w h.
          let told = h.0 in Same-StaysStopped w (analytics_step analysed now w) (ground arith) h;
      keeps_take = λ w h. take_event-StaysStopped w h;
      keeps_emit = λ emitting w h. end_emit-StaysStopped emitting w h;
      keeps_close_capture = λ closing w h. close_capture_once-StaysStopped closing w h;
      keeps_cleared = λ w e h. h;
    }

    Allows-StaysStopped :
        (action : Action A) (w : Worker A) → Allows re is_frame (StaysStopped before) action w
    Allows-StaysStopped (Action.queues routed) w = queue_event-StaysStopped routed w
    Allows-StaysStopped (Action.ends_event_task raised) w = end_event_task-StaysStopped raised w
    Allows-StaysStopped (Action.finishes stretch now) w = advance-StaysStopped stretch w
    Allows-StaysStopped (Action.begins_start now) w = tt
    Allows-StaysStopped (Action.begins_stop done closing now) w = tt
    Allows-StaysStopped (Action.makes_capture making) w = tt
    Allows-StaysStopped (Action.makes_pipeline making) w = tt
    Allows-StaysStopped (Action.begins_running now) w = tt
    Allows-StaysStopped (Action.captures read is_reconnecting now) w = tt
    Allows-StaysStopped (Action.analyses analysed now) w = tt
    Allows-StaysStopped Action.takes w = tt
    Allows-StaysStopped (Action.emits emitting) w = tt

    -- Once a worker has been told to stop, no schedule of actions makes it forget that, and none
    -- takes another frame into its buffer or another event into its queue: what is in the queue is
    -- a rest of what was there, with events only taken from its front.
    pub run-StaysStopped :
        (actions : List (Action A))
        → before.stop_event ≡ true
        → StaysStopped before (run re is_frame actions before)
    run-StaysStopped actions told =
        run_induction re is_frame (StaysStopped before)
          (λ action w h.
            perform-keeps re is_frame (StaysStopped before) StaysStopped-Keeps action w
              (Allows-StaysStopped action w) h)
          actions before (told, refl, refl, refl, ([], refl))
