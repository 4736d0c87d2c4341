-- ===== src/Orchestration/Worker/Ending.antt =====
-- The end of `CameraWorker._run` when each of its awaits returns.
use real_time_surveillance_a.Base.{
  ℕ, String, ◌≡◌, refl, sym, ap, ◌∙◌, inl, inr, Bool, true, false, Option, none, some, List, [],
  ◌∷◌, arith, Bool-cases, is_some, comparable_nat, comparable_text, comparable_pair, ok,
}
use real_time_surveillance_a.Streaming.Buffer
use real_time_surveillance_a.Orchestration.Errors.{OrchestrationError, Raised, Patterns}
use real_time_surveillance_a.Orchestration.States.{
  WorkerState, stopped, stopping, failed, is_state, is_valid_transition,
}
use real_time_surveillance_a.Orchestration.Worker.Record.{
  RoutedAnalyticsEvent, Worker, Started, pending, alive, ended, Phase, before_end, gathering,
  closing_pipeline, skipping_pipeline, joining, awaiting_events, concluding, over,
}
use real_time_surveillance_a.Orchestration.Worker.Lifecycle.{
  Outcome, transition, transition_if, ◌then_do◌, resolve_started, reject_started, moved,
  record_failure, close_capture_once, take_event, count_emit, end_emit,
}
use real_time_surveillance_a.Orchestration.Worker.Finish.{
  PipelineClose, Stretch, cleared, call_aclose, end_aclose, settle_event_task, await_event_task,
  advance, conclude, finish,
}
use real_time_surveillance_a.Orchestration.Worker.Actions.{Action, perform, run}
use real_time_surveillance_a.Orchestration.Worker.Invariants.{KeepsLifecycle, conclude-keeps}
use real_time_surveillance_a.Orchestration.Worker.Transitions.{
  resolve_started-SamePath, reject_started-SamePath,
}

abbrev pub is_waiting : Started → Bool
is_waiting pending = true
is_waiting _ = false

-- The state in which a run with that terminal error ends.
abbrev pub final_state : Option OrchestrationError → WorkerState
final_state none = stopped
final_state (some error) = failed

valid_stopping :
    (s : WorkerState)
    → is_state s stopped ≡ false
    → is_state s stopping ≡ false
    → (is_state stopping s ≡ false) × (is_valid_transition s stopping ≡ true)
valid_stopping s h k = ground arith

valid_failed :
    (s : WorkerState)
    → is_state s stopped ≡ false
    → is_state s failed ≡ false
    → (is_state failed s ≡ false) × (is_valid_transition s failed ≡ true)
valid_failed s h k = ground arith

is_failed : (s : WorkerState) → is_state s failed ≡ true → s ≡ failed
is_failed s h = ground arith

valid_stopped :
    (s : WorkerState)
    → is_state s stopping ≡ true
    → (is_state stopped s ≡ false) × (is_valid_transition s stopped ≡ true)
valid_stopped s h = ground arith

abbrev is_gathering : Phase → Bool
is_gathering gathering = true
is_gathering _ = false

abbrev is_closing : Phase → Bool
is_closing closing_pipeline = true
is_closing skipping_pipeline = true
is_closing _ = false

abbrev is_joining : Phase → Bool
is_joining joining = true
is_joining _ = false

abbrev is_awaiting : Phase → Bool
is_awaiting awaiting_events = true
is_awaiting _ = false

module _ {A : Type 0} where
  resolve_started-answers : (w : Worker A) → is_waiting (resolve_started w).started ≡ false
  unfolding resolve_started
  resolve_started-answers w = ground arith

  reject_started-answers :
      (e : OrchestrationError) (w : Worker A) → is_waiting (reject_started e w).started ≡ false
  unfolding reject_started
  reject_started-answers e w = ground arith

  abbrev pub Ends : Option OrchestrationError → Outcome A → Type 0
  Ends terminal o =
      (o.0 ≡ ok tt) × (o.1.state ≡ final_state terminal) × (is_waiting o.1.started ≡ false)

  module _ (re : Patterns) where
    transition-moves :
        (state : WorkerState) (reason : Option String) (now : ℕ) (w : Worker A)
        → (is_state state w.state ≡ false) × (is_valid_transition w.state state ≡ true)
        → transition re state reason now w ≡ (ok tt, moved re state reason now w)
    unfolding transition
    transition-moves state reason now w h = rw (h.0, h.1) refl

    stops-Ends :
        (now : ℕ) (w : Worker A)
        → is_state w.state stopping ≡ true
        → Ends none (transition re stopped none now w then_do λ w'. (ok tt, resolve_started w'))
    unfolding ◌then_do◌ moved
    stops-Ends now w h =
        let w' = moved re stopped none now w in
        rw (transition-moves stopped none now w (valid_stopped w.state h))
          (refl, (resolve_started-SamePath re (λ a. true) w').1, resolve_started-answers w')

    rejects-Ends :
        (error : OrchestrationError) (w : Worker A)
        → w.state ≡ failed
        → Ends (some error) (ok tt, reject_started error w)
    rejects-Ends error w h = (
      refl,
      (reject_started-SamePath re (λ a. true) error w).1 ∙ h,
      reject_started-answers error w,
    )

    conclude-Ends :
        (terminal : Option OrchestrationError) (now : ℕ) (w : Worker A)
        → is_state w.state stopped ≡ false
        → Ends terminal (conclude re terminal now w)
    unfolding conclude transition_if ◌then_do◌ moved record_failure
    conclude-Ends none now w h = elim (Bool-cases (is_state w.state stopping)) [
      | inl e ↦ rw e (stops-Ends now w e)
      | inr e ↦
          rw (e, transition-moves stopping none now w (valid_stopping w.state h e))
            (stops-Ends now (moved re stopping none now w) refl)
    ]
    conclude-Ends (some error) now w h = elim (Bool-cases (is_state w.state failed)) [
      | inl e ↦ rw e (rejects-Ends error (record_failure error w) (is_failed w.state e))
      | inr e ↦
          rw
            (
              e,
              transition-moves failed (some error.public_message) now (record_failure error w)
                  (valid_failed w.state h e),
            )
            (rejects-Ends error
              (moved re failed (some error.public_message) now (record_failure error w)) refl)
    ]

    -- Told to stop, with its task of the events alive, and not yet stopped.
    abbrev Going : (Phase → Bool) → Worker A → Type 0
    Going at w =
        (at w.phase ≡ true)
        × (w.stop_event ≡ true)
        × (w.accepting_events ≡ false)
        × (w.event_task ≡ alive)
        × (is_state w.state stopped ≡ false)

    begins_ending-Going :
        (terminal : Option OrchestrationError) (closing : Option Raised) (now : ℕ) (w : Worker A)
        → w.phase ≡ before_end
        → w.event_task ≡ alive
        → is_state w.state stopped ≡ false
        → Going is_gathering (finish re (Stretch.begins_ending terminal closing) now w).1
          × ((finish re (Stretch.begins_ending terminal closing) now w).1.event_queue
              ≡ w.event_queue)
    unfolding finish advance close_capture_once
    begins_ending-Going terminal closing now w p t s = ground arith

    collects-Going :
        (errors : List Raised) (now : ℕ) (w : Worker A)
        → Going is_gathering w
        → Going is_closing (finish re (Stretch.collects errors) now w).1
          × ((finish re (Stretch.collects errors) now w).1.event_queue ≡ w.event_queue)
    unfolding finish advance call_aclose
    collects-Going errors now w g = ground arith

    closes_pipeline-Going :
        (closing : PipelineClose) (now : ℕ) (w : Worker A)
        → Going is_closing w
        → Going is_joining (finish re (Stretch.closes_pipeline closing) now w).1
          × ((finish re (Stretch.closes_pipeline closing) now w).1.event_queue ≡ w.event_queue)
    unfolding finish advance end_aclose settle_event_task
    closes_pipeline-Going PipelineClose.closes now w g = ground arith
    closes_pipeline-Going (PipelineClose.callback_fails error) now w g = ground arith
    closes_pipeline-Going (PipelineClose.close_fails error) now w g = ground arith

    end_emit-Going :
        (emitting : Option Raised) (w : Worker A)
        → Going is_joining w
        → Going is_joining (end_emit re emitting w)
          × ((end_emit re emitting w).event_queue ≡ w.event_queue)
          × (is_some (end_emit re emitting w).in_flight ≡ false)
    unfolding end_emit count_emit
    end_emit-Going none w g = ground arith
    end_emit-Going (some error) w g = ground arith

    take_event-Going :
        (event : RoutedAnalyticsEvent) (rest : List RoutedAnalyticsEvent) (w : Worker A)
        → Going is_joining w
        → is_some w.in_flight ≡ false
        → w.event_queue ≡ event ∷ rest
        → Going is_joining (take_event re w) × ((take_event re w).event_queue ≡ rest)
    unfolding take_event
    take_event-Going event rest w g free e = ground arith

    abbrev Drained : Worker A → Type 0
    Drained w = (w.event_queue ≡ []) × (is_some w.in_flight ≡ false)

    joins-Going :
        (now : ℕ) (w : Worker A)
        → Going is_joining w
        → Drained w
        → Going is_awaiting (finish re Stretch.joins now w).1
          × Drained (finish re Stretch.joins now w).1
    unfolding finish advance
    joins-Going now w g d = ground arith

    -- Told to stop, with its task of the events at its end.
    abbrev Gone : Worker A → Type 0
    Gone w =
        (w.phase ≡ awaiting_events)
        × (w.stop_event ≡ true)
        × (w.accepting_events ≡ false)
        × (w.event_task ≡ ended none)
        × (is_state w.state stopped ≡ false)

    stops_event_task-Gone :
        (now : ℕ) (w : Worker A)
        → Going is_awaiting w
        → Drained w
        → Gone (finish re Stretch.stops_event_task now w).1
          × Drained (finish re Stretch.stops_event_task now w).1
    unfolding finish advance
    stops_event_task-Gone now w g d = ground arith

    -- Told to stop, open to no event, without frames or events, and past its end.
    abbrev pub IsShut : Option OrchestrationError → Worker A → Type 0
    IsShut terminal w =
        (w.phase ≡ over)
        × (w.terminal_error ≡ terminal)
        × (w.stop_event ≡ true)
        × (w.accepting_events ≡ false)
        × (w.frame_buffer.frames ≡ [])
        × (w.event_queue ≡ [])
        × (is_some w.in_flight ≡ false)

    IsShut-KeepsLifecycle :
        (terminal : Option OrchestrationError) → KeepsLifecycle re (λ a. true) (IsShut terminal)
    unfolding moved record_failure
    IsShut-KeepsLifecycle terminal = record {
      keeps_moved = λ state reason now w h. h;
      keeps_started = λ s w h. h;
      keeps_failure = λ error w h. h;
    }

    -- The run has published its end.
    abbrev pub HasEnded : Worker A → Type 0
    HasEnded w =
        (w.state ≡ final_state w.terminal_error)
        × (is_waiting w.started ≡ false)
        × IsShut w.terminal_error w

    awaits_event_task-eq :
        (now : ℕ) (w : Worker A)
        → Gone w
        → finish re Stretch.awaits_event_task now w
          ≡ conclude re w.terminal_error now (cleared re (record w { phase = concluding }))
    unfolding finish advance await_event_task
    awaits_event_task-eq now w g = rw (g.0, g.3) refl

    awaits_event_task-HasEnded :
        (now : ℕ) (w : Worker A)
        → Gone w
        → Drained w
        → HasEnded (finish re Stretch.awaits_event_task now w).1
    unfolding Buffer.clear
    awaits_event_task-HasEnded now w g d =
        let w' = record w { phase = concluding } in
        let ends = conclude-Ends w.terminal_error now (cleared re w') g.4 in
        let shut =
          conclude-keeps re (λ a. true) (IsShut w.terminal_error)
            (IsShut-KeepsLifecycle w.terminal_error) w.terminal_error now (cleared re w')
            (refl, refl, g.1, g.2, refl, d.0, d.1) in
        rw (awaits_event_task-eq now w g) (
          ends.1 ∙ ap final_state (sym shut.1),
          ends.2,
          (shut.0, refl, shut.2, shut.3, shut.4, shut.5, shut.6),
        )

  -- The dispatcher's share of the end: the answers of the sink to the events, one after the other.
  abbrev drain_then :
      (RoutedAnalyticsEvent → Option Raised)
      → List RoutedAnalyticsEvent
      → List (Action A)
      → List (Action A)
  drain_then answers [] rest = rest
  drain_then answers (event ∷ events) rest =
      Action.takes ∷ Action.emits (answers event) ∷ drain_then answers events rest

  -- The stretches of the `finally` block, with the dispatcher's where the block waits for it.
  abbrev pub ending :
      Option OrchestrationError
      → Option Raised
      → List Raised
      → PipelineClose
      → Option Raised
      → (RoutedAnalyticsEvent → Option Raised)
      → ℕ
      → Worker A
      → List (Action A)
  ending terminal closing errors aclose first answers now w =
      Action.finishes (Stretch.begins_ending terminal closing) now
      ∷ Action.finishes (Stretch.collects errors) now
      ∷ Action.finishes (Stretch.closes_pipeline aclose) now
      ∷ Action.emits first
      ∷ drain_then answers w.event_queue (
          Action.finishes Stretch.joins now
          ∷ Action.finishes Stretch.stops_event_task now
          ∷ Action.finishes Stretch.awaits_event_task now
          ∷ [])

  module _ (re : Patterns) (is_frame : A → Bool) where
    drain_then-run :
        (Q : Worker A → Type 0) (answers : RoutedAnalyticsEvent → Option Raised)
        (rest : List (Action A))
        → ((w : Worker A) → Going re is_joining w → Drained re w → Q (run re is_frame rest w))
        → (events : List RoutedAnalyticsEvent) (w : Worker A) → Going re is_joining w
        → w.event_queue ≡ events
        → is_some w.in_flight ≡ false
        → Q (run re is_frame (drain_then answers events rest) w)
    unfolding run perform
    drain_then-run Q answers rest k [] w g e free = k w g (e, free)
    drain_then-run Q answers rest k (event ∷ events) w g e free =
        let taken = take_event-Going re event events w g free e in
        let emitted = end_emit-Going re (answers event) (take_event re w) taken.0 in
        drain_then-run Q answers rest k events _ emitted.0 (emitted.1 ∙ taken.1) emitted.2

    Drained-HasEnded :
        (now : ℕ) (w : Worker A)
        → Going re is_joining w
        → Drained re w
        → HasEnded re (
            run re is_frame
              (Action.finishes Stretch.joins now
                ∷ Action.finishes Stretch.stops_event_task now
                ∷ Action.finishes Stretch.awaits_event_task now
                ∷ [])
              w)
    unfolding run perform
    Drained-HasEnded now w g d =
        let joined = joins-Going re now w g d in
        let gone = stops_event_task-Gone re now _ joined.0 joined.1 in
        awaits_event_task-HasEnded re now _ gone.0 gone.1

    -- Once `_run` has left its loops, by itself, with an error, or because it was told to stop, the
    -- stretches of its `finally` block with those of the dispatcher in between end the run, whatever
    -- the two tasks raised, `capture.close` and `aclose` do, and whether the sink returns or raises
    -- for the event in flight and for each event in the queue. The conditions: the task of the events
    -- is alive, each of these awaits returns, nothing else happens in between, such as a
    -- cancellation, and the state is not yet STOPPED. The run then ends in STOPPED without a terminal
    -- error and in FAILED with one, nobody waits for its start, it is open to no event, and its
    -- frames and its queue are empty.
    pub ending-HasEnded :
        (terminal : Option OrchestrationError) (closing : Option Raised) (errors : List Raised)
        (aclose : PipelineClose) (first : Option Raised)
        (answers : RoutedAnalyticsEvent → Option Raised) (now : ℕ) (w : Worker A)
        → w.phase ≡ before_end
        → w.event_task ≡ alive
        → is_state w.state stopped ≡ false
        → HasEnded re
            (run re is_frame (ending terminal closing errors aclose first answers now w) w)
    unfolding run perform
    ending-HasEnded terminal closing errors aclose first answers now w p t s =
        let w₁ = (finish re (Stretch.begins_ending terminal closing) now w).1 in
        let w₂ = (finish re (Stretch.collects errors) now w₁).1 in
        let w₃ = (finish re (Stretch.closes_pipeline aclose) now w₂).1 in
        let g₁ = begins_ending-Going re terminal closing now w p t s in
        let g₂ = collects-Going re errors now w₁ g₁.0 in
        let g₃ = closes_pipeline-Going re aclose now w₂ g₂.0 in
        let g₄ = end_emit-Going re first w₃ g₃.0 in
        drain_then-run (HasEnded re) answers _ (Drained-HasEnded now) w.event_queue
          (end_emit re first w₃) g₄.0 (g₄.1 ∙ g₃.1 ∙ g₂.1 ∙ g₁.1) g₄.2
