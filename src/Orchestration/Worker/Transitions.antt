-- ===== src/Orchestration/Worker/Transitions.antt =====
-- The recorded lifecycle is a path through the table of transitions.
use real_time_surveillance_a.Base.{
  ℕ, String, ◌≡◌, refl, sym, ◌∙◌, inl, inr, Bool, true, false, Option, none, some, List, [], ◌∷◌,
  ◌++◌, arith, ltb, Bool-cases, comparable_nat, comparable_text, comparable_pair, length, keep_last,
  Result, ok, err, Result-cases,
}
use real_time_surveillance_a.Streaming.Buffer
use real_time_surveillance_a.Orchestration.Errors.{OrchestrationError, Raised, Patterns}
use real_time_surveillance_a.Orchestration.States.{
  WorkerState, stopped, starting, running, reconnecting, stopping, failed, is_state,
  is_valid_transition,
}
use real_time_surveillance_a.Orchestration.Worker.Record.{
  StateTransition, RoutedAnalyticsEvent, Started, absent, pending, resolved, rejected, Worker,
  alive, new_worker,
}
use real_time_surveillance_a.Orchestration.Worker.Lifecycle.{
  Outcome, ◌then_do◌, moved, transition, transition_if, record_failure, resolve_started,
  reject_started, begin_start, begin_stop, close_capture_once, make_capture, make_pipeline,
  begin_running, capture_step, analytics_step, queue_event, take_event, count_emit, end_emit,
  end_event_task,
}
use real_time_surveillance_a.Orchestration.Worker.Finish.{
  PipelineClose, Stretch, is_concluding, cleared, call_aclose, end_aclose, settle_event_task,
  await_event_task, advance, conclude, finish,
}
use real_time_surveillance_a.Orchestration.Worker.Actions.{Action, perform, run, run_induction}

-- Each entry is a valid transition and starts where the one before it ended; the last ends at
-- `state`.
abbrev pub LeadsTo : List StateTransition → WorkerState → Type 0
LeadsTo [] state = Unit
LeadsTo (t ∷ []) state = (is_valid_transition t.previous t.current ≡ true) × (t.current ≡ state)
LeadsTo (t ∷ u ∷ ts) state =
    (is_valid_transition t.previous t.current ≡ true)
    × (t.current ≡ u.previous)
    × LeadsTo (u ∷ ts) state

LeadsTo-snoc :
    (ts : List StateTransition) (state : WorkerState) (t : StateTransition)
    → LeadsTo ts state
    → t.previous ≡ state
    → is_valid_transition t.previous t.current ≡ true
    → LeadsTo (ts ++ t ∷ []) t.current
LeadsTo-snoc [] state t h p v = (v, refl)
LeadsTo-snoc (u ∷ []) state t h p v = (h.0, h.1 ∙ sym p, (v, refl))
LeadsTo-snoc (u ∷ u' ∷ ts) state t h p v = (h.0, h.1, LeadsTo-snoc (u' ∷ ts) state t h.2 p v)

LeadsTo-tail :
    (t : StateTransition) (ts : List StateTransition) (state : WorkerState)
    → LeadsTo (t ∷ ts) state
    → LeadsTo ts state
LeadsTo-tail t [] state h = tt
LeadsTo-tail t (u ∷ ts) state h = h.2

LeadsTo-keep_last :
    (n : ℕ) (ts : List StateTransition) (state : WorkerState)
    → LeadsTo ts state
    → LeadsTo (keep_last n ts) state
unfolding keep_last
LeadsTo-keep_last n [] state h = h
LeadsTo-keep_last n (t ∷ ts) state h = elim (Bool-cases (ltb n (length (t ∷ ts)))) [
  | inl e ↦ rw e (LeadsTo-keep_last n ts state (LeadsTo-tail t ts state h))
  | inr e ↦ rw e h
]

module _ {A : Type 0} (re : Patterns) (is_frame : A → Bool) where
  abbrev pub HasPath : Worker A → Type 0
  HasPath w = LeadsTo w.transitions w.state

  -- What a call keeps although it may write anything else.
  abbrev pub SamePath : Worker A → Worker A → Type 0
  SamePath w w' = (w'.transitions ≡ w.transitions) × (w'.state ≡ w.state)

  SamePath-HasPath : (w w' : Worker A) → SamePath w w' → HasPath w → HasPath w'
  SamePath-HasPath w w' s h = rw (s.0, s.1) h

  transition-HasPath :
      (state : WorkerState) (reason : Option String) (now : ℕ) (w : Worker A)
      → HasPath w
      → HasPath (transition re state reason now w).1
  unfolding transition moved
  transition-HasPath state reason now w h = elim (Bool-cases (is_state state w.state)) [
    | inl e ↦ rw e h
    | inr e ↦ elim (Bool-cases (is_valid_transition w.state state)) [
      | inr e' ↦ rw (e, e') h
      | inl e' ↦
          rw (e, e')
            (LeadsTo-keep_last w.transition_history_size _ state
              (LeadsTo-snoc w.transitions w.state _ h refl e'))
    ]
  ]

  then_do-HasPath :
      (o : Outcome A) (f : Worker A → Outcome A)
      → HasPath o.1
      → ((w : Worker A) → HasPath w → HasPath (f w).1)
      → HasPath (o then_do f).1
  unfolding ◌then_do◌
  then_do-HasPath (ok x, w) f h k = k w h
  then_do-HasPath (err e, w) f h k = h

  pub resolve_started-SamePath : (w : Worker A) → SamePath w (resolve_started w)
  unfolding resolve_started
  resolve_started-SamePath w = ground arith

  pub reject_started-SamePath :
      (e : OrchestrationError) (w : Worker A) → SamePath w (reject_started e w)
  unfolding reject_started
  reject_started-SamePath e w = ground arith

  close_capture_once-SamePath :
      (closing : Option Raised) (w : Worker A) → SamePath w (close_capture_once re closing w)
  unfolding close_capture_once
  close_capture_once-SamePath closing w = ground arith

  take_event-SamePath : (w : Worker A) → SamePath w (take_event re w)
  unfolding take_event
  take_event-SamePath w = ground arith

  end_emit-SamePath :
      (emitting : Option Raised) (w : Worker A) → SamePath w (end_emit re emitting w)
  unfolding end_emit count_emit
  end_emit-SamePath emitting w = ground arith

  end_event_task-SamePath :
      (raised : Option Raised) (w : Worker A) → SamePath w (end_event_task re raised w)
  unfolding end_event_task
  end_event_task-SamePath raised w = ground arith

  queue_event-SamePath :
      (routed : Result OrchestrationError RoutedAnalyticsEvent) (w : Worker A)
      → SamePath w (queue_event routed w).1
  unfolding queue_event record_failure
  queue_event-SamePath routed w = ground arith

  pub advance-SamePath : (stretch : Stretch) (w : Worker A) → SamePath w (advance re stretch w)
  unfolding advance call_aclose end_aclose settle_event_task await_event_task close_capture_once
  advance-SamePath (Stretch.begins_ending terminal closing) w = ground arith
  advance-SamePath (Stretch.collects errors) w = ground arith
  advance-SamePath (Stretch.closes_pipeline PipelineClose.closes) w = ground arith
  advance-SamePath (Stretch.closes_pipeline (PipelineClose.callback_fails error)) w = ground arith
  advance-SamePath (Stretch.closes_pipeline (PipelineClose.close_fails error)) w = ground arith
  advance-SamePath Stretch.joins w = ground arith
  advance-SamePath Stretch.stops_event_task w = ground arith
  advance-SamePath Stretch.awaits_event_task w = ground arith
  advance-SamePath Stretch.is_interrupted w = ground arith

  transition_if-HasPath :
      (test : Bool) (state : WorkerState) (reason : Option String) (now : ℕ) (w : Worker A)
      → HasPath w
      → HasPath (transition_if re test state reason now w).1
  unfolding transition_if
  transition_if-HasPath true state reason now w h = transition-HasPath state reason now w h
  transition_if-HasPath false state reason now w h = h

  conclude-HasPath :
      (terminal : Option OrchestrationError) (now : ℕ) (w : Worker A)
      → HasPath w
      → HasPath (conclude re terminal now w).1
  unfolding conclude record_failure
  conclude-HasPath (some error) now w h =
      then_do-HasPath _ _ (transition_if-HasPath _ failed _ now (record_failure error w) h)
        λ w' h'. SamePath-HasPath w' (reject_started error w') (reject_started-SamePath error w') h'
  conclude-HasPath none now w h =
      then_do-HasPath _ _ (transition_if-HasPath _ stopping none now w h) λ w' h'.
        then_do-HasPath _ _ (transition-HasPath stopped none now w' h')
          λ w'' h''. SamePath-HasPath w'' (resolve_started w'') (resolve_started-SamePath w'') h''

  capture_step-HasPath :
      (read : Option A) (is_reconnecting : Bool) (now : ℕ) (w : Worker A)
      → HasPath w
      → HasPath (capture_step re is_frame read is_reconnecting now w).1
  unfolding capture_step
  capture_step-HasPath none true now w h = ground arith
  capture_step-HasPath none false now w h = elim (Bool-cases w.stop_event) [
    | inl e ↦ rw (e, capture_step) h
    | inr e ↦ rw (e, capture_step) (transition-HasPath reconnecting _ now _ h)
  ]
  capture_step-HasPath (some frame) is_reconnecting now w h =
      elim (Result-cases (Buffer.put is_frame w.frame_buffer frame)) [
        | inr (e, bad) ↦ elim (Bool-cases w.stop_event) [
          | inl e ↦ rw (e, capture_step) h
          | inr e ↦ rw (e, bad, capture_step) h
        ]
        | inl (r, good) ↦ elim (Bool-cases w.stop_event) [
          | inl e ↦ rw (e, capture_step) h
          | inr e ↦ elim (Bool-cases is_reconnecting) [
            | inl e' ↦ rw (e, good, e', capture_step) (transition-HasPath running _ now _ h)
            | inr e' ↦ rw (e, good, e', capture_step) h
          ]
        ]
      ]

  begin_stop-HasPath :
      (done : Bool) (closing : Option Raised) (now : ℕ) (w : Worker A)
      → HasPath w
      → HasPath (begin_stop re done closing now w).1
  unfolding begin_stop
  begin_stop-HasPath done closing now w h = by_start w.started refl
    where
      stopped_path :
          (test : Bool)
          → HasPath
              (transition_if re test stopping none now w then_do λ w'. (
                ok tt,
                close_capture_once re closing
                    (record w' { accepting_events = false; stop_event = true }),
              )).1
      stopped_path test =
          then_do-HasPath _ _ (transition_if-HasPath test stopping none now w h) λ w' h'.
            let ended = record w' { accepting_events = false; stop_event = true } in
            SamePath-HasPath ended (close_capture_once re closing ended)
              (close_capture_once-SamePath closing ended) h'

      by_start : (s : Started) → w.started ≡ s → HasPath (begin_stop re done closing now w).1
      by_start absent e = rw (e, begin_stop) h
      by_start pending e = rw (e, begin_stop) (stopped_path _)
      by_start resolved e = rw (e, begin_stop) (stopped_path _)
      by_start (rejected error) e = rw (e, begin_stop) (stopped_path _)

  begin_start-HasPath : (now : ℕ) (w : Worker A) → HasPath w → HasPath (begin_start re now w).1
  unfolding begin_start
  begin_start-HasPath now w h = by_start w.started refl
    where
      by_start : (s : Started) → w.started ≡ s → HasPath (begin_start re now w).1
      by_start absent e =
          rw (e, begin_start)
            (transition-HasPath starting none now (record w { started = pending }) h)
      by_start pending e = rw (e, begin_start) h
      by_start resolved e = rw (e, begin_start) h
      by_start (rejected error) e = rw (e, begin_start) h

  finish-HasPath :
      (stretch : Stretch) (now : ℕ) (w : Worker A) → HasPath w → HasPath (finish re stretch now w).1
  unfolding finish
  finish-HasPath stretch now w h =
      let w' = advance re stretch w in
      let path = SamePath-HasPath w w' (advance-SamePath stretch w) h in
      elim (Bool-cases (is_concluding w'.phase)) [
        | inl e ↦ rw (e, finish) (conclude-HasPath w'.terminal_error now (cleared re w') path)
        | inr e ↦ rw (e, finish) path
      ]

  perform-HasPath :
      (action : Action A) (w : Worker A) → HasPath w → HasPath (perform re is_frame action w)
  unfolding perform make_capture make_pipeline begin_running analytics_step
  perform-HasPath (Action.begins_start now) w h = begin_start-HasPath now w h
  perform-HasPath (Action.begins_stop done closing now) w h =
      begin_stop-HasPath done closing now w h
  perform-HasPath (Action.makes_capture none) w h = h
  perform-HasPath (Action.makes_capture (some error)) w h = h
  perform-HasPath (Action.makes_pipeline none) w h = h
  perform-HasPath (Action.makes_pipeline (some error)) w h = h
  perform-HasPath (Action.begins_running now) w h =
      then_do-HasPath _ _
        (transition-HasPath running none now
          (record w { accepting_events = true; event_task = alive }) h)
        λ w' h'. SamePath-HasPath w' (resolve_started w') (resolve_started-SamePath w') h'
  perform-HasPath (Action.captures read is_reconnecting now) w h =
      capture_step-HasPath read is_reconnecting now w h
  perform-HasPath (Action.analyses true now) w h = h
  perform-HasPath (Action.analyses false now) w h = h
  perform-HasPath (Action.queues routed) w h =
      SamePath-HasPath w (queue_event routed w).1 (queue_event-SamePath routed w) h
  perform-HasPath Action.takes w h = SamePath-HasPath w (take_event re w) (take_event-SamePath w) h
  perform-HasPath (Action.emits emitting) w h =
      SamePath-HasPath w (end_emit re emitting w) (end_emit-SamePath emitting w) h
  perform-HasPath (Action.ends_event_task raised) w h =
      SamePath-HasPath w (end_event_task re raised w) (end_event_task-SamePath raised w) h
  perform-HasPath (Action.finishes stretch now) w h = finish-HasPath stretch now w h

  -- Whatever schedule of actions a new worker goes through, the transitions that it has recorded
  -- are all in the table, each starts in the state in which the one before it ended, and the
  -- last one ends in the worker's state.
  pub run-HasPath :
      (actions : List (Action A)) (camera_id : String) (generation buffer queue history now : ℕ)
      → HasPath (run re is_frame actions (new_worker camera_id generation buffer queue history now))
  unfolding new_worker
  run-HasPath actions camera_id generation buffer queue history now =
      run_induction re is_frame HasPath perform-HasPath actions _ tt
