-- ===== src/Orchestration/Worker/Invariants.antt =====
-- How an invariant of `CameraWorker` is carried through every action: it is enough that the
-- single writes keep it.
use real_time_surveillance_a.Base.{
  ℕ, ◌+◌, String, ◌≡◌, refl, inl, inr, Bool, true, false, Option, none, some, if◌then◌else◌,
  Bool-cases, comparable_nat, comparable_text, comparable_pair, ok, err, Result-cases,
}
use real_time_surveillance_a.Streaming.Buffer
use real_time_surveillance_a.Streaming.Buffer.{FrameBuffer}
use real_time_surveillance_a.Orchestration.Errors.{OrchestrationError, Raised, Patterns}
use real_time_surveillance_a.Orchestration.States.{
  WorkerState, stopped, starting, running, reconnecting, stopping, failed, is_state,
  is_valid_transition,
}
use real_time_surveillance_a.Orchestration.Worker.Record.{
  Started, absent, pending, resolved, rejected, Worker, alive,
}
use real_time_surveillance_a.Orchestration.Worker.Lifecycle.{
  Outcome, ◌then_do◌, moved, transition, transition_if, record_failure, resolve_started,
  reject_started, begin_start, begin_stop, close_capture_once, make_capture, make_pipeline,
  begin_running, capture_step, count_frame, analytics_step, queue_event, take_event, end_emit,
  end_event_task,
}
use real_time_surveillance_a.Orchestration.Worker.Finish.{
  Stretch, is_concluding, cleared, advance, conclude, finish,
}
use real_time_surveillance_a.Orchestration.Worker.Actions.{Action, perform}

module _ {A : Type 0} (re : Patterns) (is_frame : A → Bool) where
  -- The writes of a transition and of its answer to the caller of `start`.
  pub record KeepsLifecycle {ℓ} (P : Worker A → Type ℓ) : Type ℓ where
    pub keeps_moved :
        (state : WorkerState) (reason : Option String) (now : ℕ) (w : Worker A)
        → P w
        → P (moved re state reason now w)
    pub keeps_started : (s : Started) (w : Worker A) → P w → P (record w { started = s })
    pub keeps_failure : (e : OrchestrationError) (w : Worker A) → P w → P (record_failure e w)

  pub record Keeps {ℓ} (P : Worker A → Type ℓ) : Type ℓ where
    pub keeps_lifecycle : KeepsLifecycle P
    pub keeps_shut :
        (w : Worker A) → P w → P (record w { accepting_events = false; stop_event = true })
    pub keeps_capture : (w : Worker A) → P w → P (record w { capture = true })
    pub keeps_pipeline : (w : Worker A) → P w → P (record w { pipeline = true })
    pub keeps_frame :
        (now sequence : ℕ) (frame : A) (b : FrameBuffer A) (w : Worker A)
        → w.stop_event ≡ false
        → Buffer.put is_frame w.frame_buffer frame ≡ ok (sequence, b)
        → P w
        → P (count_frame now (record w { frame_buffer = b }))
    pub keeps_missing :
        (w : Worker A)
        → P w
        → P (record w {
          metrics = record w.metrics { capture_failures = w.metrics.capture_failures + 1 };
        })
    pub keeps_retry :
        (w : Worker A)
        → P w
        → P (record w {
          metrics = record w.metrics { reconnect_count = w.metrics.reconnect_count + 1 };
        })
    pub keeps_analysed :
        (analysed : Bool) (now : ℕ) (w : Worker A) → P w → P (analytics_step analysed now w)
    pub keeps_take : (w : Worker A) → P w → P (take_event re w)
    pub keeps_emit : (emitting : Option Raised) (w : Worker A) → P w → P (end_emit re emitting w)
    pub keeps_close_capture :
        (closing : Option Raised) (w : Worker A) → P w → P (close_capture_once re closing w)
    pub keeps_created :
        (w : Worker A) → P w → P (record w { accepting_events = true; event_task = alive })
    pub keeps_cleared : (w : Worker A) → is_concluding w.phase ≡ true → P w → P (cleared re w)

  -- What is left to show of one action.
  abbrev pub Allows {ℓ} : (P : Worker A → Type ℓ) → Action A → Worker A → Type ℓ
  Allows P (Action.queues routed) w = P w → P (queue_event routed w).1
  Allows P (Action.ends_event_task raised) w = P w → P (end_event_task re raised w)
  Allows P (Action.finishes stretch now) w = P w → P (advance re stretch w)
  Allows P _ w = Unit

  module _ {ℓ} (P : Worker A → Type ℓ) (k : KeepsLifecycle P) where
    transition-keeps :
        (state : WorkerState) (reason : Option String) (now : ℕ) (w : Worker A)
        → P w
        → P (transition re state reason now w).1
    unfolding transition
    transition-keeps state reason now w h = elim (Bool-cases (is_state state w.state)) [
      | inl e ↦ rw e h
      | inr e ↦ elim (Bool-cases (is_valid_transition w.state state)) [
        | inr e' ↦ rw (e, e') h
        | inl e' ↦ rw (e, e') (k.keeps_moved state reason now w h)
      ]
    ]

    transition_if-keeps :
        (test : Bool) (state : WorkerState) (reason : Option String) (now : ℕ) (w : Worker A)
        → P w
        → P (transition_if re test state reason now w).1
    unfolding transition_if
    transition_if-keeps true state reason now w h = transition-keeps state reason now w h
    transition_if-keeps false state reason now w h = h

    then_do-keeps :
        (o : Outcome A) (f : Worker A → Outcome A)
        → P o.1
        → ((w : Worker A) → P w → P (f w).1)
        → P (o then_do f).1
    unfolding ◌then_do◌
    then_do-keeps (ok x, w) f h g = g w h
    then_do-keeps (err e, w) f h g = h

    resolve_started-keeps : (w : Worker A) → P w → P (resolve_started w)
    unfolding resolve_started
    resolve_started-keeps w h = by_start w.started refl
      where
        by_start : (s : Started) → w.started ≡ s → P (resolve_started w)
        by_start absent e = rw (e, resolve_started) h
        by_start pending e = rw (e, resolve_started) (k.keeps_started resolved w h)
        by_start resolved e = rw (e, resolve_started) h
        by_start (rejected error) e = rw (e, resolve_started) h

    reject_started-keeps :
        (error : OrchestrationError) (w : Worker A) → P w → P (reject_started error w)
    unfolding reject_started
    reject_started-keeps error w h = by_start w.started refl
      where
        by_start : (s : Started) → w.started ≡ s → P (reject_started error w)
        by_start absent e = rw (e, reject_started) h
        by_start pending e = rw (e, reject_started) (k.keeps_started (rejected error) w h)
        by_start resolved e = rw (e, reject_started) h
        by_start (rejected error') e = rw (e, reject_started) h

    pub conclude-keeps :
        (terminal : Option OrchestrationError) (now : ℕ) (w : Worker A)
        → P w
        → P (conclude re terminal now w).1
    unfolding conclude
    conclude-keeps (some error) now w h =
        then_do-keeps _ _ (transition_if-keeps _ failed _ now _ (k.keeps_failure error w h))
          λ w' h'. reject_started-keeps error w' h'
    conclude-keeps none now w h =
        then_do-keeps _ _ (transition_if-keeps _ stopping none now w h) λ w' h'.
          then_do-keeps _ _ (transition-keeps stopped none now w' h')
            λ w'' h''. resolve_started-keeps w'' h''

  module _ {ℓ} (P : Worker A → Type ℓ) (k : Keeps P) where
    begin_start-keeps : (now : ℕ) (w : Worker A) → P w → P (begin_start re now w).1
    unfolding begin_start
    begin_start-keeps now w h = by_start w.started refl
      where
        by_start : (s : Started) → w.started ≡ s → P (begin_start re now w).1
        by_start absent e =
            rw (e, begin_start)
              (transition-keeps P k.keeps_lifecycle starting none now
                (record w { started = pending }) (k.keeps_lifecycle.keeps_started pending w h))
        by_start pending e = rw (e, begin_start) h
        by_start resolved e = rw (e, begin_start) h
        by_start (rejected error) e = rw (e, begin_start) h

    begin_stop-keeps :
        (done : Bool) (closing : Option Raised) (now : ℕ) (w : Worker A)
        → P w
        → P (begin_stop re done closing now w).1
    unfolding begin_stop
    begin_stop-keeps done closing now w h = by_start w.started refl
      where
        stops :
            (test : Bool)
            → P
                (transition_if re test stopping none now w then_do λ w'. (
                  ok tt,
                  close_capture_once re closing
                      (record w' { accepting_events = false; stop_event = true }),
                )).1
        stops test =
            then_do-keeps P k.keeps_lifecycle _ _
              (transition_if-keeps P k.keeps_lifecycle test stopping none now w h)
              λ w' h'. k.keeps_close_capture closing _ (k.keeps_shut w' h')

        by_start : (s : Started) → w.started ≡ s → P (begin_stop re done closing now w).1
        by_start absent e = rw (e, begin_stop) h
        by_start pending e = rw (e, begin_stop) (stops _)
        by_start resolved e = rw (e, begin_stop) (stops _)
        by_start (rejected error) e = rw (e, begin_stop) (stops _)

    branch-keeps :
        {X : Type 0} (test : Bool) (o o' : X × Worker A)
        → (test ≡ true → P o.1)
        → (test ≡ false → P o'.1)
        → P (if test then o else o').1
    branch-keeps true o o' f g = f refl
    branch-keeps false o o' f g = g refl

    capture_step-keeps :
        (read : Option A) (is_reconnecting : Bool) (now : ℕ) (w : Worker A)
        → P w
        → P (capture_step re is_frame read is_reconnecting now w).1
    unfolding capture_step
    capture_step-keeps none is_reconnecting now w h =
        branch-keeps w.stop_event _ _ (λ e. h)
          λ e.
            branch-keeps is_reconnecting _ _ (λ e'. k.keeps_missing w h)
              λ e'.
                transition-keeps P k.keeps_lifecycle reconnecting _ now _
                  (k.keeps_retry _ (k.keeps_missing w h))
    capture_step-keeps (some frame) is_reconnecting now w h =
        branch-keeps w.stop_event _ _ (λ e. h)
          λ e. elim (Result-cases (Buffer.put is_frame w.frame_buffer frame)) [
            | inr (x, bad) ↦ rw bad h
            | inl (r, good) ↦
                let kept = k.keeps_frame now r.0 frame r.1 w e good h in
                rw good (
                  branch-keeps is_reconnecting _ _
                    (λ e'. transition-keeps P k.keeps_lifecycle running _ now _ kept) λ e'. kept)
          ]

    finish-keeps :
        (stretch : Stretch) (now : ℕ) (w : Worker A)
        → P (advance re stretch w)
        → P (finish re stretch now w).1
    unfolding finish
    finish-keeps stretch now w h =
        let w' = advance re stretch w in
        branch-keeps (is_concluding w'.phase) (conclude re w'.terminal_error now (cleared re w'))
          (ok tt, w') (λ e. conclude-keeps P k.keeps_lifecycle _ now _ (k.keeps_cleared w' e h))
          λ e. h

    pub perform-keeps :
        (action : Action A) (w : Worker A)
        → Allows P action w
        → P w
        → P (perform re is_frame action w)
    unfolding perform make_capture make_pipeline begin_running
    perform-keeps (Action.begins_start now) w a h = begin_start-keeps now w h
    perform-keeps (Action.begins_stop done closing now) w a h =
        begin_stop-keeps done closing now w h
    perform-keeps (Action.makes_capture none) w a h = k.keeps_capture w h
    perform-keeps (Action.makes_capture (some error)) w a h = h
    perform-keeps (Action.makes_pipeline none) w a h = k.keeps_pipeline w h
    perform-keeps (Action.makes_pipeline (some error)) w a h = h
    perform-keeps (Action.begins_running now) w a h =
        then_do-keeps P k.keeps_lifecycle _ _
          (transition-keeps P k.keeps_lifecycle running none now _ (k.keeps_created w h))
          λ w' h'. resolve_started-keeps P k.keeps_lifecycle w' h'
    perform-keeps (Action.captures read is_reconnecting now) w a h =
        capture_step-keeps read is_reconnecting now w h
    perform-keeps (Action.analyses analysed now) w a h = k.keeps_analysed analysed now w h
    perform-keeps (Action.queues routed) w a h = a h
    perform-keeps Action.takes w a h = k.keeps_take w h
    perform-keeps (Action.emits emitting) w a h = k.keeps_emit emitting w h
    perform-keeps (Action.ends_event_task raised) w a h = a h
    perform-keeps (Action.finishes stretch now) w a h = finish-keeps stretch now w (a h)
