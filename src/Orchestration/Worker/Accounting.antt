-- ===== src/Orchestration/Worker/Accounting.antt =====
-- Where the events that are offered to a worker go.
use real_time_surveillance_a.Base.{
  ℕ, ◌+◌, ◌≡◌, Bool, true, false, if◌then◌else◌, is_some, comparable_nat, comparable_text,
  comparable_pair, length, is_ok,
}
use real_time_surveillance_a.Orchestration.Worker.Record.{
  Worker, EventTask, not_started, alive, cancelled, ended, Phase, awaiting_events, concluding, over,
  interrupted,
}
use real_time_surveillance_a.Orchestration.Worker.Actions.{Action}

-- A task of the events that is over has been told to stop.
abbrev is_whole : EventTask → Phase → Bool
is_whole not_started phase = true
is_whole alive phase = true
is_whole cancelled phase = false
is_whole (ended raised) awaiting_events = true
is_whole (ended raised) concluding = true
is_whole (ended raised) over = true
is_whole (ended raised) interrupted = true
is_whole (ended raised) phase = false

module _ {A : Type 0} where
  -- The events that a worker has emitted, lost to the sink, dropped, is handing to the sink, or
  -- still has in its queue.
  abbrev pub handled : Worker A → ℕ
  handled w =
      w.metrics.events_emitted
      + w.metrics.event_sink_failures
      + w.metrics.events_dropped
      + length w.event_queue
      + (if is_some w.in_flight then 1 else 0)

  abbrev pub is_offer : Action A → Bool
  is_offer (Action.queues routed) = true
  is_offer _ = false

  -- The callback gives an event, and nothing cancels the task of the events or breaks it.
  abbrev pub is_lossless : Action A → Bool
  is_lossless (Action.queues routed) = is_ok routed
  is_lossless (Action.ends_event_task raised) = false
  is_lossless _ = true

  abbrev HandlesAll : ℕ → Worker A → Type 0
  HandlesAll n w = (handled w ≡ n) × (is_whole w.event_task w.phase ≡ true)
