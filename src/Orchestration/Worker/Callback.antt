-- ===== src/Orchestration/Worker/Callback.antt =====
-- `RoutedAnalyticsEvent.from_callback` of models.py. An attribute of the wrong type, or a time
-- without a time zone, is `none`; `str.strip` and `str.casefold` are parameters.
use real_time_surveillance_a.Base.{
  ℕ, String, ◌≡◌, true, false, Option, none, some, if◌then◌else◌, ◌==◌, comparable_nat,
  comparable_text, comparable_pair, Result, ok, err, ◌>>=◌,
}
use real_time_surveillance_a.Orchestration.Errors.{
  OrchestrationError, Patterns, callback, orchestration_error,
}
use real_time_surveillance_a.Orchestration.Payload.{Fields, from_mapping, to_dict}
use real_time_surveillance_a.Orchestration.Payload.Safety.{listed_fields, is_safe_payload}
use real_time_surveillance_a.Orchestration.Worker.Record.{RoutedAnalyticsEvent}

pub record CallbackEvent : Type 0 where
  pub event_type : Option String
  pub timestamp : Option ℕ
  pub track_id : Option ℕ
  pub zone_id : Option String
  pub payload : Option Fields

-- The callback's fields, with a list for each sequence.
abbrev pub given_fields : Option Fields → Option Fields
given_fields none = none
given_fields (some fields) = some (listed_fields fields)

module _ (re : Patterns) (strip casefold : String → String) where
  unfoldable pub aware_utc : Option ℕ → String → Result OrchestrationError ℕ
  aware_utc none message = err (orchestration_error re callback none message)
  aware_utc (some t) message = ok t

  unfoldable pub named : String → Option String → Result OrchestrationError String
  named camera_id none =
      err (orchestration_error re callback (some camera_id) "event type must be a non-empty string")
  named camera_id (some text) =
      if strip text == ""
      then err
          (orchestration_error re callback (some camera_id) "event type must be a non-empty string")
      else ok text

  unfoldable pub mapped : String → Option Fields → Result OrchestrationError Fields
  mapped camera_id none =
      err (orchestration_error re callback (some camera_id) "event payload must be a mapping")
  mapped camera_id (some fields) = ok fields

  unfoldable pub from_callback :
      String → ℕ → CallbackEvent → Option ℕ → Result OrchestrationError RoutedAnalyticsEvent
  unfolding aware_utc named mapped
  from_callback camera_id generation event accepted_at = do
    event_type ← named camera_id event.event_type
    timestamp ← aware_utc event.timestamp "event timestamp must be timezone-aware"
    fields ← mapped camera_id event.payload
    payload ← from_mapping casefold fields
    accepted ← aware_utc accepted_at "accepted_at must be timezone-aware"
    ok (record {
      camera_id = camera_id;
      generation = generation;
      event_type = event_type;
      timestamp = timestamp;
      track_id = event.track_id;
      zone_id = event.zone_id;
      payload = payload;
      accepted_at = accepted;
    })

  -- What is shown of a routed event.
  abbrev IsSound : String → ℕ → CallbackEvent → RoutedAnalyticsEvent → Type 0
  IsSound camera_id generation event routed =
      (routed.camera_id ≡ camera_id)
      × (routed.generation ≡ generation)
      × ((strip routed.event_type == "") ≡ false)
      × (given_fields event.payload ≡ some (to_dict routed.payload))
      × (is_safe_payload casefold routed.payload ≡ true)
