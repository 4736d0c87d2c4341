-- ===== src/Pipeline/IntrusionDetector.antt =====
-- packages/cv-engine/cv_engine/pipeline/intrusion_detector.py: rate-limited intrusion events.
-- Instants and durations are in microseconds; `a - b < d` and `a < b - d` are written with the
-- subtracted side moved over, as Python's datetimes compare.
pub mod Pruning
pub mod Cooldown
mod Tests
use real_time_surveillance_a.Base.{
  ℕ, zero, suc, ◌+◌, ◌-◌, ◌*◌, ◌/◌, ◌%◌, ◌≤◌, ◌<◌, min, max, String, ◌≡◌, refl, sym, ap, ◌∙◌, subst,
  ◌≢◌, ◌↔◌, ◌⊎◌, inl, inr, Bool, true, false, not, ◌&&◌, ◌||◌, Option, none, some, List, [], ◌∷◌,
  ◌++◌, map, arith, ltb, leb, if◌then◌else◌, Bool-cases, Option-cases, is_some, Comparable, ◌==◌,
  ==_refl, comparable_nat, comparable_text, comparable_pair, length, length-append, last?,
  last?-snoc, keep_last, length-keep_last, keep_last-short, keep_last-snoc, keep_last-append, All,
  All-append, All-keep_last, All-map, keep_if, any_of, count_if, contains, Result, ok, err, ◌>>=◌,
  ◌>>◌, raise_if, is_ok, Result-cases, ℤ, pos, negsuc, is_negative,
}
use real_time_surveillance_a.Dict.{Dict, lookup, insert, drop_if}
use real_time_surveillance_a.Pipeline.Floats.{Floats}
use real_time_surveillance_a.Pipeline.Types.{
  ValueError, negative_parameter, ZoneEventType, enter, exit, ZoneEvent, IntrusionEvent,
}

abbrev pub AlertKey : Type 0
AlertKey = String × ℕ

pub record IntrusionDetector : Type 0 where
  pub zone_ids : List String
  pub cooldown : ℕ
  pub retention : ℕ
  pub last_alert : Dict AlertKey ℕ

pub make : List String → ℤ → ℤ → Result ValueError IntrusionDetector
make zone_ids (pos cooldown) (pos margin) = ok (record {
  zone_ids = zone_ids;
  cooldown = cooldown;
  retention = cooldown + margin;
  last_alert = [];
})
make zone_ids _ _ = err negative_parameter

-- `last_alert < timestamp - retention or (active is not None and key[1] not in active)`
abbrev pub is_stale : IntrusionDetector → ℕ → Option (List ℕ) → AlertKey → ℕ → Bool
is_stale d timestamp none key last = ltb (last + d.retention) timestamp
is_stale d timestamp (some active) key last =
    ltb (last + d.retention) timestamp || not (contains key.1 active)

pub cleanup : ℕ → Option (List ℕ) → IntrusionDetector → ℕ × IntrusionDetector
cleanup timestamp active d =
    let rest = drop_if (is_stale d timestamp active) d.last_alert in
    (length d.last_alert - length rest, record d { last_alert = rest })

abbrev pub is_entry : ZoneEventType → Bool
is_entry enter = true
is_entry exit = false

-- `event.timestamp - previous < cooldown`
abbrev pub in_cooldown : ℕ → Option ℕ → ℕ → Bool
in_cooldown cooldown none timestamp = false
in_cooldown cooldown (some previous) timestamp = ltb timestamp (previous + cooldown)

module _ (fl : Floats) where
  -- `max(event.timestamp for event in zone_events)`
  pub latest : ℕ → List (ZoneEvent fl) → ℕ
  latest m [] = m
  latest m (event ∷ events) = latest (max m event.timestamp) events

  abbrev pub key_of : ZoneEvent fl → AlertKey
  key_of event = (event.zone_id, event.track_id)

  abbrev pub qualifies : List String → ZoneEvent fl → Bool
  qualifies zone_ids event = contains event.zone_id zone_ids && is_entry event.event_type

  abbrev pub alert : ZoneEvent fl → IntrusionEvent fl
  alert event = record {
    zone_id = event.zone_id;
    zone_name = event.zone_name;
    track_id = event.track_id;
    timestamp = event.timestamp;
    confidence = event.confidence;
  }

  -- Whether an event raises an alert, given the last alert of its key.
  abbrev pub raises : List String → ℕ → Option ℕ → ZoneEvent fl → Bool
  raises zone_ids cooldown previous event =
      qualifies zone_ids event && not (in_cooldown cooldown previous event.timestamp)

  pub check_all :
      List String
      → ℕ
      → List (ZoneEvent fl)
      → Dict AlertKey ℕ
      → List (IntrusionEvent fl) × Dict AlertKey ℕ
  check_all zone_ids cooldown [] last_alert = ([], last_alert)
  check_all zone_ids cooldown (event ∷ events) last_alert =
      elim (raises zone_ids cooldown (lookup (key_of event) last_alert) event) [
        | false ↦ check_all zone_ids cooldown events last_alert
        | true ↦
            let (intrusions, after) =
              check_all zone_ids cooldown events
                (insert (key_of event) event.timestamp last_alert) in
            (alert event ∷ intrusions, after)
      ]

  -- `check` after it has found the latest instant of a batch that is not empty.
  pub check_since :
      ℕ → List (ZoneEvent fl) → IntrusionDetector → List (IntrusionEvent fl) × IntrusionDetector
  unfolding cleanup
  check_since timestamp events d =
      let pruned = (cleanup timestamp none d).1 in
      let (intrusions, after) = check_all d.zone_ids d.cooldown events pruned.last_alert in
      (intrusions, record d { last_alert = after })

  pub check : List (ZoneEvent fl) → IntrusionDetector → List (IntrusionEvent fl) × IntrusionDetector
  check [] d = ([], d)
  check (event ∷ events) d = check_since (latest event.timestamp events) (event ∷ events) d
