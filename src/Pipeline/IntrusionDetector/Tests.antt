-- ===== src/Pipeline/IntrusionDetector/Tests.antt =====
-- A detector over the zone "gate", with a cooldown of 5 and a retention of 8.
use real_time_surveillance_a.Base.{
  ℕ, ◌≡◌, refl, none, [], ◌∷◌, map, arith, comparable_nat, comparable_text, comparable_pair,
  contains,
}
use real_time_surveillance_a.Dict.{lookup, insert, drop_if}
use real_time_surveillance_a.Pipeline.Floats.{whole}
use real_time_surveillance_a.Pipeline.Types.{ZoneEventType, enter, exit, ZoneEvent}
use real_time_surveillance_a.Pipeline.IntrusionDetector.{
  IntrusionDetector, check_all, check_since, check, latest,
}
use real_time_surveillance_a.Pipeline.IntrusionDetector.Pruning.{
  Batches, check_batches, recall_batches, check_batches-eq-recall_batches,
}
use real_time_surveillance_a.Pipeline.IntrusionDetector.Cooldown.{Spaced, check_batches-Spaced}

abbrev detector : IntrusionDetector
detector = record { zone_ids = "gate" ∷ []; cooldown = 5; retention = 8; last_alert = [] }

abbrev entry : ℕ → ZoneEventType → ZoneEvent whole
entry now event_type = record {
  zone_id = "gate";
  zone_name = "Gate";
  track_id = 3;
  event_type = event_type;
  timestamp = now;
  confidence = 1;
}

-- In and out of the zone; the second entry is too early for an alert, and at 30 the first alert is
-- forgotten.
abbrev batches : Batches whole
batches =
    (10, entry 10 enter ∷ [])
    ∷ (12, entry 12 exit ∷ [])
    ∷ (13, entry 13 enter ∷ [])
    ∷ (30, entry 30 enter ∷ [])
    ∷ []

check_batches_times : map (λ i. i.timestamp) (check_batches whole batches detector).0 ≡ 10 ∷ 30 ∷ []
unfolding check_batches check check_since check_all latest lookup insert drop_if contains
check_batches_times = refl

check_batches-eq-recall_batches_example :
    (check_batches whole batches detector).0
    ≡ (recall_batches whole ("gate" ∷ []) 5 batches (λ k. none)).0
check_batches-eq-recall_batches_example =
    check_batches-eq-recall_batches whole batches detector (omega arith) (omega arith) refl

check_batches-Spaced_example : Spaced whole 5 (λ k. none) (check_batches whole batches detector).0
check_batches-Spaced_example =
    check_batches-Spaced whole batches detector (omega arith) (omega arith) refl
