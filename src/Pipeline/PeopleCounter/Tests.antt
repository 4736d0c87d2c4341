-- ===== src/Pipeline/PeopleCounter/Tests.antt =====
-- A counter over whole numbers: the line runs along y = 10, and people move across it.
use real_time_surveillance_a.Base.{
  ℕ, ◌+◌, ◌≡◌, refl, false, some, [], ◌∷◌, arith, comparable_nat, comparable_text, comparable_pair,
  Result, ok,
}
use real_time_surveillance_a.Dict.{lookup, insert, drop_if}
use real_time_surveillance_a.Pipeline.Floats.{whole}
use real_time_surveillance_a.Pipeline.Types.{
  ValueError, TrackedObject, centroid, CountingLine, CountUpdate, inward,
}
use real_time_surveillance_a.Pipeline.PeopleCounter.{
  negative, PeopleCounter, observe, cleanup, update,
}
use real_time_surveillance_a.Pipeline.PeopleCounter.Retention.{
  IsValid, IsFresh, update-IsValid, update-IsFresh,
}
use real_time_surveillance_a.Pipeline.PeopleCounter.Updates.{
  Reports, Crosses, update-Reports, update-Crosses,
}

abbrev person : ℕ → ℕ → TrackedObject whole
person track y = record {
  bbox = record { x1 = 3; y1 = y; x2 = 5; y2 = y + 2 };
  track_id = track;
  class_id = 0;
  class_name = "person";
  confidence = 1;
}

abbrev line : CountingLine whole
line = record {
  start = record { x = 0; y = 10 };
  end = record { x = 1; y = 10 };
  normalized = false;
}

-- Track 7 was last seen before the line.
abbrev counter : PeopleCounter whole
counter = record {
  line = some line;
  hysteresis_pixels = 2;
  stale_after_frames = 30;
  tally = record {
    count_in = 4;
    count_out = 1;
    track_states = (7, record { stable_side = negative; last_seen_frame = 8 }) ∷ [];
    frame_index = 9;
  };
}

abbrev after_crossing : Result ValueError CountUpdate × PeopleCounter whole
after_crossing = update whole counter (person 7 20 ∷ person 8 4 ∷ []) 480 640 1000

after_crossing_counts :
    after_crossing.0
    ≡ ok (record {
      count_in = 5;
      count_out = 1;
      events = (record { track_id = 7; direction = inward; timestamp = 1000 }) ∷ [];
    })
unfolding update observe lookup insert drop_if cleanup centroid
after_crossing_counts = refl

counter-IsValid : IsValid counter.tally
unfolding lookup
counter-IsValid = record { unique = (refl, tt); seen = (omega arith, tt) }

update-IsValid_example : IsValid after_crossing.1.tally
update-IsValid_example =
    update-IsValid whole counter (person 7 20 ∷ person 8 4 ∷ []) 480 640 1000 counter-IsValid

update-IsFresh_example : IsFresh 30 after_crossing.1.tally
unfolding update observe lookup insert drop_if cleanup centroid
update-IsFresh_example =
    update-IsFresh whole counter (person 7 20 ∷ person 8 4 ∷ []) 480 640 1000 (λ e. cc) refl

update-Reports_example : Reports counter.tally (after_crossing.0, after_crossing.1.tally)
update-Reports_example = update-Reports whole counter (person 7 20 ∷ person 8 4 ∷ []) 480 640 1000

update-Crosses_example : Crosses 7 counter.tally (after_crossing.0, after_crossing.1.tally)
unfolding update observe lookup insert drop_if cleanup centroid
update-Crosses_example =
    update-Crosses whole counter (person 7 20 ∷ person 8 4 ∷ []) 480 640 1000 7 counter-IsValid refl
      refl
