-- ===== src/Pipeline/PeopleCounter.antt =====
-- packages/cv-engine/cv_engine/pipeline/people_counter.py: the counter of people who cross a line.
-- A call comes back with the counter also when it raises.
pub mod Crossings
pub mod Retention
pub mod Updates
mod Tests
use real_time_surveillance_a.Base.{
  ℕ, zero, suc, ◌+◌, ◌-◌, ◌*◌, ◌/◌, ◌%◌, ◌≤◌, ◌<◌, min, max, String, ◌≡◌, refl, sym, ap, ◌∙◌, subst,
  ◌≢◌, ◌↔◌, ◌⊎◌, inl, inr, Bool, true, false, not, ◌&&◌, ◌||◌, Option, none, some, List, [], ◌∷◌,
  ◌++◌, map, arith, ltb, leb, if◌then◌else◌, Bool-cases, Option-cases, is_some, Comparable, ◌==◌,
  ==_refl, comparable_nat, comparable_text, comparable_pair, length, length-append, last?,
  last?-snoc, keep_last, length-keep_last, keep_last-short, keep_last-snoc, keep_last-append, All,
  All-append, All-keep_last, keep_if, any_of, count_if, contains, Result, ok, err, ◌>>=◌, ◌>>◌,
  raise_if, is_ok, Result-cases, ℤ, pos, negsuc, is_negative,
}
use real_time_surveillance_a.Dict.{Dict, lookup, insert, drop_if}
use real_time_surveillance_a.Pipeline.Floats.{Floats}
use real_time_surveillance_a.Pipeline.Types.{
  ValueError, counting_line_degenerate, negative_parameter, CountDirection, inward, outward, Point,
  TrackedObject, centroid, CountingLine, CountEvent, CountUpdate,
}

-- `stable_side` is -1 or 1.
pub data Side : Type 0 where
  negative positive : Side

pub record TrackState : Type 0 where
  pub stable_side : Side
  pub last_seen_frame : ℕ

-- The counter without its configuration.
pub record Tally : Type 0 where
  pub count_in : ℕ
  pub count_out : ℕ
  pub track_states : Dict ℕ TrackState
  pub frame_index : ℕ

abbrev pub same_side : Side → Side → Bool
same_side negative negative = true
same_side positive positive = true
same_side _ _ = false

-- `IN if state.stable_side < side else OUT`
pub direction_to : Side → CountDirection
direction_to positive = inward
direction_to negative = outward

abbrev pub count_crossing : CountDirection → Tally → Tally
count_crossing inward t = record t { count_in = t.count_in + 1 }
count_crossing outward t = record t { count_out = t.count_out + 1 }

touch : Option TrackState → ℕ → Tally → Tally
touch none track_id t = t
touch (some state) track_id t = record t {
  track_states = insert track_id (record state { last_seen_frame = t.frame_index }) t.track_states;
}

settle : Option TrackState → ℕ → Side → Tally → Option CountDirection × Tally
unfolding direction_to
settle none track_id side t = (
  none,
  record t {
    track_states =
        insert track_id (record { stable_side = side; last_seen_frame = t.frame_index })
          t.track_states;
  },
)
settle (some state) track_id side t =
    let seen = record t {
      track_states =
          insert track_id (record { stable_side = side; last_seen_frame = t.frame_index })
            t.track_states;
    } in
    if same_side state.stable_side side
    then (none, seen)
    else (some (direction_to side), count_crossing (direction_to side) seen)

-- One person on the frame: `none` for a position within the hysteresis band.
pub observe : ℕ → Option Side → Tally → Option CountDirection × Tally
unfolding touch settle
observe track_id none t = (none, touch (lookup track_id t.track_states) track_id t)
observe track_id (some side) t = settle (lookup track_id t.track_states) track_id side t

abbrev pub is_stale : ℕ → Option (List ℕ) → ℕ → ℕ → TrackState → Bool
is_stale stale_after_frames none frame_index track_id state =
    ltb stale_after_frames (frame_index - state.last_seen_frame)
is_stale stale_after_frames (some active) frame_index track_id state =
    not (contains track_id active)

-- `cleanup`: returns how many states it discarded. `frame_index - last_seen_frame` does not go
-- below zero, since no state is newer than the frame index (`Retention`).
pub cleanup : ℕ → Option (List ℕ) → Tally → ℕ × Tally
cleanup stale_after_frames active t =
    let rest = drop_if (is_stale stale_after_frames active t.frame_index) t.track_states in
    (length t.track_states - length rest, record t { track_states = rest })

pub reset : Tally → Tally
reset t = record { count_in = 0; count_out = 0; track_states = []; frame_index = 0 }

module _ (fl : Floats) where
  open fl use {F, of_ℕ, add, sub, mul, div, hypot, abs, lt, le, eq}

  pub record PeopleCounter : Type 0 where
    pub line : Option (CountingLine fl)
    pub hysteresis_pixels : F
    pub stale_after_frames : ℕ
    pub tally : Tally

  pub make : Option (CountingLine fl) → F → ℤ → Result ValueError PeopleCounter
  make line hysteresis_pixels (negsuc n) = err negative_parameter
  make line hysteresis_pixels (pos stale_after_frames) = do
    raise_if (lt hysteresis_pixels (of_ℕ 0)) negative_parameter
    ok (record {
      line = line;
      hysteresis_pixels = hysteresis_pixels;
      stale_after_frames = stale_after_frames;
      tally = record { count_in = 0; count_out = 0; track_states = []; frame_index = 0 };
    })

  pub pixel_line : CountingLine fl → F → F → Point fl × Point fl
  pixel_line line height width = if not line.normalized then (line.start, line.end) else (
    record { x = mul line.start.x width; y = mul line.start.y height },
    record { x = mul line.end.x width; y = mul line.end.y height },
  )

  pub signed_distance : Point fl → Point fl → Point fl → Result ValueError F
  signed_distance point start end =
      let delta_x = sub end.x start.x in
      let delta_y = sub end.y start.y in
      let distance = hypot delta_x delta_y in
      let cross_product =
        sub (mul delta_x (sub point.y start.y)) (mul delta_y (sub point.x start.x)) in
      if eq distance (of_ℕ 0) then err counting_line_degenerate else ok (div cross_product distance)

  pub side_of : F → F → Option Side
  side_of hysteresis side_value =
      if le (abs side_value) hysteresis
      then none
      else if lt (of_ℕ 0) side_value
      then some positive
      else some negative

  abbrev pub Count : Type 0
  Count = Result ValueError (List CountEvent) × Tally

  abbrev pub with_crossing : Option CountDirection → ℕ → ℕ → Count → Count
  with_crossing none track_id now r = r
  with_crossing (some direction) track_id now (ok events, t) =
      (ok (record { track_id = track_id; direction = direction; timestamp = now } ∷ events), t)
  with_crossing (some direction) track_id now (err e, t) = (err e, t)

  -- The loop over the tracked objects: the crossings that it appends, in order.
  pub count_all : F → Point fl → Point fl → ℕ → List (TrackedObject fl) → Tally → Count
  unfolding signed_distance side_of
  count_all h start end now [] t = (ok [], t)
  count_all h start end now (item ∷ items) t = elim (item.class_id == 0) [
    | false ↦ count_all h start end now items t
    | true ↦ elim (signed_distance (centroid fl item.bbox) start end) [
      | err e ↦ (err e, t)
      | ok side_value ↦
          let (crossing, t') = observe item.track_id (side_of h side_value) t in
          with_crossing crossing item.track_id now (count_all h start end now items t')
    ]
  ]

  pub finish : ℕ → Count → Result ValueError CountUpdate × Tally
  unfolding cleanup
  finish stale_after_frames (err e, t) = (err e, t)
  finish stale_after_frames (ok events, t) = (
    ok (record { count_in = t.count_in; count_out = t.count_out; events = events }),
    (cleanup stale_after_frames none t).1,
  )

  pub update :
      PeopleCounter
      → List (TrackedObject fl)
      → F
      → F
      → ℕ
      → Result ValueError CountUpdate × PeopleCounter
  unfolding count_all finish pixel_line
  update c tracked height width now =
      let t = record c.tally { frame_index = c.tally.frame_index + 1 } in
      elim c.line [
        | none ↦ (
          ok (record { count_in = t.count_in; count_out = t.count_out; events = [] }),
          record c { tally = t },
        )
        | some line ↦
            let (start, end) = pixel_line line height width in
            let (r, t') =
              finish c.stale_after_frames (count_all c.hysteresis_pixels start end now tracked t) in
            (r, record c { tally = t' })
      ]
