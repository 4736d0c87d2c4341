-- ===== src/Pipeline/PeopleCounter/Crossings.antt =====
-- What the counts of the people counter mean.
use real_time_surveillance_a.Base.{
  ℕ, suc, ◌+◌, ◌≡◌, refl, inl, inr, true, Option, none, some, List, [], ◌∷◌, arith, if◌then◌else◌,
  Bool-cases, is_some, ◌==◌, comparable_nat, comparable_text, comparable_pair, Result, ok, err,
  Result-cases,
}
use real_time_surveillance_a.Dict.{lookup, lookup-insert}
use real_time_surveillance_a.Pipeline.Floats.{Floats}
use real_time_surveillance_a.Pipeline.Types.{
  ValueError, CountDirection, inward, outward, Point, TrackedObject, centroid, CountEvent,
}
use real_time_surveillance_a.Pipeline.PeopleCounter.{
  Side, negative, positive, TrackState, Tally, direction_to, observe, touch, settle, count_all,
  with_crossing, Count, signed_distance, side_of,
}

abbrev pub ins : List CountEvent → ℕ
ins [] = 0
ins (event ∷ events) = elim event.direction [ inward ↦ suc (ins events) | outward ↦ ins events ]

abbrev pub outs : List CountEvent → ℕ
outs [] = 0
outs (event ∷ events) = elim event.direction [ inward ↦ outs events | outward ↦ suc (outs events) ]

-- The events of one track.
abbrev pub of_track : ℕ → List CountEvent → List CountEvent
of_track k [] = []
of_track k (event ∷ events) =
    if event.track_id == k then event ∷ of_track k events else of_track k events

-- 1 for a track last seen on the positive side.
abbrev pub beyond : Option TrackState → ℕ
beyond none = 0
beyond (some state) = elim state.stable_side [ negative ↦ 0 | positive ↦ 1 ]

abbrev crossing_in : Option CountDirection → ℕ
crossing_in none = 0
crossing_in (some inward) = 1
crossing_in (some outward) = 0

abbrev crossing_out : Option CountDirection → ℕ
crossing_out none = 0
crossing_out (some inward) = 0
crossing_out (some outward) = 1

observe_counts :
    (k : ℕ) (s : Option Side) (t : Tally)
    → let (crossing, t') = observe k s t in
      (t'.count_in ≡ t.count_in + crossing_in crossing)
      × (t'.count_out ≡ t.count_out + crossing_out crossing)
      × (t'.frame_index ≡ t.frame_index)
unfolding observe
observe_counts k none t = ground arith
observe_counts k (some side) t = ground arith

abbrev SideKept : ℕ → ℕ → Tally → Option CountDirection × Tally → Type 0
SideKept k j t (crossing, t') =
    (is_some (lookup j t'.track_states) ≡ true)
    × (beyond (lookup j t'.track_states) + (if k == j then crossing_out crossing else 0)
        ≡ beyond (lookup j t.track_states) + (if k == j then crossing_in crossing else 0))

settle_side :
    (o : Option TrackState) (k j : ℕ) (side : Side) (t : Tally)
    → lookup k t.track_states ≡ o
    → is_some (lookup j t.track_states) ≡ true
    → SideKept k j t (settle o k side t)
unfolding settle direction_to
settle_side none k j side t e known = ground (
  arith,
  lookup-insert k j (record { stable_side = side; last_seen_frame = t.frame_index }) t.track_states,
)
settle_side (some state) k j side t e known = ground (
  arith,
  lookup-insert k j (record { stable_side = side; last_seen_frame = t.frame_index }) t.track_states,
)

touch_side :
    (o : Option TrackState) (k j : ℕ) (t : Tally)
    → lookup k t.track_states ≡ o
    → is_some (lookup j t.track_states) ≡ true
    → SideKept k j t (none, touch o k t)
unfolding touch
touch_side none k j t e known = ground arith
touch_side (some state) k j t e known =
    ground
      (arith, lookup-insert k j (record state { last_seen_frame = t.frame_index }) t.track_states)

-- A known track crosses inwards exactly when its side goes from -1 to 1.
observe_side :
    (k j : ℕ) (s : Option Side) (t : Tally)
    → is_some (lookup j t.track_states) ≡ true
    → SideKept k j t (observe k s t)
unfolding observe
observe_side k j none t known = touch_side (lookup k t.track_states) k j t refl known
observe_side k j (some side) t known = settle_side (lookup k t.track_states) k j side t refl known

-- What a run of the loop from `t` has done.
abbrev pub Counted : Tally → Result ValueError (List CountEvent) × Tally → Type 0
Counted t (err e, t') = Unit
Counted t (ok events, t') =
    (t'.count_in ≡ t.count_in + ins events)
    × (t'.count_out ≡ t.count_out + outs events)
    × (t'.frame_index ≡ t.frame_index)

abbrev pub Balanced : ℕ → Tally → Result ValueError (List CountEvent) × Tally → Type 0
Balanced j t (err e, t') = Unit
Balanced j t (ok events, t') =
    (is_some (lookup j t'.track_states) ≡ true)
    × (beyond (lookup j t'.track_states) + outs (of_track j events)
        ≡ beyond (lookup j t.track_states) + ins (of_track j events))

module _ (fl : Floats) where
  with_crossing-Counted :
      (k now : ℕ) (t : Tally) (step : Option CountDirection × Tally) (r : Count fl)
      → (step.1.count_in ≡ t.count_in + crossing_in step.0)
      → (step.1.count_out ≡ t.count_out + crossing_out step.0)
      → (step.1.frame_index ≡ t.frame_index)
      → Counted step.1 r
      → Counted t (with_crossing fl step.0 k now r)
  with_crossing-Counted k now t (none, t') (err e, u) a b c h = tt
  with_crossing-Counted k now t (none, t') (ok events, u) a b c h = omega arith
  with_crossing-Counted k now t (some inward, t') (err e, u) a b c h = tt
  with_crossing-Counted k now t (some inward, t') (ok events, u) a b c h = omega arith
  with_crossing-Counted k now t (some outward, t') (err e, u) a b c h = tt
  with_crossing-Counted k now t (some outward, t') (ok events, u) a b c h = omega arith

  with_crossing-Balanced :
      (k now j : ℕ) (t : Tally) (step : Option CountDirection × Tally) (r : Count fl)
      → SideKept k j t step
      → Balanced j step.1 r
      → Balanced j t (with_crossing fl step.0 k now r)
  with_crossing-Balanced k now j t (none, t') (err e, u) s h = tt
  with_crossing-Balanced k now j t (none, t') (ok events, u) s h = ground arith
  with_crossing-Balanced k now j t (some inward, t') (err e, u) s h = tt
  with_crossing-Balanced k now j t (some inward, t') (ok events, u) s h = ground arith
  with_crossing-Balanced k now j t (some outward, t') (err e, u) s h = tt
  with_crossing-Balanced k now j t (some outward, t') (ok events, u) s h = ground arith

  open fl use {F}

  pub count_all-Counted :
      (h : F) (start end : Point fl) (now : ℕ) (items : List (TrackedObject fl)) (t : Tally)
      → Counted t (count_all fl h start end now items t)
  unfolding count_all
  count_all-Counted h start end now [] t = omega arith
  count_all-Counted h start end now (item ∷ items) t = elim (Bool-cases (item.class_id == 0)) [
    | inr other ↦ rw (other, count_all) (count_all-Counted h start end now items t)
    | inl person ↦ elim (Result-cases (signed_distance fl (centroid fl item.bbox) start end)) [
      | inr (e, bad) ↦ rw (person, bad, count_all) tt
      | inl (side_value, good) ↦
          let side = side_of fl h side_value in
          let counts = observe_counts item.track_id side t in
          rw (person, good, count_all)
            (with_crossing-Counted item.track_id now t (observe item.track_id side t) _ counts.0
              counts.1 counts.2
              (count_all-Counted h start end now items (observe item.track_id side t).1))
    ]
  ]

  pub count_all-Balanced :
      (h : F) (start end : Point fl) (now j : ℕ) (items : List (TrackedObject fl)) (t : Tally)
      → is_some (lookup j t.track_states) ≡ true
      → Balanced j t (count_all fl h start end now items t)
  unfolding count_all
  count_all-Balanced h start end now j [] t known = (known, refl)
  count_all-Balanced h start end now j (item ∷ items) t known =
      elim (Bool-cases (item.class_id == 0)) [
        | inr other ↦ rw (other, count_all) (count_all-Balanced h start end now j items t known)
        | inl person ↦ elim (Result-cases (signed_distance fl (centroid fl item.bbox) start end)) [
          | inr (e, bad) ↦ rw (person, bad, count_all) tt
          | inl (side_value, good) ↦
              let side = side_of fl h side_value in
              let kept = observe_side item.track_id j side t known in
              rw (person, good, count_all)
                (with_crossing-Balanced item.track_id now j t (observe item.track_id side t) _ kept
                  (count_all-Balanced h start end now j items (observe item.track_id side t).1
                    kept.0))
        ]
      ]
