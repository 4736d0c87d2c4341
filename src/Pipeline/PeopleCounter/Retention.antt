-- ===== src/Pipeline/PeopleCounter/Retention.antt =====
-- Which states the people counter keeps.
use real_time_surveillance_a.Base.{
  ℕ, ◌+◌, ◌≤◌, ◌≡◌, refl, ◌≢◌, inl, inr, true, Option, none, some, List, [], ◌∷◌, arith, Bool-cases,
  Option-cases, ◌==◌, comparable_nat, comparable_text, comparable_pair, All, All-map, ok, err,
  is_ok, Result-cases,
}
use real_time_surveillance_a.Dict.{
  lookup, insert, HasUniqueKeys, insert-HasUniqueKeys, drop_if-HasUniqueKeys, All-insert,
  All-drop_if, All-drop_if_test,
}
use real_time_surveillance_a.Pipeline.Floats.{Floats}
use real_time_surveillance_a.Pipeline.Types.{
  CountDirection, inward, outward, Point, TrackedObject, centroid,
}
use real_time_surveillance_a.Pipeline.PeopleCounter.{
  Side, TrackState, Tally, direction_to, count_crossing, observe, touch, settle, same_side, cleanup,
  is_stale, PeopleCounter, count_all, with_crossing, finish, update, Count, signed_distance,
  side_of,
}

-- Every track has one state, and no state is newer than the frame.
pub record IsValid (t : Tally) : Type 0 where
  pub unique : HasUniqueKeys t.track_states
  pub seen : All (λ (e : ℕ × TrackState). e.1.last_seen_frame ≤ t.frame_index) t.track_states

-- No state is older than `stale_after_frames` frames.
abbrev pub IsFresh : ℕ → Tally → Type 0
IsFresh stale_after_frames t =
    All (λ (e : ℕ × TrackState). t.frame_index ≤ e.1.last_seen_frame + stale_after_frames)
      t.track_states

write-IsValid :
    (k : ℕ) (side : Side) (t : Tally)
    → IsValid t
    → IsValid (record t {
      track_states =
          insert k (record { stable_side = side; last_seen_frame = t.frame_index }) t.track_states;
    })
write-IsValid k side t v = record {
  unique = insert-HasUniqueKeys k _ t.track_states v.unique;
  seen = All-insert _ k _ t.track_states (omega arith) v.seen;
}

count_crossing-IsValid : (d : CountDirection) (t : Tally) → IsValid t → IsValid (count_crossing d t)
count_crossing-IsValid inward t v = record { unique = v.unique; seen = v.seen }
count_crossing-IsValid outward t v = record { unique = v.unique; seen = v.seen }

touch-IsValid : (o : Option TrackState) (k : ℕ) (t : Tally) → IsValid t → IsValid (touch o k t)
unfolding touch
touch-IsValid none k t v = v
touch-IsValid (some state) k t v = write-IsValid k state.stable_side t v

settle-IsValid :
    (o : Option TrackState) (k : ℕ) (side : Side) (t : Tally)
    → IsValid t
    → IsValid (settle o k side t).1
unfolding settle
settle-IsValid none k side t v = write-IsValid k side t v
settle-IsValid (some state) k side t v = elim (Bool-cases (same_side state.stable_side side)) [
  | inl e ↦ rw (e, settle) (write-IsValid k side t v)
  | inr e ↦ rw (e, settle) (count_crossing-IsValid (direction_to side) _ (write-IsValid k side t v))
]

observe-IsValid : (k : ℕ) (s : Option Side) (t : Tally) → IsValid t → IsValid (observe k s t).1
unfolding observe
observe-IsValid k none t v = touch-IsValid (lookup k t.track_states) k t v
observe-IsValid k (some side) t v = settle-IsValid (lookup k t.track_states) k side t v

cleanup-IsValid :
    (n : ℕ) (active : Option (List ℕ)) (t : Tally) → IsValid t → IsValid (cleanup n active t).1
unfolding cleanup
cleanup-IsValid n active t v = record {
  unique = drop_if-HasUniqueKeys _ t.track_states v.unique;
  seen = All-drop_if _ _ t.track_states v.seen;
}

cleanup-IsFresh : (n : ℕ) (t : Tally) → IsFresh n (cleanup n none t).1
unfolding cleanup
cleanup-IsFresh n t =
    All-map _ _ _ (λ e h. ground arith)
      (All-drop_if_test (is_stale n none t.frame_index) t.track_states)

module _ (fl : Floats) where
  open fl use {F}

  with_crossing-state :
      (crossing : Option CountDirection) (k now : ℕ) (r : Count fl)
      → (with_crossing fl crossing k now r).1 ≡ r.1
  with_crossing-state none k now r = refl
  with_crossing-state (some d) k now (ok events, t) = refl
  with_crossing-state (some d) k now (err e, t) = refl

  pub count_all-IsValid :
      (h : F) (start end : Point fl) (now : ℕ) (items : List (TrackedObject fl)) (t : Tally)
      → IsValid t
      → IsValid (count_all fl h start end now items t).1
  unfolding count_all
  count_all-IsValid h start end now [] t v = v
  count_all-IsValid h start end now (item ∷ items) t v = elim (Bool-cases (item.class_id == 0)) [
    | inr other ↦ rw (other, count_all) (count_all-IsValid h start end now items t v)
    | inl person ↦ elim (Result-cases (signed_distance fl (centroid fl item.bbox) start end)) [
      | inr (e, bad) ↦ rw (person, bad, count_all) v
      | inl (side_value, good) ↦
          let side = side_of fl h side_value in
          let step = observe item.track_id side t in
          rw (person, good, count_all)
            (rw (with_crossing-state step.0 item.track_id now) (
              count_all-IsValid h start end now items step.1
                (observe-IsValid item.track_id side t v)))
    ]
  ]

  finish-IsValid : (n : ℕ) (r : Count fl) → IsValid r.1 → IsValid (finish fl n r).1
  unfolding finish
  finish-IsValid n (err e, t) v = v
  finish-IsValid n (ok events, t) v = cleanup-IsValid n none t v

  pub next_frame-IsValid :
      (t : Tally) → IsValid t → IsValid (record t { frame_index = t.frame_index + 1 })
  next_frame-IsValid t v = record {
    unique = v.unique;
    seen = All-map _ _ t.track_states (λ e h. omega arith) v.seen;
  }

  -- Every update, also one that raises, leaves one state for each track and none newer than the
  -- frame index.
  pub update-IsValid :
      (c : PeopleCounter fl) (tracked : List (TrackedObject fl)) (height width : F) (now : ℕ)
      → IsValid c.tally
      → IsValid (update fl c tracked height width now).1.tally
  unfolding update
  update-IsValid c tracked height width now v = elim (Option-cases c.line) [
    | inl e ↦ rw (e, update) (next_frame-IsValid c.tally v)
    | inr (line, e) ↦
        rw (e, update)
          (finish-IsValid c.stale_after_frames _
            (count_all-IsValid _ _ _ now tracked _ (next_frame-IsValid c.tally v)))
  ]

  finish-IsFresh :
      (n : ℕ) (r : Count fl) → is_ok (finish fl n r).0 ≡ true → IsFresh n (finish fl n r).1
  unfolding finish
  finish-IsFresh n (err e, t) h = cc
  finish-IsFresh n (ok events, t) h = cleanup-IsFresh n t

  -- An update of a counter with a line that returns leaves no state of a track that was last seen
  -- more than `stale_after_frames` frames ago.
  pub update-IsFresh :
      (c : PeopleCounter fl) (tracked : List (TrackedObject fl)) (height width : F) (now : ℕ)
      → c.line ≢ none
      → is_ok (update fl c tracked height width now).0 ≡ true
      → IsFresh c.stale_after_frames (update fl c tracked height width now).1.tally
  unfolding update
  update-IsFresh c tracked height width now some_line h = elim (Option-cases c.line) [
    | inl e ↦ absurd (some_line e)
    | inr (line, e) ↦ rw (e, update) (finish-IsFresh c.stale_after_frames _ (rw (e, update) at h))
  ]
