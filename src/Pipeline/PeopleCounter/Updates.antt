-- ===== src/Pipeline/PeopleCounter/Updates.antt =====
-- One update of the people counter as a whole.
use real_time_surveillance_a.Base.{
  ℕ, ◌+◌, ◌≡◌, refl, sym, ◌∙◌, inl, inr, Bool, true, false, none, some, List, [], ◌∷◌, arith,
  Bool-cases, Option-cases, is_some, ◌==◌, comparable_nat, comparable_text, comparable_pair, Result,
  ok, err, is_ok,
}
use mathlib.Core.Bool.{false≢true}
use real_time_surveillance_a.Dict.{lookup, lookup-drop_if}
use real_time_surveillance_a.Pipeline.Floats.{Floats}
use real_time_surveillance_a.Pipeline.Types.{ValueError, Point, TrackedObject, CountUpdate}
use real_time_surveillance_a.Pipeline.PeopleCounter.{
  Tally, cleanup, is_stale, PeopleCounter, count_all, with_crossing, finish, update, Count,
}
use real_time_surveillance_a.Pipeline.PeopleCounter.Crossings.{
  ins, outs, of_track, beyond, Counted, Balanced, count_all-Counted, count_all-Balanced,
}
use real_time_surveillance_a.Pipeline.PeopleCounter.Retention.{
  IsValid, next_frame-IsValid, count_all-IsValid,
}

-- What an update from `t` reports, if it returns.
abbrev pub Reports : Tally → Result ValueError CountUpdate × Tally → Type 0
Reports t (err e, t') = t' ≡ record t { frame_index = t.frame_index + 1 }
Reports t (ok u, t') =
    (t'.count_in ≡ t.count_in + ins u.events)
    × (t'.count_out ≡ t.count_out + outs u.events)
    × (u.count_in ≡ t'.count_in)
    × (u.count_out ≡ t'.count_out)
    × (t'.frame_index ≡ t.frame_index + 1)

-- The crossings of track `j` in a returned update take it from its old side to its new one.
abbrev pub Crosses : ℕ → Tally → Result ValueError CountUpdate × Tally → Type 0
Crosses j t (err e, t') = Unit
Crosses j t (ok u, t') =
    beyond (lookup j t'.track_states) + outs (of_track j u.events)
    ≡ beyond (lookup j t.track_states) + ins (of_track j u.events)

module _ (fl : Floats) where
  open fl use {F, of_ℕ, sub, hypot, eq}

  abbrev degenerate : Point fl → Point fl → Bool
  degenerate start end = eq (hypot (sub end.x start.x) (sub end.y start.y)) (of_ℕ 0)

  count_all-degenerate :
      (h : F) (start end : Point fl) (now : ℕ) (items : List (TrackedObject fl)) (t : Tally)
      → degenerate start end ≡ true
      → (count_all fl h start end now items t).1 ≡ t
  unfolding count_all
  count_all-degenerate h start end now [] t d = refl
  count_all-degenerate h start end now (item ∷ items) t d = elim (Bool-cases (item.class_id == 0)) [
    | inr other ↦ rw (other, count_all) (count_all-degenerate h start end now items t d)
    | inl person ↦ rw (person, d, count_all) refl
  ]

  with_crossing-ok :
      (crossing : _) (k now : ℕ) (r : Count fl)
      → is_ok r.0 ≡ true
      → is_ok (with_crossing fl crossing k now r).0 ≡ true
  with_crossing-ok none k now r h = h
  with_crossing-ok (some d) k now (ok events, t) h = refl
  with_crossing-ok (some d) k now (err e, t) h = h

  count_all-proper :
      (h : F) (start end : Point fl) (now : ℕ) (items : List (TrackedObject fl)) (t : Tally)
      → degenerate start end ≡ false
      → is_ok (count_all fl h start end now items t).0 ≡ true
  unfolding count_all
  count_all-proper h start end now [] t d = refl
  count_all-proper h start end now (item ∷ items) t d = elim (Bool-cases (item.class_id == 0)) [
    | inr other ↦ rw (other, count_all) (count_all-proper h start end now items t d)
    | inl person ↦
        rw (person, d, count_all)
          (with_crossing-ok _ item.track_id now _ (count_all-proper h start end now items _ d))
  ]

  finish-Reports :
      (n : ℕ) (t : Tally) (r : Count fl)
      → Counted (record t { frame_index = t.frame_index + 1 }) r
      → (is_ok r.0 ≡ false → r.1 ≡ record t { frame_index = t.frame_index + 1 })
      → Reports t (finish fl n r)
  unfolding finish cleanup
  finish-Reports n t (err e, t') h k = k refl
  finish-Reports n t (ok events, t') h k = omega arith

  count_all-err :
      (h : F) (start end : Point fl) (now : ℕ) (items : List (TrackedObject fl)) (t : Tally)
      → is_ok (count_all fl h start end now items t).0 ≡ false
      → (count_all fl h start end now items t).1 ≡ t
  count_all-err h start end now items t failed = elim (Bool-cases (degenerate start end)) [
    | inl d ↦ count_all-degenerate h start end now items t d
    | inr d ↦ absurd (false≢true (sym failed ∙ count_all-proper h start end now items t d))
  ]

  -- An update that returns reports its new counts, which exceed the old ones by exactly the
  -- inward and the outward crossings among the reported events. An update that raises has only
  -- advanced the frame index.
  pub update-Reports :
      (c : PeopleCounter fl) (tracked : List (TrackedObject fl)) (height width : F) (now : ℕ)
      → let (r, c') = update fl c tracked height width now in Reports c.tally (r, c'.tally)
  unfolding update
  update-Reports c tracked height width now = elim (Option-cases c.line) [
    | inl e ↦ rw (e, update) (omega arith)
    | inr (line, e) ↦
        rw (e, update)
          (finish-Reports c.stale_after_frames c.tally _ (count_all-Counted fl _ _ _ now tracked _)
            (count_all-err _ _ _ now tracked _))
  ]

  finish-Crosses :
      (n j : ℕ) (t : Tally) (r : Count fl)
      → IsValid r.1
      → Balanced j t r
      → is_some (lookup j (finish fl n r).1.track_states) ≡ true
      → Crosses j t (finish fl n r)
  unfolding finish cleanup
  finish-Crosses n j t (err e, t') v h kept = tt
  finish-Crosses n j t (ok events, t') v h kept =
      ground (arith, lookup-drop_if (is_stale n none t'.frame_index) j t'.track_states v.unique)

  -- For a track whose side is known before and after a returned update, the inward crossings
  -- less the outward ones are the change of its side, counting 1 for the positive side: so no
  -- crossing of it is counted twice in one direction without one back between them.
  pub update-Crosses :
      (c : PeopleCounter fl) (tracked : List (TrackedObject fl)) (height width : F) (now j : ℕ)
      → IsValid c.tally
      → is_some (lookup j c.tally.track_states) ≡ true
      → is_some (lookup j (update fl c tracked height width now).1.tally.track_states) ≡ true
      → let (r, c') = update fl c tracked height width now in Crosses j c.tally (r, c'.tally)
  unfolding update
  update-Crosses c tracked height width now j v known kept = elim (Option-cases c.line) [
    | inl e ↦ rw (e, update) refl
    | inr (line, e) ↦
        rw (e, update)
          (finish-Crosses c.stale_after_frames j c.tally _
            (count_all-IsValid fl _ _ _ now tracked _ (next_frame-IsValid fl c.tally v))
            (count_all-Balanced fl _ _ _ now j tracked _ known) (rw (e, update) at kept))
  ]
