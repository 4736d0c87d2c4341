-- ===== src/Pipeline/ZoneAnalyzer/Balance.antt =====
-- The entries and exits of one frame against the presences before and after it.
use real_time_surveillance_a.Base.{
  ℕ, ◌+◌, String, ◌≡◌, refl, sym, ap, ◌∙◌, inl, inr, Bool, true, false, not, ◌&&◌, some, List, [],
  ◌∷◌, arith, if◌then◌else◌, Bool-cases, ◌==◌, comparable_nat, comparable_text, comparable_pair,
  count_if,
}
use real_time_surveillance_a.Dict.{
  Dict, lookup, insert, drop_if, lookup-insert, lookup-drop_if_kept,
}
use real_time_surveillance_a.Pipeline.Floats.{Floats}
use real_time_surveillance_a.Pipeline.Types.{
  ZoneEventType, enter, exit, Point, TrackedObject, Zone, ZoneEvent,
}
use real_time_surveillance_a.Pipeline.ZoneAnalyzer.{
  PresenceKey, Presence, or_false, was_inside, ZoneAnalyzer, polygons_of, is_inside, crossing,
  observe, pairs_of, see_all, is_gone, discard_stale, analyze,
}

abbrev pub as_number : Bool → ℕ
as_number true = 1
as_number false = 0

abbrev pub is_enter : ZoneEventType → Bool
is_enter enter = true
is_enter exit = false

was_inside-insert :
    (key k : PresenceKey) (inside : Bool) (presence : Presence)
    → was_inside k (insert key inside presence)
      ≡ or_false (if key == k then some inside else lookup k presence)
unfolding was_inside
was_inside-insert key k inside presence = ap or_false (lookup-insert key k inside presence)

was_inside-drop_if :
    (gone : PresenceKey → Bool) (k : PresenceKey) (presence : Presence)
    → gone k ≡ false
    → was_inside k (drop_if (λ key inside. gone key) presence) ≡ was_inside k presence
unfolding was_inside
was_inside-drop_if gone k presence h = ap or_false (lookup-drop_if_kept gone k presence h)

same_key :
    (key k : PresenceKey) (presence : Presence)
    → (key == k) ≡ true
    → was_inside key presence ≡ was_inside k presence
same_key key k presence e = ap (λ j. was_inside j presence) ((comparable_pair.same_iff key k).0 e)

module _ (fl : Floats) (polygon_test : List (Point fl) → Point fl → Bool) where
  open fl use {F}

  abbrev pub entries : PresenceKey → List (ZoneEvent fl) → ℕ
  entries k events = count_if (λ e. (e.zone_id, e.track_id) == k && is_enter e.event_type) events

  abbrev pub exits : PresenceKey → List (ZoneEvent fl) → ℕ
  exits k events =
      count_if (λ e. (e.zone_id, e.track_id) == k && not (is_enter e.event_type)) events

  -- The same for the loop over the tracks and zones, before stale presences are discarded.
  observe-entries :
      (now : ℕ) (polygons : Dict String (List (Point fl)))
      (pairs : List (TrackedObject fl × Zone fl)) (presence : Presence) (k : PresenceKey)
      → entries k (observe fl polygon_test now polygons pairs presence).0
          + as_number (was_inside k presence)
        ≡ exits k (observe fl polygon_test now polygons pairs presence).0
          + as_number (was_inside k (observe fl polygon_test now polygons pairs presence).1)
  unfolding observe count_if crossing was_inside
  observe-entries now polygons [] presence k = refl
  observe-entries now polygons ((item, zone) ∷ pairs) presence k =
      let key : PresenceKey = (zone.id, item.track_id) in
      let inside = is_inside fl polygon_test polygons item zone in
      let rest = observe-entries now polygons pairs (insert key inside presence) k in
      elim (Bool-cases (key == k)) [
        | inl e ↦
            ground (arith, rest, was_inside-insert key k inside presence, same_key key k presence e)
        | inr e ↦ ground (arith, rest, was_inside-insert key k inside presence)
      ]

  -- In one frame, for each zone and each track that is not discarded at its end as stale, the
  -- entries together with a presence before are as many as the exits together with a presence
  -- after, whatever the polygons are and whichever zones or tracks stand twice. A track is
  -- discarded when it was last seen more than `stale_after_frames` ago.
  pub analyze-entries :
      (tracked : List (TrackedObject fl)) (height width : F) (now : ℕ)
      (z : ZoneAnalyzer fl polygon_test) (k : PresenceKey)
      → is_gone fl polygon_test
          (z.frame_index + 1)
          z.stale_after_frames
          (see_all fl polygon_test (z.frame_index + 1) tracked z.last_seen)
          k.1
        ≡ false
      → let o = analyze fl polygon_test tracked height width now z in
        entries k o.0 + as_number (was_inside k z.presence)
        ≡ exits k o.0 + as_number (was_inside k o.1.presence)
  unfolding analyze discard_stale
  analyze-entries tracked height width now z k kept =
      let seen = see_all fl polygon_test (z.frame_index + 1) tracked z.last_seen in
      let o =
        observe fl polygon_test now (polygons_of fl polygon_test z.zones height width)
          (pairs_of fl polygon_test tracked z.zones) z.presence in
      let same =
        was_inside-drop_if
          (λ key. is_gone fl polygon_test (z.frame_index + 1) z.stale_after_frames seen key.1) k o.1
          kept in
      observe-entries now (polygons_of fl polygon_test z.zones height width)
        (pairs_of fl polygon_test tracked z.zones) z.presence k
      ∙ ap (λ b. exits k o.0 + as_number b) (sym same)
