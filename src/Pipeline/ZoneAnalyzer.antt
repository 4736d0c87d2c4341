-- ===== src/Pipeline/ZoneAnalyzer.antt =====
-- packages/cv-engine/cv_engine/pipeline/zone_analyzer.py: who enters and leaves which zone.
-- `cv2.pointPolygonTest(polygon, point, False) >= 0` is a parameter, which takes the points before
-- numpy converts them. The nested loop over tracks and zones is one loop over their pairs.
use real_time_surveillance_a.Base.{
  ℕ, zero, suc, ◌+◌, ◌-◌, ◌*◌, ◌/◌, ◌%◌, ◌≤◌, ◌<◌, min, max, String, ◌≡◌, refl, sym, ap, ◌∙◌, subst,
  ◌≢◌, ◌↔◌, ◌⊎◌, inl, inr, Bool, true, false, not, ◌&&◌, ◌||◌, Option, none, some, List, [], ◌∷◌,
  ◌++◌, map, arith, ltb, leb, if◌then◌else◌, Bool-cases, if_elim, Option-cases, is_some, Comparable,
  ◌==◌, ==_refl, comparable_nat, comparable_text, comparable_pair, length, length-append, last?,
  last?-snoc, keep_last, length-keep_last, keep_last-short, keep_last-snoc, keep_last-append, All,
  All-append, All-keep_last, All-map, keep_if, any_of, count_if, contains, Result, ok, err, ◌>>=◌,
  ◌>>◌, raise_if, is_ok, Result-cases, Ensures, Ensures-bind, ℤ, pos, negsuc, is_negative,
}
use real_time_surveillance_a.Dict.{Dict, lookup, insert, drop_if}
use real_time_surveillance_a.Pipeline.Floats.{Floats}
use real_time_surveillance_a.Pipeline.Types.{
  ZoneEventType, enter, exit, Point, TrackedObject, Zone, ZoneEvent, centroid,
}
pub mod Balance
mod Tests

-- A zone's id and a track's.
abbrev pub PresenceKey : Type 0
PresenceKey = String × ℕ

abbrev pub Presence : Type 0
Presence = Dict PresenceKey Bool

abbrev pub or_false : Option Bool → Bool
or_false none = false
or_false (some inside) = inside

-- `self._presence.get(key, False)`
unfoldable pub was_inside : PresenceKey → Presence → Bool
was_inside key presence = or_false (lookup key presence)

module _ (fl : Floats) (polygon_test : List (Point fl) → Point fl → Bool) where
  open fl use {F, mul}

  pub record ZoneAnalyzer : Type 0 where
    pub zones : List (Zone fl)
    pub stale_after_frames : ℕ
    pub presence : Presence
    pub last_seen : Dict ℕ ℕ
    pub frame_index : ℕ

  unfoldable pub pixel_vertices : Zone fl → F → F → List (Point fl)
  pixel_vertices zone height width =
      if zone.normalized
      then map (λ p. record { x = mul p.x width; y = mul p.y height }) zone.vertices
      else zone.vertices

  -- A dict, so that of two zones with one id the later gives the polygon.
  unfoldable pub polygons_of : List (Zone fl) → F → F → Dict String (List (Point fl))
  unfolding pixel_vertices
  polygons_of [] height width = []
  polygons_of (zone ∷ zones) height width =
      let rest = polygons_of zones height width in
      if is_some (lookup zone.id rest)
      then rest
      else insert zone.id (pixel_vertices zone height width) rest

  -- Every zone that is looked up has a polygon.
  unfoldable pub is_inside : Dict String (List (Point fl)) → TrackedObject fl → Zone fl → Bool
  is_inside polygons item zone = elim (lookup zone.id polygons) [
    | none ↦ false
    | some polygon ↦ polygon_test polygon (centroid fl item.bbox)
  ]

  unfoldable pub crossing : ℕ → Bool → TrackedObject fl → Zone fl → ZoneEvent fl
  crossing now inside item zone = record {
    zone_id = zone.id;
    zone_name = zone.name;
    track_id = item.track_id;
    event_type = if inside then enter else exit;
    timestamp = now;
    confidence = item.confidence;
  }

  abbrev differ : Bool → Bool → Bool
  differ true b = not b
  differ false b = b

  unfoldable pub observe :
      ℕ
      → Dict String (List (Point fl))
      → List (TrackedObject fl × Zone fl)
      → Presence
      → List (ZoneEvent fl) × Presence
  unfolding crossing
  observe now polygons [] presence = ([], presence)
  observe now polygons ((item, zone) ∷ pairs) presence =
      let inside = is_inside polygons item zone in
      let key : PresenceKey = (zone.id, item.track_id) in
      let (events, after) = observe now polygons pairs (insert key inside presence) in
      (
        if differ inside (was_inside key presence)
            then crossing now inside item zone ∷ events
            else events,
        after,
      )

  unfoldable pub pairs_of :
      List (TrackedObject fl) → List (Zone fl) → List (TrackedObject fl × Zone fl)
  pairs_of [] zones = []
  pairs_of (item ∷ tracked) zones = map (λ zone. (item, zone)) zones ++ pairs_of tracked zones

  unfoldable pub see_all : ℕ → List (TrackedObject fl) → Dict ℕ ℕ → Dict ℕ ℕ
  see_all frame [] seen = seen
  see_all frame (item ∷ tracked) seen = see_all frame tracked (insert item.track_id frame seen)

  unfoldable pub is_gone : ℕ → ℕ → Dict ℕ ℕ → ℕ → Bool
  is_gone frame_index stale_after_frames seen track_id = elim (lookup track_id seen) [
    | none ↦ false
    | some frame ↦ ltb stale_after_frames (frame_index - frame)
  ]

  -- A frame number that was seen is at most the current one.
  unfoldable pub discard_stale : ZoneAnalyzer → ZoneAnalyzer
  unfolding is_gone
  discard_stale z = record z {
    last_seen =
        drop_if (λ track_id frame. ltb z.stale_after_frames (z.frame_index - frame)) z.last_seen;
    presence =
        drop_if (λ key inside. is_gone z.frame_index z.stale_after_frames z.last_seen key.1)
          z.presence;
  }

  unfoldable pub analyze :
      List (TrackedObject fl) → F → F → ℕ → ZoneAnalyzer → List (ZoneEvent fl) × ZoneAnalyzer
  unfolding observe discard_stale
  analyze tracked height width now z =
      let frame = z.frame_index + 1 in
      let (events, presence) =
        observe now (polygons_of z.zones height width) (pairs_of tracked z.zones) z.presence in
      (
        events,
        discard_stale (record z {
          frame_index = frame;
          last_seen = see_all frame tracked z.last_seen;
          presence = presence;
        }),
      )
