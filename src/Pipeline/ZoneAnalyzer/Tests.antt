-- ===== src/Pipeline/ZoneAnalyzer/Tests.antt =====
-- A gate and a track that enters it, on whole numbers; the left part of the picture is inside.
use real_time_surveillance_a.Base.{
  ℕ, ◌+◌, ◌≡◌, refl, Bool, true, false, List, [], ◌∷◌, ltb, comparable_nat, comparable_text,
  comparable_pair, length, count_if,
}
use real_time_surveillance_a.Dict.{lookup, insert, drop_if}
use real_time_surveillance_a.Pipeline.Floats.{whole}
use real_time_surveillance_a.Pipeline.Types.{Point, TrackedObject, Zone, centroid}
use real_time_surveillance_a.Pipeline.ZoneAnalyzer.{
  ZoneAnalyzer, was_inside, is_inside, crossing, observe, pairs_of, polygons_of, pixel_vertices,
  see_all, is_gone, discard_stale, analyze,
}
use real_time_surveillance_a.Pipeline.ZoneAnalyzer.Balance.{
  as_number, entries, exits, analyze-entries,
}

abbrev left_of_five : List (Point whole) → Point whole → Bool
left_of_five polygon p = ltb p.x 5

abbrev at : ℕ → TrackedObject whole
at x = record {
  bbox = record { x1 = x; y1 = 0; x2 = x; y2 = 2 };
  track_id = 7;
  class_id = 0;
  class_name = "person";
  confidence = 1;
}

abbrev gate_zone : Zone whole
gate_zone = record {
  id = "gate";
  name = "Gate";
  vertices = [];
  alert_on_entry = true;
  normalized = false;
}

abbrev fresh : ZoneAnalyzer whole left_of_five
fresh = record {
  zones = gate_zone ∷ [];
  stale_after_frames = 1;
  presence = [];
  last_seen = [];
  frame_index = 0;
}

enters_then_leaves :
    let first = analyze whole left_of_five (at 3 ∷ []) 1 1 10 fresh in
    let second = analyze whole left_of_five (at 8 ∷ []) 1 1 11 first.1 in
    let third = analyze whole left_of_five [] 1 1 12 second.1 in
    let fourth = analyze whole left_of_five [] 1 1 13 third.1 in
    (entries whole left_of_five ("gate", 7) first.0 ≡ 1)
    × (exits whole left_of_five ("gate", 7) second.0 ≡ 1)
    × (length third.1.presence ≡ 1)
    × (length fourth.1.presence ≡ 0)
unfolding analyze observe discard_stale see_all is_gone pairs_of polygons_of pixel_vertices
    is_inside crossing was_inside lookup insert drop_if count_if centroid
enters_then_leaves = (refl, refl, refl, refl)

-- The track enters the zone and is in it when the frame is over.
analyze-entries_example :
    let o = analyze whole left_of_five (at 3 ∷ []) 1 1 10 fresh in
    entries whole left_of_five ("gate", 7) o.0 + as_number (was_inside ("gate", 7) [])
    ≡ exits whole left_of_five ("gate", 7) o.0 + as_number (was_inside ("gate", 7) o.1.presence)
analyze-entries_example =
    analyze-entries whole left_of_five (at 3 ∷ []) 1 1 10 fresh ("gate", 7)
      (unfold is_gone see_all lookup insert in refl)
