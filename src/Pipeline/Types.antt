-- ===== src/Pipeline/Types.antt =====
-- packages/cv-engine/cv_engine/types.py: validated data contracts. A timestamp is an instant in
-- UTC microseconds, and a confidence is a float.
use real_time_surveillance_a.Base.{
  ℕ, String, Bool, not, ◌&&◌, ◌||◌, List, [], ◌∷◌, comparable_nat, comparable_text, comparable_pair,
  any_of, Result, ok, err, ◌>>◌, raise_if,
}
use real_time_surveillance_a.Pipeline.Floats.{Floats}

pub data ValueError : Type 0 where
  bbox_arity bbox_not_finite bbox_negative bbox_no_area : ValueError
  score_out_of_range track_id_negative : ValueError
  line_arity line_not_finite line_out_of_range line_degenerate : ValueError
  counting_line_degenerate negative_parameter : ValueError

pub data ZoneEventType : Type 0 where
  enter exit : ZoneEventType

pub data CountDirection : Type 0 where
  inward outward : CountDirection

module _ (fl : Floats) where
  open fl use {F, of_ℕ, add, div, lt, le, eq, isfinite}

  pub record Point : Type 0 where
    pub x : F
    pub y : F

  pub record BBox : Type 0 where
    pub x1 : F
    pub y1 : F
    pub x2 : F
    pub y2 : F

  -- The coordinates come as numbers; the conversion of other objects by `float` is Python's.
  pub validate_bbox : List F → Result ValueError BBox
  validate_bbox (x1 ∷ y1 ∷ x2 ∷ y2 ∷ []) =
      let values = x1 ∷ y1 ∷ x2 ∷ y2 ∷ [] in
      do
        raise_if (any_of (λ value. not (isfinite value)) values) bbox_not_finite
        raise_if (any_of (λ value. lt value (of_ℕ 0)) values) bbox_negative
        raise_if (le x2 x1 || le y2 y1) bbox_no_area
        ok (record { x1 = x1; y1 = y1; x2 = x2; y2 = y2 })
  validate_bbox _ = err bbox_arity

  pub validate_score : F → Result ValueError F
  validate_score numeric = do
    raise_if (not (isfinite numeric) || not (le (of_ℕ 0) numeric && le numeric (of_ℕ 1)))
        score_out_of_range
    ok numeric

  pub record TrackedObject : Type 0 where
    pub bbox : BBox
    pub track_id : ℕ
    pub class_id : ℕ
    pub class_name : String
    pub confidence : F

  unfoldable pub centroid : BBox → Point
  centroid b = record { x = div (add b.x1 b.x2) (of_ℕ 2); y = div (add b.y1 b.y2) (of_ℕ 2) }

  pub record CountingLine : Type 0 where
    pub start : Point
    pub end : Point
    pub normalized : Bool

  pub record Zone : Type 0 where
    pub id : String
    pub name : String
    pub vertices : List Point
    pub alert_on_entry : Bool
    pub normalized : Bool

  pub record ZoneEvent : Type 0 where
    pub zone_id : String
    pub zone_name : String
    pub track_id : ℕ
    pub event_type : ZoneEventType
    pub timestamp : ℕ
    pub confidence : F

  pub record IntrusionEvent : Type 0 where
    pub zone_id : String
    pub zone_name : String
    pub track_id : ℕ
    pub timestamp : ℕ
    pub confidence : F

pub record CountEvent : Type 0 where
  pub track_id : ℕ
  pub direction : CountDirection
  pub timestamp : ℕ

pub record CountUpdate : Type 0 where
  pub count_in : ℕ
  pub count_out : ℕ
  pub events : List CountEvent
