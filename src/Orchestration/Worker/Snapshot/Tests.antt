-- ===== src/Orchestration/Worker/Snapshot/Tests.antt =====
-- Conversions that write an instant in unary, and a status of a camera that failed.
use Prim.Native.String.{count}
use Prim.Native.String.count
use real_time_surveillance_a.Base.{
  ℕ, zero, suc, ◌-◌, String, ◌≡◌, refl, ap, inl, inr, false, not, none, some, arith, ltb,
  Bool-cases, ◌==◌, comparable_nat, comparable_text, comparable_pair, ok,
}
use text.Mathlib.TextEquality.{eq_iff}
use real_time_surveillance_a.Orchestration.Errors.{capture}
use real_time_surveillance_a.Orchestration.States.{failed, broken}
use real_time_surveillance_a.Orchestration.Worker.Record.{CameraStatus, no_metrics}
use real_time_surveillance_a.Orchestration.Worker.Snapshot.{
  null, string, number, real, truth, Conversions, to_dict, from_dict,
}
use real_time_surveillance_a.Orchestration.Worker.Snapshot.RoundTrip.{from_dict-to_dict}

unfoldable unary : ℕ → String
unary zero = "Z"
unary (suc t) = String.◌∷◌ "1" (unary t)

count-unary : (t : ℕ) → count (unary t) ≡ suc t
unfolding unary
count-unary zero = refl
count-unary (suc t) = rw (count.cons, count-unary t) refl

count-less : (t : ℕ) → count (unary t) - 1 ≡ t
count-less t = omega (arith, count-unary t)

unary-empty : (t : ℕ) → (unary t == "") ≡ false
unary-empty t = elim (Bool-cases (unary t == "")) [
  | inl e ↦ ground (arith, count-unary t, ap count ((eq_iff (unary t) "").0 e))
  | inr e ↦ e
]

abbrev unary_conversions : Conversions ℕ
unary_conversions = record {
  str = λ v. elim v [ string s ↦ s | _ ↦ "" ];
  int = λ v. elim v [ number n ↦ some n | _ ↦ none ];
  float = λ v. elim v [ real x ↦ some x | _ ↦ none ];
  bool = λ v. elim v [
    | null ↦ false
    | string s ↦ not (s == "")
    | number n ↦ ltb 0 n
    | real x ↦ ltb 0 x
    | truth b ↦ b
  ];
  isoformat = unary;
  fromisoformat = λ v. elim v [ string s ↦ some (some (count s - 1)) | _ ↦ none ];
  str-string = λ s. refl;
  int-number = λ n. refl;
  float-real = λ x. refl;
  bool-truth = λ b. refl;
  bool-null = refl;
  bool-string = λ s. refl;
  fromisoformat-isoformat = λ t. ap (λ n. some (some n)) (count-less t);
  isoformat-empty = unary-empty;
}

abbrev gate_failed : CameraStatus
gate_failed = record {
  camera_id = "gate";
  generation = 2;
  lifecycle_state = failed;
  health = broken;
  is_running = false;
  updated_at = 30;
  failure_category = some capture;
  error_summary = some "no signal";
  metrics = record no_metrics { frames_captured = 5; last_frame_at = some 20 };
  frame_buffer_size = 0;
  frame_buffer_capacity = 2;
  event_queue_size = 1;
  event_queue_capacity = 4;
  callback_backlog = 1;
  transition_count = 3;
}

from_dict-to_dict_example :
    from_dict unary_conversions (to_dict unary_conversions gate_failed 12) ≡ ok (gate_failed, 12)
from_dict-to_dict_example = from_dict-to_dict unary_conversions gate_failed 12
