-- ===== src/Orchestration/Worker/Snapshot/RoundTrip.antt =====
-- A status that is written as a dictionary is read back.
use real_time_surveillance_a.Base.{
  ℕ, String, ◌≡◌, refl, false, Option, none, some, ◌==◌, comparable_nat, comparable_text,
  comparable_pair, ok,
}
use real_time_surveillance_a.Dict.{lookup}
use real_time_surveillance_a.Orchestration.Errors.{
  FailureCategory, configuration, capacity, capture, model, pipeline, callback, sink, scheduler,
  shutdown, internal,
}
use real_time_surveillance_a.Orchestration.States.{
  WorkerState, stopped, starting, running, reconnecting, stopping, failed, CameraHealth, healthy,
  degraded, broken,
}
use real_time_surveillance_a.Orchestration.Worker.Record.{CameraStatus}
use real_time_surveillance_a.Orchestration.Worker.Snapshot.{
  string, Conversions, state_value, health_value, category_value, member, states, healths,
  categories, time_value, optional_text, optional_category, to_dict, required, aware, required_time,
  parsed, enumerated, read_category, read_text, from_dict,
}

category_value-empty : (c : FailureCategory) → (category_value c == "") ≡ false
unfolding category_value
category_value-empty configuration = refl
category_value-empty capacity = refl
category_value-empty capture = refl
category_value-empty model = refl
category_value-empty pipeline = refl
category_value-empty callback = refl
category_value-empty sink = refl
category_value-empty scheduler = refl
category_value-empty shutdown = refl
category_value-empty internal = refl

module _ {F : Type 0} (python : Conversions F) where
  open python use {
    str-string, int-number, float-real, bool-truth, bool-null, bool-string, fromisoformat-isoformat,
    isoformat-empty,
  }

  required-state_value :
      (name : String) (s : WorkerState)
      → required python (enumerated python state_value states) name (some (string (state_value s)))
        ≡ ok s
  unfolding required enumerated member state_value
  required-state_value name stopped = refl
  required-state_value name starting = refl
  required-state_value name running = refl
  required-state_value name reconnecting = refl
  required-state_value name stopping = refl
  required-state_value name failed = refl

  required-health_value :
      (name : String) (h : CameraHealth)
      → required python
          (enumerated python health_value healths)
          name
          (some (string (health_value h)))
        ≡ ok h
  unfolding required enumerated member health_value
  required-health_value name healthy = refl
  required-health_value name degraded = refl
  required-health_value name broken = refl

  required-category_value :
      (name : String) (c : FailureCategory)
      → required python
          (enumerated python category_value categories)
          name
          (some (string (category_value c)))
        ≡ ok c
  unfolding required enumerated member category_value
  required-category_value name configuration = refl
  required-category_value name capacity = refl
  required-category_value name capture = refl
  required-category_value name model = refl
  required-category_value name pipeline = refl
  required-category_value name callback = refl
  required-category_value name sink = refl
  required-category_value name scheduler = refl
  required-category_value name shutdown = refl
  required-category_value name internal = refl

  required_time-isoformat :
      (name : String) (t : ℕ)
      → required_time python name (some (string (python.isoformat t))) ≡ ok t
  unfolding required_time aware
  required_time-isoformat name t = rw (fromisoformat-isoformat t) refl

  parsed-time_value :
      (name : String) (o : Option ℕ) → parsed python name (some (time_value python o)) ≡ ok o
  unfolding parsed time_value aware
  parsed-time_value name none = rw bool-null refl
  parsed-time_value name (some t) =
      rw (bool-string, isoformat-empty t, fromisoformat-isoformat t) refl

  read_category-optional_category :
      (o : Option FailureCategory) → read_category python (some (optional_category python o)) ≡ ok o
  unfolding read_category optional_category
  read_category-optional_category none = rw bool-null refl
  read_category-optional_category (some c) =
      rw (bool-string, category_value-empty c, required-category_value) refl

  read_text-optional_text :
      (o : Option String) → read_text python (some (optional_text python o)) ≡ o
  unfolding read_text optional_text
  read_text-optional_text none = refl
  read_text-optional_text (some s) = refl

  -- Reading back the dictionary of a status gives that status, with its frame rate, and does not
  -- raise.
  pub from_dict-to_dict :
      (status : CameraStatus) (fps : F)
      → from_dict python (to_dict python status fps) ≡ ok (status, fps)
  unfolding from_dict to_dict lookup required
  from_dict-to_dict status fps =
      simp
        (
          str-string, int-number, float-real, bool-truth, required_time-isoformat,
          parsed-time_value, read_category-optional_category, read_text-optional_text,
          required-state_value, required-health_value,
        )
        refl
