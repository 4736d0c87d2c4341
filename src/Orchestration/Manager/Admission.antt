-- ===== src/Orchestration/Manager/Admission.antt =====
-- What a call that starts a camera means for the admission and for the registry.
use real_time_surveillance_a.Base.{
  String, ◌≡◌, refl, inl, inr, Bool, false, ◌&&◌, ◌||◌, Option, some, arith, if_elim, Option-cases,
  comparable_nat, comparable_text, comparable_pair, Result, ok, err, ◌>>=◌, is_ok, Result-cases,
}
use real_time_surveillance_a.Dict.{lookup}
use real_time_surveillance_a.Orchestration.Errors.{Patterns}
use real_time_surveillance_a.Orchestration.States.{
  LifecycleOperation, LifecycleOutcome, starting, is_state, is_running, start, restart, started,
  restarted,
}
use real_time_surveillance_a.Orchestration.Worker.Record.{CameraStatus}
use real_time_surveillance_a.Orchestration.Manager.Registry.{
  Handle, ManagerError, Manager, remember, ensure_admission_open, admit, interfere,
}
use real_time_surveillance_a.Orchestration.Manager.Calls.{
  LifecycleOperationResult, Launch, retire, withdraw, publish, launch, restart_camera, start_camera,
}

module _ (re : Patterns) where
  -- A call that returned a result while the admission is closed.
  abbrev pub returns_closed : {X : Type 0} → Result ManagerError X × Manager → Bool
  returns_closed o = is_ok o.0 && o.1.admission_closed

  ensure_admission_open-returns_closed :
      (camera_id : Option String) (m : Manager)
      → returns_closed (ensure_admission_open re camera_id m, m) ≡ false
  unfolding ensure_admission_open
  ensure_admission_open-returns_closed camera_id m = ground arith

  withdraw-returns_closed :
      (camera_id : String) (handle : Handle) (l : Launch re) (m : Manager)
      → returns_closed (withdraw re camera_id handle l m) ≡ false
  unfolding withdraw
  withdraw-returns_closed camera_id handle l m = elim (Result-cases l.late_stopping) [
    | inr (e, p) ↦ rw (p, withdraw) refl
    | inl (r, p) ↦ rw (p, withdraw) (ensure_admission_open-returns_closed (some camera_id) _)
  ]

  then-returns_closed :
      {X Y : Type 0} (o : Result ManagerError X × Manager) (y : Y)
      → returns_closed o ≡ false
      → returns_closed (o.0 >>= λ x. ok y, o.1) ≡ false
  then-returns_closed (ok x, m) y h = h
  then-returns_closed (err e, m) y h = h

  publish-returns_closed :
      (operation : LifecycleOperation) (outcome : LifecycleOutcome) (camera_id : String)
      (handle : Handle) (l : Launch re) (status : CameraStatus) (m : Manager)
      → returns_closed (publish re operation outcome camera_id handle l status m) ≡ false
  unfolding publish remember
  publish-returns_closed operation outcome camera_id handle l status m =
      if_elim {A = Result ManagerError LifecycleOperationResult × Manager}
        (λ o. returns_closed o ≡ false) m.admission_closed _ _
        (λ e.
          then-returns_closed (withdraw re camera_id handle l m) _
            (withdraw-returns_closed camera_id handle l m))
        λ e. e

  launch-returns_closed :
      (operation : LifecycleOperation) (outcome : LifecycleOutcome) (camera_id : String)
      (l : Launch re) (m : Manager)
      → returns_closed (launch re operation outcome camera_id l m) ≡ false
  unfolding launch
  launch-returns_closed operation outcome camera_id l m =
      elim (Result-cases
        (admit re camera_id l.capacity_message (interfere re l.before_admission m)).0) [
          | inr (e, refused) ↦ rw (refused, launch) refl
          | inl (handle, given) ↦ elim (Result-cases l.starting) [
            | inr (e, p) ↦ rw (given, p, launch) refl
            | inl (status, p) ↦
                rw (given, p, launch)
                  (publish-returns_closed operation outcome camera_id handle l status _)
          ]
        ]

  -- A restart never returns a result while the admission is closed, also when another task closes
  -- it during one of the awaits.
  pub restart_camera-returns_closed :
      (camera_id : String) (l : Launch re) (m : Manager)
      → returns_closed (restart_camera re camera_id l m) ≡ false
  unfolding restart_camera
  restart_camera-returns_closed camera_id l m = elim (Option-cases (lookup camera_id m.workers)) [
    | inl e ↦ rw (e, restart_camera) (launch-returns_closed restart restarted camera_id l m)
    | inr (handle, e) ↦ elim (Result-cases (retire re camera_id handle l m).0) [
      | inr (x, p) ↦ rw (e, p, restart_camera) refl
      | inl (x, p) ↦
          rw (e, p, restart_camera) (launch-returns_closed restart restarted camera_id l _)
    ]
  ]

  -- A start of a camera whose worker is not starting or running never returns a result while the
  -- admission is closed, also when another task closes it during one of the awaits.
  pub start_camera-returns_closed :
      (camera_id : String) (l : Launch re) (m : Manager)
      → is_running l.current_state || is_state l.current_state starting ≡ false
      → returns_closed (start_camera re camera_id l m) ≡ false
  unfolding start_camera
  start_camera-returns_closed camera_id l m q = elim (Option-cases (lookup camera_id m.workers)) [
    | inl e ↦ rw (e, start_camera) (launch-returns_closed start started camera_id l m)
    | inr (handle, e) ↦ elim (Result-cases (retire re camera_id handle l m).0) [
      | inr (x, p) ↦ rw (e, q, p, start_camera) refl
      | inl (x, p) ↦ rw (e, q, p, start_camera) (launch-returns_closed start started camera_id l _)
    ]
  ]
