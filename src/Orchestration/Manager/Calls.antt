-- ===== src/Orchestration/Manager/Calls.antt =====
-- `start_camera`, `stop_camera`, `restart_camera` and `_shutdown_camera`, each under the lock of
-- its camera.
use real_time_surveillance_a.Base.{
  ℕ, String, Bool, true, false, ◌||◌, Option, none, some, List, [], ◌∷◌, if◌then◌else◌, ◌==◌,
  comparable_nat, comparable_text, comparable_pair, Result, ok, err, ◌>>=◌,
}
use real_time_surveillance_a.Dict.{lookup}
use real_time_surveillance_a.Orchestration.Errors.{
  OrchestrationFailure, OrchestrationError, Raised, Patterns, shutdown, failure,
  orchestration_error,
}
use real_time_surveillance_a.Orchestration.States.{
  WorkerState, starting, failed, is_running, is_state, LifecycleOperation, start, stop, restart,
  LifecycleOutcome, started, already_running, was_stopped, already_stopped, restarted, has_failed,
}
use real_time_surveillance_a.Orchestration.Worker.Record.{CameraStatus}
use real_time_surveillance_a.Orchestration.Manager.Registry.{
  Handle, ManagerError, raised, shutdown_error, Manager, remember, remove_worker,
  ensure_admission_open, admit, Step, interfere,
}

pub record LifecycleOperationResult : Type 0 where
  pub camera_id : String
  pub operation : LifecycleOperation
  pub outcome : LifecycleOutcome
  pub generation : Option ℕ
  pub status : Option CameraStatus
  pub error : Option OrchestrationFailure

unfoldable pub failure_of : CameraStatus → Option OrchestrationFailure
failure_of status = elim status.failure_category [
  | none ↦ none
  | some category ↦ elim status.error_summary [
    | none ↦ none
    | some summary ↦ some (record { category = category; summary = summary })
  ]
]

unfoldable pub result_of :
    LifecycleOperation → LifecycleOutcome → CameraStatus → LifecycleOperationResult
unfolding failure_of
result_of operation outcome status = record {
  camera_id = status.camera_id;
  operation = operation;
  outcome = outcome;
  generation = some status.generation;
  status = some status;
  error = failure_of status;
}

-- `_result` for a camera without a worker, whose last status may be unknown.
unfoldable pub result_without_worker : String → Option CameraStatus → LifecycleOperationResult
unfolding result_of
result_without_worker camera_id none = record {
  camera_id = camera_id;
  operation = stop;
  outcome = already_stopped;
  generation = none;
  status = none;
  error = none;
}
result_without_worker camera_id (some status) = result_of stop already_stopped status

abbrev has_any : List OrchestrationFailure → Bool
has_any [] = false
has_any (f ∷ fs) = true

-- `s + t`
unfoldable pub joined : String → String → String
joined String.[] t = t
joined (String.◌∷◌ c s) t = String.◌∷◌ c (joined s t)

-- `str(error)`, which for an error of the orchestration names its camera.
unfoldable pub text_of : Raised → String
unfolding joined
text_of (Raised.orchestration e) = elim e.camera_id [
  | none ↦ e.public_message
  | some camera_id ↦
      if camera_id == ""
      then e.public_message
      else joined "camera " (joined camera_id (joined ": " e.public_message))
]
text_of (Raised.other message) = message

-- How `worker.stop()` ends: it raises, or it leaves a status and the failures of the shutdown.
abbrev pub Stopped : Type 0
Stopped = Result OrchestrationError (CameraStatus × List OrchestrationFailure)

module _ (re : Patterns) where
  -- What a call meets: the worker of the camera as it finds it, how the calls of the workers end,
  -- and what the other tasks do at each of its awaits.
  pub record Launch : Type 0 where
    pub current_state : WorkerState
    pub current_status : CameraStatus
    pub stopping : Stopped
    pub while_stopping : List (Step re)
    pub before_retirement : List (Step re)
    pub before_admission : List (Step re)
    pub capacity_message : String
    pub starting : Result OrchestrationError CameraStatus
    pub while_starting : List (Step re)
    pub last_status : CameraStatus
    pub before_removal : List (Step re)
    pub while_withdrawing : List (Step re)
    pub late_stopping : Stopped

  -- Stop and remove the worker that the call found.
  unfoldable pub retire :
      String → Handle → Launch → Manager → Result ManagerError (Unit {0}) × Manager
  retire camera_id handle l m =
      let m₁ = interfere re l.while_stopping m in
      elim l.stopping [
        | err e ↦ (err (raised e), m₁)
        | ok (status, failures) ↦
            let m₂ =
              remove_worker camera_id handle
                (interfere re l.before_retirement (remember status m₁)) in
            elim failures [ [] ↦ (ok tt, m₂) | f ∷ fs ↦ (err (shutdown_error (f ∷ fs)), m₂) ]
      ]

  -- The admission was closed while the worker was starting.
  unfoldable pub withdraw :
      String → Handle → Launch → Manager → Result ManagerError (Unit {0}) × Manager
  withdraw camera_id handle l m =
      let m₁ = interfere re l.while_withdrawing m in
      elim l.late_stopping [
        | err e ↦ (err (raised e), m₁)
        | ok (status, failures) ↦
            let m₂ =
              remove_worker camera_id handle
                (interfere re l.before_removal (remember l.last_status m₁)) in
            (ensure_admission_open re (some camera_id) m₂, m₂)
      ]

  -- The part after the worker has started.
  unfoldable pub publish :
      LifecycleOperation
      → LifecycleOutcome
      → String
      → Handle
      → Launch
      → CameraStatus
      → Manager
      → Result ManagerError LifecycleOperationResult × Manager
  unfolding withdraw result_of
  publish operation outcome camera_id handle l status m =
      if m.admission_closed
      then (let (r, m') = withdraw camera_id handle l m in
          (r >>= λ x. ok (result_of operation outcome status), m'))
      else (ok (result_of operation outcome status), remember status m)

  -- The part from the admission on, which `start_camera` and `restart_camera` share.
  unfoldable pub launch :
      LifecycleOperation
      → LifecycleOutcome
      → String
      → Launch
      → Manager
      → Result ManagerError LifecycleOperationResult × Manager
  unfolding publish
  launch operation outcome camera_id l m =
      let (admitted, m₁) =
        admit re camera_id l.capacity_message (interfere re l.before_admission m) in
      elim admitted [
        | err e ↦ (err e, m₁)
        | ok handle ↦
            let m₂ = interfere re l.while_starting m₁ in
            elim l.starting [
              | err e ↦ (
                err (raised e),
                remove_worker camera_id handle
                    (interfere re l.before_removal (remember l.last_status m₂)),
              )
              | ok status ↦ publish operation outcome camera_id handle l status m₂
            ]
      ]

  unfoldable pub restart_camera :
      String → Launch → Manager → Result ManagerError LifecycleOperationResult × Manager
  unfolding retire launch
  restart_camera camera_id l m = elim (lookup camera_id m.workers) [
    | none ↦ launch restart restarted camera_id l m
    | some handle ↦
        let (r, m') = retire camera_id handle l m in
        elim r [ err e ↦ (err e, m') | ok x ↦ launch restart restarted camera_id l m' ]
  ]

  unfoldable pub start_camera :
      String → Launch → Manager → Result ManagerError LifecycleOperationResult × Manager
  unfolding retire launch
  start_camera camera_id l m = elim (lookup camera_id m.workers) [
    | none ↦ launch start started camera_id l m
    | some handle ↦
        if is_running l.current_state || is_state l.current_state starting
        then (ok (result_of start already_running l.current_status), m)
        else (let (r, m') = retire camera_id handle l m in
            elim r [ err e ↦ (err e, m') | ok x ↦ launch start started camera_id l m' ])
  ]

  unfoldable pub stop_camera :
      String
      → Stopped
      → (while_stopping before_removal : List (Step re)) → Manager
      → Result ManagerError LifecycleOperationResult × Manager
  unfolding result_of result_without_worker
  stop_camera camera_id stopping while_stopping before_removal m =
      elim (lookup camera_id m.workers) [
        | none ↦ (ok (result_without_worker camera_id (lookup camera_id m.statuses)), m)
        | some handle ↦
            let m₁ = interfere re while_stopping m in
            elim stopping [
              | err e ↦ (err (raised e), m₁)
              | ok (status, failures) ↦
                  let outcome =
                    if is_state status.lifecycle_state failed || has_any failures
                    then has_failed
                    else was_stopped in
                  (
                    ok (result_of stop outcome status),
                    remove_worker camera_id handle
                        (interfere re before_removal (remember status m₁)),
                  )
            ]
      ]

  -- `stopping` is what `worker.stop()` raises, if it does; `worker.status` and
  -- `worker.shutdown_failures` are read afterwards.
  unfoldable pub shutdown_camera :
      String
      → Option Raised
      → CameraStatus
      → List OrchestrationFailure
      → (while_stopping before_removal : List (Step re)) → Manager
      → List OrchestrationFailure × Manager
  unfolding text_of
  shutdown_camera camera_id stopping status failures while_stopping before_removal m =
      elim (lookup camera_id m.workers) [
        | none ↦ ([], m)
        | some handle ↦
            let m' =
              remove_worker camera_id handle
                (interfere re before_removal (remember status (interfere re while_stopping m))) in
            elim stopping [
              | none ↦ (failures, m')
              | some error ↦ (
                failure (orchestration_error re shutdown (some camera_id) (text_of error))
                    ∷ failures,
                m',
              )
            ]
      ]
