-- ===== src/Orchestration/Manager/Registry.antt =====
-- The state of `CameraWorkerManager`, and each of its writes under the registry lock.
use real_time_surveillance_a.Base.{
  ℕ, ◌+◌, String, Bool, true, false, Option, none, some, List, [], ◌∷◌, ltb, leb, if◌then◌else◌,
  ◌==◌, comparable_nat, comparable_text, comparable_pair, length, keep_last, Result, ok, err, ◌>>◌,
  raise_if,
}
use real_time_surveillance_a.Dict.{Dict, lookup, insert, erase, insert_last}
use real_time_surveillance_a.Orchestration.Errors.{
  OrchestrationFailure, OrchestrationError, Patterns, shutdown, capacity, orchestration_error,
}
use real_time_surveillance_a.Orchestration.Worker.Record.{CameraStatus}

pub record Handle : Type 0 where
  pub identity : ℕ
  pub generation : ℕ

-- What the calls raise; a `ShutdownError` carries the failures of the workers.
pub data ManagerError : Type 0 where
  raised : OrchestrationError → ManagerError
  shutdown_error : List OrchestrationFailure → ManagerError

pub record Manager : Type 0 where
  pub retained_statuses : ℕ
  pub max_active_workers : ℕ
  pub workers : Dict String Handle
  pub statuses : Dict String CameraStatus
  pub generations : Dict String ℕ
  pub admission_closed : Bool
  pub shutdown_failures : Option (List OrchestrationFailure)
  -- The number of workers made so far, which names the next one.
  pub next_identity : ℕ

pub data LimitError : Type 0 where
  retained_statuses_not_positive max_active_workers_not_positive : LimitError

unfoldable pub new_manager : ℕ → ℕ → Result LimitError Manager
new_manager retained_statuses max_active_workers = do
  raise_if (ltb retained_statuses 1) retained_statuses_not_positive
  raise_if (ltb max_active_workers 1) max_active_workers_not_positive
  ok (record {
    retained_statuses = retained_statuses;
    max_active_workers = max_active_workers;
    workers = [];
    statuses = [];
    generations = [];
    admission_closed = false;
    shutdown_failures = none;
    next_identity = 0;
  })

unfoldable pub remember : CameraStatus → Manager → Manager
remember status m = record m {
  statuses = keep_last m.retained_statuses (insert_last status.camera_id status m.statuses);
}

unfoldable pub next_generation : String → Manager → ℕ
next_generation camera_id m = elim (lookup camera_id m.generations) [
  | none ↦ 1
  | some generation ↦ generation + 1
]

-- `_new_worker` and its entry in the registry.
unfoldable pub register : String → Manager → Handle × Manager
unfolding next_generation
register camera_id m =
    let generation = next_generation camera_id m in
    let handle : Handle = record { identity = m.next_identity; generation = generation } in
    (
      handle,
      record m {
        generations =
            keep_last m.retained_statuses (insert_last camera_id generation m.generations);
        workers = insert camera_id handle m.workers;
        next_identity = m.next_identity + 1;
      },
    )

-- `_remove_worker`: it is a no-op for a worker that is not the registered one.
unfoldable pub remove_worker : String → Handle → Manager → Manager
remove_worker camera_id handle m = elim (lookup camera_id m.workers) [
  | none ↦ m
  | some registered ↦
      if registered.identity == handle.identity
      then record m { workers = erase camera_id m.workers }
      else m
]

module _ (re : Patterns) where
  unfoldable pub ensure_admission_open : Option String → Manager → Result ManagerError (Unit {0})
  ensure_admission_open camera_id m =
      if m.admission_closed
      then elim m.shutdown_failures [
        | some failures ↦ err (shutdown_error failures)
        | none ↦
            err
              (raised (orchestration_error re shutdown camera_id "camera manager is shutting down"))
      ]
      else ok tt

  -- The admission of a new worker. The text of the capacity error is the caller's: it shows a
  -- number.
  unfoldable pub admit : String → String → Manager → Result ManagerError Handle × Manager
  admit camera_id message m = elim (ensure_admission_open (some camera_id) m) [
    | err e ↦ (err e, m)
    | ok x ↦
        if leb m.max_active_workers (length m.workers)
        then (err (raised (orchestration_error re capacity (some camera_id) message)), m)
        else (let (handle, m') = register camera_id m in (ok handle, m'))
  ]

  -- What another task can do to the registry while this one awaits.
  pub data Step : Type 0 where
    remembers : CameraStatus → Step
    admits : String → String → Step
    removes : String → Handle → Step
    closes_admission : Step
    records_failures : List OrchestrationFailure → Step

  unfoldable pub perform : Step → Manager → Manager
  perform (remembers status) m = remember status m
  perform (admits camera_id message) m = (admit camera_id message m).1
  perform (removes camera_id handle) m = remove_worker camera_id handle m
  perform closes_admission m = record m { admission_closed = true }
  perform (records_failures failures) m = record m { shutdown_failures = some failures }

  unfoldable pub interfere : List Step → Manager → Manager
  unfolding perform
  interfere [] m = m
  interfere (step ∷ steps) m = interfere steps (perform step m)
