-- ===== src/Orchestration/Manager/Removal.antt =====
-- A worker that has been stopped is no longer in the registry.
use real_time_surveillance_a.Base.{
  ◌+◌, String, ◌≡◌, refl, inl, inr, Bool, true, false, Option, none, some, List, arith,
  if◌then◌else◌, Bool-cases, Option-cases, is_some, ◌==◌, ==_refl, comparable_nat, comparable_text,
  comparable_pair, length, ok, err, is_ok,
}
use real_time_surveillance_a.Dict.{lookup, lookup-erase}
use real_time_surveillance_a.Orchestration.Errors.{OrchestrationFailure, Raised, Patterns}
use real_time_surveillance_a.Orchestration.Worker.Record.{CameraStatus}
use real_time_surveillance_a.Orchestration.Manager.Registry.{Handle, Manager, remove_worker, Step}
use real_time_surveillance_a.Orchestration.Manager.Calls.{Stopped, stop_camera, shutdown_camera}

abbrev pub is_registered : String → Handle → Manager → Bool
is_registered camera_id handle m = elim (lookup camera_id m.workers) [
  | none ↦ false
  | some registered ↦ registered.identity == handle.identity
]

remove_worker-is_registered :
    (camera_id : String) (handle : Handle) (m : Manager)
    → is_registered camera_id handle (remove_worker camera_id handle m) ≡ false
unfolding remove_worker
remove_worker-is_registered camera_id handle m = elim (Option-cases (lookup camera_id m.workers)) [
  | inl e ↦ rw (e, remove_worker) (rw (e, is_registered) refl)
  | inr (registered, e) ↦ elim (Bool-cases (registered.identity == handle.identity)) [
    | inl q ↦
        rw (e, q, remove_worker)
          (rw (lookup-erase camera_id camera_id m.workers, ==_refl camera_id, is_registered) refl)
    | inr q ↦ rw (e, q, remove_worker) (rw (e, is_registered) q)
  ]
]

module _ (re : Patterns) where
  -- A stop that does not raise leaves its worker out of the registry, whatever other tasks do
  -- meanwhile.
  pub stop_camera-is_registered :
      (camera_id : String) (stopping : Stopped) (while_stopping before_removal : List (Step re))
      (handle : Handle) (m : Manager)
      → lookup camera_id m.workers ≡ some handle
      → is_ok stopping ≡ true
      → is_registered camera_id handle
          (stop_camera re camera_id stopping while_stopping before_removal m).1
        ≡ false
  unfolding stop_camera
  stop_camera-is_registered camera_id (ok (status, failures)) while_stopping before_removal handle m
        e h =
      rw (e, stop_camera) (remove_worker-is_registered camera_id handle _)
  stop_camera-is_registered camera_id (err x) while_stopping before_removal handle m e h =
      ground arith

  -- The shutdown of a camera leaves its worker out of the registry, also when stopping the worker
  -- raises, and gives every failure of the worker.
  pub shutdown_camera-is_registered :
      (camera_id : String) (stopping : Option Raised) (status : CameraStatus)
      (failures : List OrchestrationFailure) (while_stopping before_removal : List (Step re))
      (handle : Handle) (m : Manager)
      → lookup camera_id m.workers ≡ some handle
      → (is_registered camera_id handle
            (shutdown_camera re camera_id stopping status failures while_stopping before_removal
              m).1
          ≡ false)
        × (length
              (shutdown_camera re camera_id stopping status failures while_stopping before_removal
                m).0
            ≡ length failures + (if is_some stopping then 1 else 0))
  unfolding shutdown_camera
  shutdown_camera-is_registered camera_id none status failures while_stopping before_removal handle
        m e =
      rw (e, shutdown_camera) (remove_worker-is_registered camera_id handle _, omega arith)
  shutdown_camera-is_registered camera_id (some x) status failures while_stopping before_removal
        handle m e =
      rw (e, shutdown_camera) (remove_worker-is_registered camera_id handle _, omega arith)
