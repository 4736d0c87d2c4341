-- ===== src/Orchestration/Manager/Tests.antt =====
-- A manager with room for two cameras.
use real_time_surveillance_a.Base.{
  ◌≡◌, refl, true, false, none, [], ◌∷◌, arith, comparable_nat, comparable_text, comparable_pair,
  length, keep_last, ok, is_ok,
}
use real_time_surveillance_a.Dict.{lookup, insert, erase, insert_last}
use real_time_surveillance_a.Orchestration.Errors.{Patterns}
use real_time_surveillance_a.Orchestration.States.{WorkerState, stopped, running, failed, healthy}
use real_time_surveillance_a.Orchestration.Worker.Record.{CameraStatus, no_metrics}
use real_time_surveillance_a.Orchestration.Manager.Registry.{
  Handle, Manager, remember, register, next_generation, remove_worker, ensure_admission_open, admit,
  Step, perform, interfere,
}
use real_time_surveillance_a.Orchestration.Manager.Calls.{
  Stopped, Launch, retire, withdraw, publish, launch, restart_camera, start_camera, stop_camera,
}
use real_time_surveillance_a.Orchestration.Manager.Capacity.{IsWithin, start_camera-IsWithin}
use real_time_surveillance_a.Orchestration.Manager.Admission.{
  returns_closed, restart_camera-returns_closed, start_camera-returns_closed,
}
use real_time_surveillance_a.Orchestration.Manager.Removal.{
  is_registered, stop_camera-is_registered,
}

abbrev plain : Patterns
plain = record { redact_url = λ s. s; redact_assignment = λ s. s }

abbrev gate_status : WorkerState → CameraStatus
gate_status state = record {
  camera_id = "gate";
  generation = 1;
  lifecycle_state = state;
  health = healthy;
  is_running = true;
  updated_at = 3;
  failure_category = none;
  error_summary = none;
  metrics = no_metrics;
  frame_buffer_size = 0;
  frame_buffer_capacity = 2;
  event_queue_size = 0;
  event_queue_capacity = 2;
  callback_backlog = 0;
  transition_count = 2;
}

abbrev gate_handle : Handle
gate_handle = record { identity = 0; generation = 1 }

abbrev one_camera : Manager
one_camera = record {
  retained_statuses = 2;
  max_active_workers = 2;
  workers = ("gate", gate_handle) ∷ [];
  statuses = [];
  generations = ("gate", 1) ∷ [];
  admission_closed = false;
  shutdown_failures = none;
  next_identity = 1;
}

-- While the camera of the call starts, another task admits a camera and a third one closes the
-- admission.
abbrev busy : Launch plain
busy = record {
  current_state = failed;
  current_status = gate_status failed;
  stopping = ok (gate_status failed, []);
  while_stopping = [];
  before_retirement = Step.admits "yard" "full" ∷ [];
  before_admission = [];
  capacity_message = "full";
  starting = ok (gate_status running);
  while_starting = Step.admits "door" "full" ∷ Step.closes_admission ∷ [];
  last_status = gate_status stopped;
  before_removal = [];
  while_withdrawing = [];
  late_stopping = ok (gate_status stopped, []);
}

closes_during_start :
    let o = start_camera plain "gate" busy one_camera in
    (is_ok o.0 ≡ false)
    × (is_registered "gate" (record { identity = 2; generation = 2 }) o.1 ≡ false)
    × (length o.1.workers ≡ 1)
unfolding start_camera retire withdraw publish launch admit register next_generation
    ensure_admission_open remove_worker remember interfere perform keep_last lookup insert erase
    insert_last
closes_during_start = (refl, refl, refl)

start_camera-IsWithin_example : IsWithin (start_camera plain "gate" busy one_camera).1
start_camera-IsWithin_example =
    start_camera-IsWithin plain "gate" busy one_camera (omega arith, omega arith, omega arith)

start_camera-returns_closed_example :
    returns_closed plain (start_camera plain "gate" busy one_camera) ≡ false
start_camera-returns_closed_example = start_camera-returns_closed plain "gate" busy one_camera refl

restart_camera-returns_closed_example :
    returns_closed plain (restart_camera plain "gate" busy one_camera) ≡ false
restart_camera-returns_closed_example = restart_camera-returns_closed plain "gate" busy one_camera

abbrev gate_stopped : Stopped
gate_stopped = ok (gate_status stopped, [])

stop_camera-is_registered_example :
    is_registered "gate" gate_handle
      (stop_camera plain "gate" gate_stopped (Step.admits "yard" "full" ∷ []) [] one_camera).1
    ≡ false
stop_camera-is_registered_example =
    stop_camera-is_registered plain "gate" gate_stopped (Step.admits "yard" "full" ∷ []) []
      gate_handle one_camera (unfold lookup in refl) refl
