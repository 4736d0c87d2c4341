-- ===== src/Orchestration/States.antt =====
-- The enumerations of apps/desktop-backend/app/orchestration/models.py and the table of lifecycle
-- transitions.
use real_time_surveillance_a.Base.{
  Bool, true, false, comparable_nat, comparable_text, comparable_pair,
}

pub data WorkerState : Type 0 where
  stopped starting running reconnecting stopping failed : WorkerState

pub data CameraHealth : Type 0 where
  healthy degraded broken : CameraHealth

pub data LifecycleOperation : Type 0 where
  start stop restart : LifecycleOperation

pub data LifecycleOutcome : Type 0 where
  started already_running was_stopped already_stopped restarted has_failed : LifecycleOutcome

-- `ACTIVE_STATES`
abbrev pub is_active : WorkerState → Bool
is_active starting = true
is_active running = true
is_active reconnecting = true
is_active stopping = true
is_active stopped = false
is_active failed = false

-- `RUNNING_STATES`
abbrev pub is_running : WorkerState → Bool
is_running running = true
is_running reconnecting = true
is_running _ = false

-- `state is previous`
abbrev pub is_state : WorkerState → WorkerState → Bool
is_state stopped stopped = true
is_state starting starting = true
is_state running running = true
is_state reconnecting reconnecting = true
is_state stopping stopping = true
is_state failed failed = true
is_state _ _ = false

-- `state in VALID_TRANSITIONS[previous]`
abbrev pub is_valid_transition : WorkerState → WorkerState → Bool
is_valid_transition stopped starting = true
is_valid_transition starting running = true
is_valid_transition starting reconnecting = true
is_valid_transition starting failed = true
is_valid_transition starting stopping = true
is_valid_transition running reconnecting = true
is_valid_transition running stopping = true
is_valid_transition running failed = true
is_valid_transition reconnecting running = true
is_valid_transition reconnecting stopping = true
is_valid_transition reconnecting failed = true
is_valid_transition stopping stopped = true
is_valid_transition stopping failed = true
is_valid_transition failed stopping = true
is_valid_transition failed stopped = true
is_valid_transition _ _ = false
