-- ===== src/Orchestration/Worker.antt =====
-- apps/desktop-backend/app/orchestration/worker.py: one camera's capture, analytics, events and
-- resources. The tasks of the event loop interleave only where they await, so each stretch
-- between two awaits is one function; what an awaited call of the camera, the pipeline or the
-- sink does comes in as an argument. `capture_closes` and `pipeline_closes` count the calls of
-- the two `close` methods. The floating-point frame rate is not modelled.
pub mod Record
pub mod Callback
pub mod Snapshot
pub mod Lifecycle
pub mod Finish
pub mod Actions
pub mod Transitions
pub mod Invariants
pub mod Events
pub mod Accounting
pub mod Shutdown
pub mod Stopping
pub mod Ending
mod Tests
