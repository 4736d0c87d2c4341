-- ===== src/Orchestration/Manager.antt =====
-- apps/desktop-backend/app/orchestration/manager.py: the registry of workers and the calls that
-- start and stop a camera. A handle is the identity of a worker object; what an awaited call of a
-- worker returns or raises is an argument, and so is what other tasks do to the registry during
-- the await.
pub mod Registry
pub mod Calls
pub mod Capacity
pub mod Admission
pub mod Removal
mod Tests
