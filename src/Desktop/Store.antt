-- ===== src/Desktop/Store.antt =====
-- The tables of the edge machine together: `SessionRepository`, `CameraRepository`,
-- `AnalyticsRepository` and the completions of `SyncQueueRepository` in
-- apps/desktop-backend/app/repositories.py. Each function is one transaction.
pub mod State
pub mod Sessions
pub mod Cameras
pub mod Readings
pub mod Steps
pub mod Kept
pub mod Keys
pub mod Leases
pub mod Completion
mod Untouched
pub mod Revocation
mod Tests
