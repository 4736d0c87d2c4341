-- ===== src/Orchestration.antt =====
-- apps/desktop-backend/app/orchestration: one worker for each camera, and their manager.
pub mod Errors
pub mod States
pub mod Payload
pub mod Worker
pub mod Manager
