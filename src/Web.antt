-- ===== src/Web.antt =====
-- apps/webapp-backend/app: the services of the web backend.
pub mod Access
pub mod Sessions
