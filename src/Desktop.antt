-- ===== src/Desktop.antt =====
-- apps/desktop-backend/app: the local store of an edge machine and its synchronisation.
pub mod Rows
pub mod Queue
pub mod Store
