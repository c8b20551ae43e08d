-- ===== src/Database.antt =====
-- backend/app/infrastructure/db: where reads of the database go.
pub mod Replicas
