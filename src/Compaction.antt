-- ===== src/Compaction.antt =====
-- backend/app/application/compaction: compaction of long conversations.
pub mod Breaker
pub mod Summary
pub mod Service
