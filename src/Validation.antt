-- ===== src/Validation.antt =====
-- backend/app/application/validation: the checks of what a model answers.
pub mod Streaming
