-- ===== src/Context.antt =====
-- backend/app/context: what goes into the prompt of one turn.
pub mod Estimator
pub mod Prompt
pub mod Assembler
