-- ===== src/Governance.antt =====
-- backend/app/governance: deterministic gates that read no store.
pub mod ToolGate
pub mod Residency
pub mod Isolation
pub mod Promotion
pub mod Budgets
pub mod Compiled
mod Tests
