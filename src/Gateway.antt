-- ===== src/Gateway.antt =====
-- backend/app/gateway: the LLM gateway.
pub mod DependencyBreaker
pub mod Catalog
pub mod Router
pub mod Chain
pub mod Stream
pub mod Fallback
pub mod Quota
pub mod Cooldown
pub mod Admission
