-- ===== src/Patterns.antt =====
-- backend/app/infrastructure/patterns: the resilience patterns that the other parts share.
pub mod CircuitBreaker
pub mod Retry
pub mod RateLimiter
