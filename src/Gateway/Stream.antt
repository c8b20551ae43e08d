-- ===== src/Gateway/Stream.antt =====
-- `Gateway._stream_impl` of backend/app/gateway/service.py: the events of a provider, the loop over
-- the deployments with fallback before the first byte, and the settlement of the quota.
pub mod Events
pub mod Flow
pub mod Loop
pub mod Terminal
pub mod Reports
pub mod Bytes
pub mod Failover
pub mod ToolCalls
mod Tests
