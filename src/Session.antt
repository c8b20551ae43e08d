-- ===== src/Session.antt =====
-- backend/app/session: the sessions of end users.
pub mod Tokens
pub mod Coordinator
