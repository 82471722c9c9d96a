-- ===== src/Session.antt =====
-- internal/session: the session tree as conversations that a run can continue.
pub mod Message
pub mod Resume
pub mod Resumable
pub mod Replay
pub mod Replayed
