-- ===== src/Agent.antt =====
-- internal/agent: the loop that drives one session, its queues, its conversation and compaction.
pub mod Queue
pub mod Conversation
pub mod Compacted
pub mod Context
pub mod Budget
pub mod Plan
pub mod Stream
pub mod Retry
pub mod Accept
pub mod Turn
pub mod Rounds
