-- ===== src/Executor.antt =====
-- internal/executor: where tools run.
pub mod Path
