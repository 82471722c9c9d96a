-- ===== src/Tool.antt =====
-- internal/tool: the tools that an agent may call.
pub mod Output
