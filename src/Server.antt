-- ===== src/Server.antt =====
-- internal/server: the parts of the server that decide, rather than pass requests on.
pub mod Runs
