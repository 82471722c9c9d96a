-- ===== src/Search.antt =====
-- internal/search: what is kept of searches.
pub mod Cache
pub mod Usage
