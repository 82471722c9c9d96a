-- ===== src/Imaging.antt =====
-- internal/imaging: images that a user attaches.
pub mod Jpeg
