-- ===== src/Video.antt =====
-- Video: src/video.
pub mod FbCtrl
pub mod Palette
