-- ===== src/Worker.antt =====
-- The middleware between the user interface and a mail worker, under worker/middleware.
pub mod Folders
