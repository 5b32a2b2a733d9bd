-- ===== src/Config.antt =====
-- config: key bindings.
pub mod Binds
pub mod Keys
