-- ===== src/Commands.antt =====
-- The commands of the command line, under commands.
pub mod History
