-- ===== src/Terminal.antt =====
-- crates/remcmd-terminal: the working directory reports and the screen model.
pub mod Cwd
pub mod Screen
