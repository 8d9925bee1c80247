-- ===== src/Sftp.antt =====
-- crates/remcmd-app/src/app/sftp/state.rs: the state behind the file browser.
pub mod Task
pub mod Browser
pub mod Queue
pub mod Batch
pub mod TextFormat
