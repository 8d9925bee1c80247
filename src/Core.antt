-- ===== src/Core.antt =====
-- crates/remcmd-core: connection profiles, the settings, and the terminal dimensions.
pub mod Profile
pub mod Settings
pub mod Pty
