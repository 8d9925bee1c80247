-- ===== src/Ssh.antt =====
-- crates/remcmd-ssh: errors, the session's life cycle, connection plans and remote paths.
pub mod Error
pub mod Session
pub mod LocalPath
pub mod RemotePath
pub mod RemoteFiles
pub mod Performance
pub mod Connection
pub mod Transfers
pub mod Plan
pub mod Proxy
pub mod Segments
pub mod Scp
