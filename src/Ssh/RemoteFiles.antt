-- ===== src/Ssh/RemoteFiles.antt =====
-- crates/remcmd-ssh/src/sftp.rs: what the server lists, and the requests about it.
use rem_cmd.Prelude.{ℕ, Bool, true, false, Option, List}
use rem_cmd.Prelude.Text.{Text}
use rem_cmd.Prelude.Utf8.{Bytes}

pub data RemoteFileKind : Type 0 where
  directory file symlink other : RemoteFileKind

pub record RemoteFileEntry : Type 0 where
  pub name : Text
  pub path : Text
  pub kind : RemoteFileKind
  pub size : Option ℕ
  pub modified : Option ℕ

pub record RemoteDirectory : Type 0 where
  pub path : Text
  pub entries : List RemoteFileEntry

pub record RemoteDirectoryTree : Type 0 where
  pub root : Text
  pub directories : List Text
  pub files : List RemoteFileEntry

pub record RemoteFile : Type 0 where
  pub path : Text
  pub contents : Bytes

pub data SftpOperation : Type 0 where
  read_directory read_directory_tree read_file write_file create_file : SftpOperation
  create_directory delete_paths upload_file download_file cancel_transfer : SftpOperation

-- The derived `==` with `RemoteFileKind::Directory`.
abbrev pub is_directory : RemoteFileKind → Bool
is_directory directory = true
is_directory _ = false
