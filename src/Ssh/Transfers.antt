-- ===== src/Ssh/Transfers.antt =====
-- crates/remcmd-ssh/src/transfer.rs: the event at the end of a transfer and its temporary paths, and
-- the plan of a download of transfer/plan.rs. The file system is a state with `create_dir_all`.
pub mod Contained
use rem_cmd.Prelude.{
  ℕ, Bool, Option, none, some, List, [], ◌∷◌, ◌++◌, Result, ok, err, if◌then◌else◌, is_empty, ◌==◌,
  take,
}
use rem_cmd.Prelude.Text.{Text, codes, rfind, trim_end_matches}
use rem_cmd.Ssh.Error.{SshError}
use rem_cmd.Ssh.RemoteFiles.{RemoteFileEntry, RemoteDirectoryTree}
use rem_cmd.Ssh.LocalPath.{Host, local_parent}
use rem_cmd.Ssh.RemotePath.{remote_relative_path, join_remote_relative}
use rem_cmd.Sftp.Task.{SftpTransferDirection}
use rem_cmd.Ssh.Connection.{
  ConnectionEvent, transfer_completed, transfer_conflict, transfer_cancelled, sftp_failed,
}
use rem_cmd.Ssh.Connection.Files.{transfer_operation}

pub data TransferResult : Type 0 where
  completed : ℕ → TransferResult
  conflict cancelled : TransferResult

unfoldable pub transfer_result_event :
    ℕ → Text → SftpTransferDirection → Result TransferResult SshError → ConnectionEvent
transfer_result_event id path direction (ok (completed bytes)) =
    transfer_completed id direction path bytes
transfer_result_event id path direction (ok conflict) = transfer_conflict id direction path
transfer_result_event id path direction (ok cancelled) = transfer_cancelled id
transfer_result_event id path direction (err error) =
    sftp_failed id path (transfer_operation direction) error

unfoldable pub remote_transfer_temporary_path : Text → Text → Text
remote_transfer_temporary_path path suffix = path ++ (codes ".remcmd-" ++ (suffix ++ codes ".part"))

-- A local path, its remote path and its size.
abbrev pub PlannedFile : Type 0
PlannedFile = Text × (Text × Option ℕ)

-- The state and the errors of the file system are third-party code's.
module _ (host : Host) {F E : Type 0} (create_dir_all : Text → F → F × Result (Unit {0}) E)
    (invalid_data : Text → E) where
  abbrev pub and_run :
      {A : Type 0} → F × Result (Unit {0}) E → (F → F × Result A E) → F × Result A E
  and_run (fs, ok _) next = next fs
  and_run (fs, err error) next = (fs, err error)

  unfoldable pub create_parent : Option Text → F → F × Result (Unit {0}) E
  create_parent none fs = (fs, ok tt)
  create_parent (some parent) fs = create_dir_all parent fs

  unfoldable pub create_directory : Text → Text → Text → F → F × Result (Unit {0}) E
  unfolding remote_relative_path join_remote_relative
  create_directory root destination directory fs = elim (remote_relative_path root directory) [
    | none ↦ (fs, err (invalid_data (codes "remote directory escaped its requested root")))
    | some relative ↦ create_dir_all (join_remote_relative host destination relative) fs
  ]

  unfoldable pub create_directories : Text → Text → List Text → F → F × Result (Unit {0}) E
  unfolding create_directory
  create_directories root destination [] fs = (fs, ok tt)
  create_directories root destination (directory ∷ directories) fs =
      and_run (create_directory root destination directory fs)
        (create_directories root destination directories)

  -- On the path below the root of the tree.
  unfoldable pub plan_at : Text → RemoteFileEntry → F → Option Text → F × Result PlannedFile E
  unfolding join_remote_relative create_parent local_parent
  plan_at destination file fs none =
      (fs, err (invalid_data (codes "remote file escaped its requested root")))
  plan_at destination file fs (some relative) =
      let local_path = join_remote_relative host destination relative in
      and_run (create_parent (local_parent host local_path) fs)
        (λ fs₁. (fs₁, ok (local_path, (file.path, file.size))))

  unfoldable pub plan_file : Text → Text → RemoteFileEntry → F → F × Result PlannedFile E
  unfolding remote_relative_path plan_at
  plan_file root destination file fs =
      plan_at destination file fs (remote_relative_path root file.path)

  abbrev pub cons_file :
      PlannedFile → F × Result (List PlannedFile) E → F × Result (List PlannedFile) E
  cons_file file (fs, ok files) = (fs, ok (file ∷ files))
  cons_file file (fs, err error) = (fs, err error)

  abbrev pub and_plan :
      F × Result PlannedFile E
      → (F → F × Result (List PlannedFile) E)
      → F × Result (List PlannedFile) E
  and_plan (fs, err error) next = (fs, err error)
  and_plan (fs, ok file) next = cons_file file (next fs)

  -- The `map` and `collect`, which stops at the first error.
  unfoldable pub plan_files :
      Text → Text → List RemoteFileEntry → F → F × Result (List PlannedFile) E
  unfolding plan_file
  plan_files root destination [] fs = (fs, ok [])
  plan_files root destination (file ∷ files) fs =
      and_plan (plan_file root destination file fs) (plan_files root destination files)

  unfoldable pub build_remote_download_plan :
      RemoteDirectoryTree → Text → F → F × Result (List PlannedFile) E
  unfolding create_directories plan_files
  build_remote_download_plan tree destination fs =
      and_run
        (and_run (create_dir_all destination fs)
          (create_directories tree.root destination tree.directories))
        (plan_files tree.root destination tree.files)
