-- ===== src/Ssh/Connection.antt =====
-- crates/remcmd-ssh/src/connection.rs: what the worker of a connection is told and reports, and how it
-- waits; with host_key.rs, `AuthMethod::kind`, and the commands of remote_files.rs.
pub mod Worker
pub mod Setup
pub mod Files
pub mod Loop
pub mod Decisions
use rem_cmd.Prelude.{
  ℕ, Bool, true, false, Option, none, some, List, [], ◌∷◌, ◌++◌, Result, ok, err, if◌then◌else◌,
  any, ◌==◌,
}
use rem_cmd.Prelude.Text.{Text, codes, decimal}
use rem_cmd.Prelude.Utf8.{Bytes}
use rem_cmd.Core.Pty.{PtySize}
use rem_cmd.Ssh.Error.{SshError, ConnectionStage, ssh_error, host_key_untrusted}
use rem_cmd.Ssh.Session.{SessionState}
use rem_cmd.Ssh.Plan.{AuthMethod, no_auth, password, private_key, agent}
use rem_cmd.Ssh.RemoteFiles.{
  RemoteFile, RemoteFileKind, RemoteDirectory, RemoteDirectoryTree, SftpOperation,
}
use rem_cmd.Ssh.Performance.{ServerPerformanceSnapshot}
use rem_cmd.Sftp.Task.{SftpTransferDirection}

pub data AuthMethodKind : Type 0 where
  no_kind password_kind private_key_kind agent_kind : AuthMethodKind

unfoldable pub kind : AuthMethod → AuthMethodKind
kind no_auth = no_kind
kind (password secret) = password_kind
kind (private_key path passphrase) = private_key_kind
kind agent = agent_kind

pub record HostKeyInfo : Type 0 where
  pub host : Text
  pub port : ℕ
  pub algorithm : Text
  pub fingerprint : Text

unfoldable pub host_key_address : HostKeyInfo → Text
unfolding decimal
host_key_address info =
    if any (λ c. c == b':') info.host
    then codes "[" ++ (info.host ++ (codes "]:" ++ decimal info.port))
    else info.host ++ (codes ":" ++ decimal info.port)

unfoldable pub rejected_error : HostKeyInfo → SshError
unfolding host_key_address
rejected_error info =
    ssh_error host_key_untrusted
      (codes "host key for " ++ (host_key_address info ++ codes " was not trusted"))

pub data HostKeyDecision : Type 0 where
  trust reject : HostKeyDecision

-- The variants have a suffix, since `SftpOperation` names its own alike.
pub data FileCommand : Type 0 where
  read_directory_request read_directory_tree_request : ℕ → Text → FileCommand
  read_file_request create_file_request : ℕ → Text → FileCommand
  write_file_request : ℕ → Text → Bytes → Bytes → FileCommand
  create_directories_request delete_paths_request : ℕ → List Text → FileCommand
  transfer_request : ℕ → SftpTransferDirection → Text → Text → Bool → FileCommand
  cancel_transfer_request : ℕ → FileCommand

pub data ConnectionCommand : Type 0 where
  input : Bytes → ConnectionCommand
  resize : PtySize → ConnectionCommand
  files : FileCommand → ConnectionCommand
  set_performance_monitoring : Bool → ConnectionCommand
  disconnect : ConnectionCommand

-- `ShellEvent` of shell.rs.
pub data ShellEvent : Type 0 where
  output : Bytes → ShellEvent
  extended_output : ℕ → Bytes → ShellEvent
  exit_status : ℕ → ShellEvent
  exit_signal : Text → Bool → Text → ShellEvent
  eof closed_channel : ShellEvent

pub data ConnectionEvent : Type 0 where
  state_changed : SessionState → ConnectionEvent
  stage_changed : ConnectionStage → ConnectionEvent
  authentication_succeeded : ConnectionStage → AuthMethodKind → ConnectionEvent
  host_key_verification_required : ConnectionStage → HostKeyInfo → ConnectionEvent
  resized : PtySize → ConnectionEvent
  shell : ShellEvent → ConnectionEvent
  directory_read : ℕ → RemoteDirectory → ConnectionEvent
  directory_tree_read : ℕ → RemoteDirectoryTree → ConnectionEvent
  file_read file_written : ℕ → RemoteFile → ConnectionEvent
  path_created : ℕ → Text → RemoteFileKind → ConnectionEvent
  directories_created paths_deleted : ℕ → List Text → ConnectionEvent
  transfer_progress : ℕ → ℕ → Option ℕ → ConnectionEvent
  transfer_conflict : ℕ → SftpTransferDirection → Text → ConnectionEvent
  transfer_completed : ℕ → SftpTransferDirection → Text → ℕ → ConnectionEvent
  transfer_cancelled : ℕ → ConnectionEvent
  sftp_failed : ℕ → Text → SftpOperation → SshError → ConnectionEvent
  sftp_availability_changed : Bool → Bool → Option Text → ConnectionEvent
  performance_snapshot : ServerPerformanceSnapshot → ConnectionEvent
  performance_failed failed : SshError → ConnectionEvent

pub data PendingResult (A : Type 0) : Type 0 where
  completed : Result A SshError → PendingResult A
  hung_up : PendingResult A

-- An operation that is waited for: the commands that arrive before it completes, `none` for a channel
-- that is closed, and its result.
pub record Wait (A : Type 0) : Type 0 where
  pub commands : List (Option ConnectionCommand)
  pub result : Result A SshError

-- The loop of `wait_for_operation` and of `wait_for_host_key_decision`.
unfoldable pub wait_loop :
    {A : Type 0}
    → List (Option ConnectionCommand)
    → Result A SshError
    → PtySize
    → PendingResult A × PtySize
wait_loop [] result latest_size = (completed result, latest_size)
wait_loop (some (resize size) ∷ commands) result latest_size = wait_loop commands result size
wait_loop (some (input bytes) ∷ commands) result latest_size = wait_loop commands result latest_size
wait_loop (some (files command) ∷ commands) result latest_size =
    wait_loop commands result latest_size
wait_loop (some (set_performance_monitoring enabled) ∷ commands) result latest_size =
    wait_loop commands result latest_size
wait_loop (some disconnect ∷ commands) result latest_size = (hung_up, latest_size)
wait_loop (none ∷ commands) result latest_size = (hung_up, latest_size)

unfoldable pub wait_for_operation : {A : Type 0} → Wait A → PtySize → PendingResult A × PtySize
unfolding wait_loop
wait_for_operation wait latest_size = wait_loop wait.commands wait.result latest_size

-- `coalesce_queued_resizes` on the commands that are queued: the size, the command behind the resizes
-- if there is one, and what stays queued.
unfoldable pub coalesce_queued_resizes :
    PtySize → List ConnectionCommand → PtySize × Option ConnectionCommand × List ConnectionCommand
coalesce_queued_resizes latest_size [] = (latest_size, none, [])
coalesce_queued_resizes latest_size (resize size ∷ commands) = coalesce_queued_resizes size commands
coalesce_queued_resizes latest_size (input bytes ∷ commands) =
    (latest_size, some (input bytes), commands)
coalesce_queued_resizes latest_size (files command ∷ commands) =
    (latest_size, some (files command), commands)
coalesce_queued_resizes latest_size (set_performance_monitoring enabled ∷ commands) =
    (latest_size, some (set_performance_monitoring enabled), commands)
coalesce_queued_resizes latest_size (disconnect ∷ commands) =
    (latest_size, some disconnect, commands)
