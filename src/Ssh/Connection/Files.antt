-- ===== src/Ssh/Connection/Files.antt =====
-- crates/remcmd-ssh/src/remote_files.rs: which worker a file request goes to. The opening of an SFTP
-- session is a call of russh-sftp, and its answer a parameter; the events go to the connection's worker.
pub mod Routing
pub mod Answered
pub mod Kept
use rem_cmd.Prelude.{
  ℕ, Bool, true, false, not, ◌&&◌, ◌||◌, Option, none, some, is_none, List, [], ◌∷◌, ◌++◌, Result,
  ok, err, if◌then◌else◌, ◌==◌, ◌-◌,
}
use rem_cmd.Prelude.Text.{Text, codes}
use rem_cmd.Ssh.Error.{SshError, SshErrorKind, ssh_error, sftp, invalid_state}
use rem_cmd.Ssh.RemoteFiles.{
  SftpOperation, read_directory, read_directory_tree, read_file, write_file, create_file,
  create_directory, delete_paths, upload_file, download_file, cancel_transfer,
}
use rem_cmd.Sftp.Task.{SftpTransferDirection, upload, download}
use rem_cmd.Ssh.Connection.{
  FileCommand, read_directory_request, read_directory_tree_request, read_file_request,
  create_file_request, write_file_request, create_directories_request, delete_paths_request,
  transfer_request, cancel_transfer_request, ConnectionEvent, sftp_failed,
  sftp_availability_changed,
}
use rem_cmd.Ssh.Connection.Worker.{Worker, act, sent, send}

pub record FileRequest : Type 0 where
  pub request_id : ℕ
  pub path : Text
  pub operation : SftpOperation

abbrev pub first_path : List Text → Text
first_path [] = []
first_path (path ∷ paths) = path

abbrev pub file_request : ℕ → Text → SftpOperation → FileRequest
file_request id path operation = record { request_id = id; path = path; operation = operation }

abbrev pub transfer_operation : SftpTransferDirection → SftpOperation
transfer_operation upload = upload_file
transfer_operation download = download_file

unfoldable pub request : FileCommand → FileRequest
request (read_directory_request id path) = file_request id path read_directory
request (read_directory_tree_request id path) = file_request id path read_directory_tree
request (read_file_request id path) = file_request id path read_file
request (create_file_request id path) = file_request id path create_file
request (write_file_request id path expected contents) = file_request id path write_file
request (create_directories_request id paths) = file_request id (first_path paths) create_directory
request (delete_paths_request id paths) = file_request id (first_path paths) delete_paths
request (transfer_request id direction local_path remote_path overwrite) =
    file_request id remote_path (transfer_operation direction)
request (cancel_transfer_request id) = file_request id [] cancel_transfer

unfoldable pub supports_scp : FileCommand → Bool
supports_scp (create_directories_request id paths) = true
supports_scp (transfer_request id upload local_path remote_path overwrite) = true
supports_scp _ = false

unfoldable pub failure : FileRequest → SshError → ConnectionEvent
failure r error = sftp_failed r.request_id r.path r.operation error

-- The channel to a file worker: what is sent to it, and whether it still receives.
pub record FileWorker : Type 0 where
  pub is_running : Bool
  pub commands : List FileCommand

abbrev pub spawn : FileWorker
spawn = record { is_running = true; commands = [] }

pub record RemoteFiles : Type 0 where
  pub sftp_worker : Option FileWorker
  pub scp_worker : Option FileWorker
  pub sftp_available : Option Bool
  pub scp_available : Option Bool

abbrev pub new_files : RemoteFiles
new_files = record {
  sftp_worker = none;
  scp_worker = none;
  sftp_available = none;
  scp_available = none;
}

-- `== Some(true)`.
abbrev pub is_available : Option Bool → Bool
is_available none = false
is_available (some b) = b

-- The files and the worker that has the receiver of the events.
abbrev pub Files : Type 0
Files = RemoteFiles × Worker

-- Whether a send reaches the receiver; `send` is its effect.
abbrev pub can_send : Worker → Bool
can_send w = not (w.room == 0)

abbrev pub is_read_directory : FileCommand → Bool
is_read_directory (read_directory_request id path) = true
is_read_directory _ = false

pub data Backend : Type 0 where
  by_sftp by_scp : Backend

-- `open_sftp` and what follows from its answer.
unfoldable pub open_sftp :
    Result (Unit {0}) SshError → Bool → Files → Files × Result (Unit {0}) SshError
unfolding send
open_sftp (ok _) fallback (files, w) = ((record files { sftp_worker = some spawn }, w), ok tt)
open_sftp (err error) false (files, w) = ((files, w), err error)
open_sftp (err error) true (files, w) =
    let files₁ = record files { sftp_available = some false } in
    let message =
      codes "Opening SFTP failed: " ++ (error.message ++ codes "; using SCP upload fallback") in
    if not (is_available files.scp_available) then ((files₁, w), err error) else (
      (files₁, send (sftp_availability_changed false true (some message)) w),
      (if can_send w
          then ok tt
          else err
              (ssh_error invalid_state (codes "SSH connection event receiver is not running"))),
    )

unfoldable pub open_if_needed :
    Result (Unit {0}) SshError → Bool → Files → Files × Result (Unit {0}) SshError
unfolding open_sftp
open_if_needed session fallback (files, w) =
    if is_none files.sftp_worker && (not fallback || is_available files.sftp_available)
    then open_sftp session fallback (files, w)
    else ((files, w), ok tt)

abbrev pub or_spawn : Option FileWorker → Option FileWorker
or_spawn none = some spawn
or_spawn (some worker) = some worker

abbrev pub unavailable_error : Bool → SshError
unavailable_error probe_pending = ssh_error sftp (
    if probe_pending
    then codes "File-transfer availability is still being checked"
    else codes "SFTP and SCP are unavailable on this server")

-- The end of `worker_for`, on the files and on what opening a session gave.
unfoldable pub choose_worker :
    Bool → Bool → Files × Result (Unit {0}) SshError → Files × Result Backend SshError
choose_worker fallback probe_pending (files, err error) = (files, err error)
choose_worker fallback probe_pending ((files, w), ok _) =
    if not (is_none files.sftp_worker)
    then ((files, w), ok by_sftp)
    else if fallback && is_available files.scp_available
    then ((record files { scp_worker = or_spawn files.scp_worker }, w), ok by_scp)
    else ((files, w), err (unavailable_error probe_pending))

unfoldable pub worker_for :
    Result (Unit {0}) SshError → FileCommand → Bool → Files → Files × Result Backend SshError
unfolding open_if_needed choose_worker supports_scp
worker_for session command probe_pending (files, w) =
    let fallback = supports_scp command in
    if is_read_directory command && not (is_available files.sftp_available)
    then (
      (files, w),
      err (
          ssh_error sftp (
            if probe_pending
            then codes "SFTP availability is still being checked"
            else codes "SFTP is unavailable on this server")),
    )
    else choose_worker fallback probe_pending (open_if_needed session fallback (files, w))

-- A command to a worker, and whether it is received.
abbrev pub forward : FileCommand → Option FileWorker → Option FileWorker × Bool
forward command none = (none, true)
forward command (some worker) =
    if worker.is_running
    then (some (record worker { commands = worker.commands ++ command ∷ [] }), true)
    else (some worker, false)

abbrev pub not_running : SshError
not_running = ssh_error sftp (codes "Remote file worker is not running")

unfoldable pub report_send_error : FileCommand → Files → Files × Bool
unfolding send request failure
report_send_error command (files, w) =
    ((files, send (failure (request command) not_running) w), can_send w)

abbrev pub delivered : FileCommand → Bool → Files → Files × Bool
delivered command true files = (files, true)
delivered command false files = report_send_error command files

abbrev pub send_to_sftp : FileCommand → Files → Files × Bool
send_to_sftp command (files, w) =
    let (worker, received) = forward command files.sftp_worker in
    delivered command received (record files { sftp_worker = worker }, w)

abbrev pub send_to_scp : FileCommand → Files → Files × Bool
send_to_scp command (files, w) =
    let (worker, received) = forward command files.scp_worker in
    delivered command received (record files { scp_worker = worker }, w)

unfoldable pub send_to : FileCommand → Files × Result Backend SshError → Files × Bool
unfolding report_send_error send request failure
send_to command (files, ok by_sftp) = send_to_sftp command files
send_to command (files, ok by_scp) = send_to_scp command files
send_to command ((files, w), err error) =
    ((files, send (failure (request command) error) w), can_send w)

-- The cancellation goes to both workers, and the first error is reported.
unfoldable pub cancel : ℕ → Files → Files × Bool
unfolding report_send_error
cancel transfer_id (files, w) =
    let command = cancel_transfer_request transfer_id in
    let (to_sftp, first) = forward command files.sftp_worker in
    let (to_scp, second) = forward command files.scp_worker in
    delivered command (first && second)
      (record files { sftp_worker = to_sftp; scp_worker = to_scp }, w)

-- Whether the worker of the connection goes on is the result.
unfoldable pub dispatch : Result (Unit {0}) SshError → FileCommand → Bool → Files → Files × Bool
unfolding cancel send_to worker_for
dispatch session (cancel_transfer_request id) probe_pending files = cancel id files
dispatch session command probe_pending files =
    send_to command (worker_for session command probe_pending files)
