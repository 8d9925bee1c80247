-- ===== src/Ssh/Connection/Files/Kept.antt =====
-- Requests of remote_files.rs leave the transports as they are.
use rem_cmd.Prelude.{Bool, true, false, not, ◌&&◌, is_none, Result, ok, err, if_either, ◌||◌}
use rem_cmd.Ssh.Error.{SshError}
use rem_cmd.Ssh.Connection.{FileCommand, cancel_transfer_request}
use rem_cmd.Ssh.Connection.Setup.Closed.{only_established, Holds, send-Holds}
use rem_cmd.Ssh.Connection.Files.{
  Files, request, failure, is_available, is_read_directory, supports_scp, Backend, by_sftp, by_scp,
  open_sftp, open_if_needed, choose_worker, worker_for, forward, delivered, report_send_error,
  not_running, send_to, cancel, dispatch,
}

-- A file request sends events at most.
abbrev pub FilesHold : Files → Type 0
FilesHold (remote, w) = Holds only_established w

open_sftp-Holds :
    (session : Result (Unit {0}) SshError)
    → (fallback : Bool) → (fs : Files) → FilesHold fs
    → FilesHold (open_sftp session fallback fs).0
unfolding open_sftp
open_sftp-Holds (ok _) fallback (remote, w) holds = holds
open_sftp-Holds (err error) false (remote, w) holds = holds
open_sftp-Holds (err error) true (remote, w) holds =
    if_either (λ (p : Files × Result (Unit {0}) SshError). FilesHold p.0)
      (not (is_available remote.scp_available)) holds (send-Holds only_established _ w holds)

open_if_needed-Holds :
    (session : Result (Unit {0}) SshError)
    → (fallback : Bool) → (fs : Files) → FilesHold fs
    → FilesHold (open_if_needed session fallback fs).0
unfolding open_if_needed
open_if_needed-Holds session fallback (remote, w) holds =
    if_either (λ (p : Files × Result (Unit {0}) SshError). FilesHold p.0)
      (is_none remote.sftp_worker && (not fallback || is_available remote.sftp_available))
      {x = open_sftp session fallback (remote, w)} {y = ((remote, w), ok tt)}
      (open_sftp-Holds session fallback (remote, w) holds) holds

choose_worker-Holds :
    (fallback probe_pending : Bool)
    → (p : Files × Result (Unit {0}) SshError) → FilesHold p.0
    → FilesHold (choose_worker fallback probe_pending p).0
unfolding choose_worker
choose_worker-Holds fallback probe_pending (fs, err error) holds = holds
choose_worker-Holds fallback probe_pending ((remote, w), ok _) holds =
    if_either (λ (p : Files × Result Backend SshError). FilesHold p.0)
      (not (is_none remote.sftp_worker)) holds
      (if_either (λ (p : Files × Result Backend SshError). FilesHold p.0)
        (fallback && is_available remote.scp_available) holds holds)

worker_for-Holds :
    (session : Result (Unit {0}) SshError)
    → (command : FileCommand) → (probe_pending : Bool) → (fs : Files) → FilesHold fs
    → FilesHold (worker_for session command probe_pending fs).0
unfolding worker_for
worker_for-Holds session command probe_pending (remote, w) holds =
    if_either (λ (p : Files × Result Backend SshError). FilesHold p.0)
      (is_read_directory command && not (is_available remote.sftp_available)) holds
      (choose_worker-Holds (supports_scp command) probe_pending
        (open_if_needed session (supports_scp command) (remote, w))
        (open_if_needed-Holds session (supports_scp command) (remote, w) holds))

delivered-Holds :
    (command : FileCommand)
    → (received : Bool) → (fs : Files) → FilesHold fs
    → FilesHold (delivered command received fs).0
unfolding report_send_error
delivered-Holds command true fs holds = holds
delivered-Holds command false (remote, w) holds =
    send-Holds only_established (failure (request command) not_running) w holds

send_to-Holds :
    (command : FileCommand)
    → (p : Files × Result Backend SshError) → FilesHold p.0
    → FilesHold (send_to command p).0
unfolding send_to
send_to-Holds command ((remote, w), err error) holds =
    send-Holds only_established (failure (request command) error) w holds
send_to-Holds command ((remote, w), ok by_sftp) holds =
    let (worker, received) = forward command remote.sftp_worker in
    delivered-Holds command received (record remote { sftp_worker = worker }, w) holds
send_to-Holds command ((remote, w), ok by_scp) holds =
    let (worker, received) = forward command remote.scp_worker in
    delivered-Holds command received (record remote { scp_worker = worker }, w) holds

pub dispatch-Holds :
    (session : Result (Unit {0}) SshError)
    → (command : FileCommand) → (probe_pending : Bool) → (fs : Files) → FilesHold fs
    → FilesHold (dispatch session command probe_pending fs).0
unfolding dispatch cancel
dispatch-Holds session (cancel_transfer_request id) probe_pending (remote, w) holds =
    let command = cancel_transfer_request id in
    let (to_sftp, first) = forward command remote.sftp_worker in
    let (to_scp, second) = forward command remote.scp_worker in
    delivered-Holds command (first && second)
      (record remote { sftp_worker = to_sftp; scp_worker = to_scp }, w) holds
dispatch-Holds session command probe_pending fs holds =
    send_to-Holds command (worker_for session command probe_pending fs)
      (worker_for-Holds session command probe_pending fs holds)
