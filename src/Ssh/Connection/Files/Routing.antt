-- ===== src/Ssh/Connection/Files/Routing.antt =====
-- Which commands the workers of remote_files.rs get, and how a request is answered.
use rem_cmd.Prelude.{
  ℕ, Bool, true, false, not, ◌&&◌, ◌||◌, ◌≡◌, inl, inr, refl, Option, none, some, is_none, [], ◌∷◌,
  All, All-append, Result, ok, err, if_either, Bool-cases, arith,
}
use rem_cmd.Ssh.Error.{SshError}
use rem_cmd.Sftp.Task.{upload, download}
use rem_cmd.Ssh.Connection.{
  FileCommand, read_directory_request, read_directory_tree_request, read_file_request,
  create_file_request, write_file_request, create_directories_request, delete_paths_request,
  transfer_request, cancel_transfer_request,
}
use rem_cmd.Ssh.Connection.Files.{
  supports_scp, FileWorker, is_available, Files, is_read_directory, Backend, by_sftp, by_scp,
  open_sftp, open_if_needed, or_spawn, choose_worker, worker_for, forward, report_send_error,
  delivered, send_to, cancel, dispatch,
}

-- `execute` and `transfer` of the SCP backend: the commands that it refuses, since they need SFTP.
unfoldable pub is_refused_by_scp : FileCommand → Bool
is_refused_by_scp (create_directories_request id paths) = false
is_refused_by_scp (transfer_request id upload local_path remote_path overwrite) = false
is_refused_by_scp (cancel_transfer_request id) = false
is_refused_by_scp _ = true

supports_scp-accepted :
    (command : FileCommand) → supports_scp command ≡ true → is_refused_by_scp command ≡ false
unfolding supports_scp is_refused_by_scp
supports_scp-accepted (read_directory_request id path) h = ground arith
supports_scp-accepted (read_directory_tree_request id path) h = ground arith
supports_scp-accepted (read_file_request id path) h = ground arith
supports_scp-accepted (create_file_request id path) h = ground arith
supports_scp-accepted (write_file_request id path expected contents) h = ground arith
supports_scp-accepted (create_directories_request id paths) h = refl
supports_scp-accepted (delete_paths_request id paths) h = ground arith
supports_scp-accepted (transfer_request id upload local_path remote_path overwrite) h = refl
supports_scp-accepted (transfer_request id download local_path remote_path overwrite) h =
    ground arith
supports_scp-accepted (cancel_transfer_request id) h = refl

-- No command that the worker was sent is refused.
unfoldable pub IsAccepting : Option FileWorker → Type 0
unfolding is_refused_by_scp
IsAccepting none = Unit {0}
IsAccepting (some worker) = All (λ c. is_refused_by_scp c ≡ false) worker.commands

abbrev pub IsRouted : Files → Type 0
IsRouted (files, w) = IsAccepting files.scp_worker

unfoldable IsRoutedFor : FileCommand → Files × Result Backend SshError → Type 0
unfolding IsAccepting supports_scp
IsRoutedFor command (files, err error) = IsRouted files
IsRoutedFor command (files, ok by_sftp) = IsRouted files
IsRoutedFor command (files, ok by_scp) = IsRouted files × supports_scp command ≡ true

or_spawn-IsAccepting :
    (worker : Option FileWorker) → IsAccepting worker → IsAccepting (or_spawn worker)
unfolding IsAccepting
or_spawn-IsAccepting none accepting = tt
or_spawn-IsAccepting (some worker) accepting = accepting

choose_worker-IsRoutedFor :
    (command : FileCommand)
    → (probe_pending : Bool) → (p : Files × Result (Unit {0}) SshError) → IsRouted p.0
    → IsRoutedFor command (choose_worker (supports_scp command) probe_pending p)
unfolding choose_worker IsRoutedFor
choose_worker-IsRoutedFor command probe_pending (files, err error) routed = routed
choose_worker-IsRoutedFor command probe_pending ((files, w), ok _) routed =
    if_either (IsRoutedFor command) (not (is_none files.sftp_worker)) routed
      (elim (Bool-cases (supports_scp command)) [
        | inl t ↦
            if_either (IsRoutedFor command)
              (supports_scp command && is_available files.scp_available)
              (or_spawn-IsAccepting files.scp_worker routed, t) routed
        | inr f ↦ rw f routed
      ])

open_sftp-IsRouted :
    (session : Result (Unit {0}) SshError)
    → (fallback : Bool) → (files : Files) → IsRouted files
    → IsRouted (open_sftp session fallback files).0
unfolding open_sftp
open_sftp-IsRouted (ok _) fallback (files, w) routed = routed
open_sftp-IsRouted (err error) false (files, w) routed = routed
open_sftp-IsRouted (err error) true (files, w) routed =
    if_either (λ (p : Files × Result (Unit {0}) SshError). IsRouted p.0)
      (not (is_available files.scp_available)) routed routed

open_if_needed-IsRouted :
    (session : Result (Unit {0}) SshError)
    → (fallback : Bool) → (files : Files) → IsRouted files
    → IsRouted (open_if_needed session fallback files).0
unfolding open_if_needed
open_if_needed-IsRouted session fallback (files, w) routed =
    if_either (λ (p : Files × Result (Unit {0}) SshError). IsRouted p.0)
      (is_none files.sftp_worker && (not fallback || is_available files.sftp_available))
      {x = open_sftp session fallback (files, w)} {y = ((files, w), ok tt)}
      (open_sftp-IsRouted session fallback (files, w) routed) routed

worker_for-IsRoutedFor :
    (session : Result (Unit {0}) SshError)
    → (command : FileCommand) → (probe_pending : Bool) → (files : Files) → IsRouted files
    → IsRoutedFor command (worker_for session command probe_pending files)
unfolding worker_for IsRoutedFor
worker_for-IsRoutedFor session command probe_pending (files, w) routed =
    if_either (IsRoutedFor command)
      (is_read_directory command && not (is_available files.sftp_available)) routed
      (choose_worker-IsRoutedFor command probe_pending
        (open_if_needed session (supports_scp command) (files, w))
        (open_if_needed-IsRouted session (supports_scp command) (files, w) routed))

forward-IsAccepting :
    (command : FileCommand)
    → (worker : Option FileWorker) → is_refused_by_scp command ≡ false
    → IsAccepting worker
    → IsAccepting (forward command worker).0
unfolding IsAccepting
forward-IsAccepting command none accepted accepting = tt
forward-IsAccepting command (some worker) accepted accepting =
    if_either (λ (p : Option FileWorker × Bool). IsAccepting p.0) worker.is_running
      (All-append (λ c. is_refused_by_scp c ≡ false) worker.commands accepting (command ∷ [])
        (accepted, tt))
      accepting

delivered-IsRouted :
    (command : FileCommand)
    → (received : Bool) → (files : Files) → IsRouted files
    → IsRouted (delivered command received files).0
unfolding report_send_error
delivered-IsRouted command true files routed = routed
delivered-IsRouted command false files routed = routed

send_to-IsRouted :
    (command : FileCommand)
    → (p : Files × Result Backend SshError) → IsRoutedFor command p
    → IsRouted (send_to command p).0
unfolding send_to IsRoutedFor
send_to-IsRouted command ((files, w), err error) routed = routed
send_to-IsRouted command ((files, w), ok by_sftp) routed =
    let (worker, received) = forward command files.sftp_worker in
    delivered-IsRouted command received (record files { sftp_worker = worker }, w) routed
send_to-IsRouted command ((files, w), ok by_scp) (routed, supported) =
    let (worker, received) = forward command files.scp_worker in
    delivered-IsRouted command received (record files { scp_worker = worker }, w)
      (forward-IsAccepting command files.scp_worker (supports_scp-accepted command supported)
        routed)

cancel-IsRouted : (id : ℕ) → (files : Files) → IsRouted files → IsRouted (cancel id files).0
unfolding cancel is_refused_by_scp
cancel-IsRouted id (files, w) routed =
    let command = cancel_transfer_request id in
    let (to_sftp, first) = forward command files.sftp_worker in
    let (to_scp, second) = forward command files.scp_worker in
    delivered-IsRouted command (first && second)
      (record files { sftp_worker = to_sftp; scp_worker = to_scp }, w)
      (forward-IsAccepting command files.scp_worker refl routed)

-- If the SCP worker was sent only commands that its backend does not refuse, that stays true after
-- any request is dispatched, whatever the server answers.
pub dispatch-IsRouted :
    (session : Result (Unit {0}) SshError)
    → (command : FileCommand) → (probe_pending : Bool) → (files : Files) → IsRouted files
    → IsRouted (dispatch session command probe_pending files).0
unfolding dispatch
dispatch-IsRouted session (cancel_transfer_request id) probe_pending files routed =
    cancel-IsRouted id files routed
dispatch-IsRouted session command probe_pending files routed =
    send_to-IsRouted command (worker_for session command probe_pending files)
      (worker_for-IsRoutedFor session command probe_pending files routed)
