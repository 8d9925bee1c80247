-- ===== src/Ssh/Connection/Files/Answered.antt =====
-- How remote_files.rs answers a request: a worker gets it, or its failure is reported.
use rem_cmd.Prelude.{
  Bool, true, false, not, ◌≡◌, refl, inl, inr, Option, none, some, is_none, ◌&&◌, if_either, List,
  [], ◌∷◌, ◌++◌, Result, ok, err, Bool-cases, ◌==◌, arith,
}
use rem_cmd.Ssh.Error.{SshError}
use rem_cmd.Ssh.Connection.{FileCommand, cancel_transfer_request}
use rem_cmd.Ssh.Connection.Worker.{Worker, sent, send, Action}
use rem_cmd.Ssh.Connection.Files.{
  request, failure, FileWorker, RemoteFiles, Files, can_send, Backend, by_sftp, by_scp, worker_for,
  forward, report_send_error, delivered, send_to, dispatch, open_if_needed, supports_scp,
  is_read_directory, is_available, choose_worker, or_spawn, not_running,
}

abbrev pub last {ℓ} : {A : Type ℓ} → List A → Option A
last [] = none
last (x ∷ []) = some x
last (x ∷ y ∷ xs) = last (y ∷ xs)

last-append {ℓ} : {A : Type ℓ} → (xs : List A) → (x : A) → last (xs ++ x ∷ []) ≡ some x
last-append [] x = refl
last-append (y ∷ []) x = refl
last-append (y ∷ z ∷ xs) x = last-append (z ∷ xs) x

abbrev pub last_command : Option FileWorker → Option FileCommand
last_command none = none
last_command (some worker) = last worker.commands

abbrev pub is_cancel : FileCommand → Bool
is_cancel (cancel_transfer_request id) = true
is_cancel _ = false

-- A command is the last one that a worker was sent, or its failure is the last event.
pub data Answer (command : FileCommand) (files : RemoteFiles) (w : Worker) : Type 0 where
  queued_by_sftp : last_command files.sftp_worker ≡ some command → Answer command files w
  queued_by_scp : last_command files.scp_worker ≡ some command → Answer command files w
  reported :
      (error : SshError)
      → (actions : List Action) → w.actions ≡ sent (failure (request command) error) ∷ actions
      → Answer command files w

-- If the connection goes on there is an answer, and else the events have no receiver.
unfoldable pub IsAnswered : FileCommand → Files × Bool → Type 0
IsAnswered command ((files, w), true) = Answer command files w
IsAnswered command ((files, w), false) = w.room ≡ 0

send-IsAnswered :
    (command : FileCommand)
    → (error : SshError) → (files : RemoteFiles) → (w : Worker)
    → IsAnswered command ((files, send (failure (request command) error) w), can_send w)
unfolding IsAnswered send
send-IsAnswered command error files w = elim (Bool-cases (w.room == 0)) [
  | inl t ↦ rw t (ground arith)
  | inr f ↦ rw f (reported error w.actions refl)
]

to_sftp-IsAnswered :
    (command : FileCommand)
    → (worker : Option FileWorker) → (files : RemoteFiles) → (w : Worker) → is_none worker ≡ false
    → IsAnswered command (
        delivered command
          (forward command worker).1
          (record files { sftp_worker = (forward command worker).0 }, w))
unfolding IsAnswered report_send_error
to_sftp-IsAnswered command none files w present = ground arith
to_sftp-IsAnswered command (some worker) files w present = elim (Bool-cases worker.is_running) [
  | inl t ↦ rw t (queued_by_sftp (last-append worker.commands command))
  | inr f ↦
      simp f (send-IsAnswered command not_running (record files { sftp_worker = some worker }) w)
]

to_scp-IsAnswered :
    (command : FileCommand)
    → (worker : Option FileWorker) → (files : RemoteFiles) → (w : Worker) → is_none worker ≡ false
    → IsAnswered command (
        delivered command
          (forward command worker).1
          (record files { scp_worker = (forward command worker).0 }, w))
unfolding IsAnswered report_send_error
to_scp-IsAnswered command none files w present = ground arith
to_scp-IsAnswered command (some worker) files w present = elim (Bool-cases worker.is_running) [
  | inl t ↦ rw t (queued_by_scp (last-append worker.commands command))
  | inr f ↦
      simp f (send-IsAnswered command not_running (record files { scp_worker = some worker }) w)
]

-- The worker that is chosen exists.
unfoldable Exists : Files × Result Backend SshError → Type 0
Exists (files, err error) = Unit {0}
Exists (files, ok by_sftp) = is_none files.0.sftp_worker ≡ false
Exists (files, ok by_scp) = is_none files.0.scp_worker ≡ false

or_spawn-present : (worker : Option FileWorker) → is_none (or_spawn worker) ≡ false
or_spawn-present none = refl
or_spawn-present (some worker) = refl

choose_worker-Exists :
    (fallback probe_pending : Bool)
    → (p : Files × Result (Unit {0}) SshError) → Exists (choose_worker fallback probe_pending p)
unfolding choose_worker Exists
choose_worker-Exists fallback probe_pending (files, err error) = tt
choose_worker-Exists fallback probe_pending ((files, w), ok _) =
    elim (Bool-cases (is_none files.sftp_worker)) [
      | inl t ↦ rw t (
          if_either Exists (fallback && is_available files.scp_available)
            (or_spawn-present files.scp_worker) tt)
      | inr f ↦ rw f f
    ]

worker_for-Exists :
    (session : Result (Unit {0}) SshError)
    → (command : FileCommand) → (probe_pending : Bool) → (files : Files)
    → Exists (worker_for session command probe_pending files)
unfolding worker_for Exists
worker_for-Exists session command probe_pending (files, w) =
    if_either Exists (is_read_directory command && not (is_available files.sftp_available)) tt (
      choose_worker-Exists (supports_scp command) probe_pending
        (open_if_needed session (supports_scp command) (files, w)))

send_to-IsAnswered :
    (command : FileCommand)
    → (p : Files × Result Backend SshError) → Exists p
    → IsAnswered command (send_to command p)
unfolding send_to Exists
send_to-IsAnswered command ((files, w), err error) exists = send-IsAnswered command error files w
send_to-IsAnswered command ((files, w), ok by_sftp) exists =
    to_sftp-IsAnswered command files.sftp_worker files w exists
send_to-IsAnswered command ((files, w), ok by_scp) exists =
    to_scp-IsAnswered command files.scp_worker files w exists

-- A request that is dispatched, other than a cancellation, is the last command of a worker or its
-- failure is the last event, unless the events have no receiver, and then the result is `false`.
pub dispatch-IsAnswered :
    (session : Result (Unit {0}) SshError)
    → (command : FileCommand) → (probe_pending : Bool) → (files : Files) → is_cancel command ≡ false
    → IsAnswered command (dispatch session command probe_pending files)
unfolding dispatch
dispatch-IsAnswered session (cancel_transfer_request id) probe_pending files h = ground arith
dispatch-IsAnswered session command probe_pending files h =
    send_to-IsAnswered command (worker_for session command probe_pending files)
      (worker_for-Exists session command probe_pending files)
