-- ===== src/Ssh/Connection/Loop.antt =====
-- crates/remcmd-ssh/src/connection.rs, the loop of `run_connection_plan` once the shell is connected.
-- A turn is one branch of its `select!`; what the channel answers comes with the branch.
pub mod Closed
use rem_cmd.Prelude.{
  ℕ, Bool, true, false, not, ◌&&◌, ◌||◌, Option, none, some, is_some, is_none, List, [], ◌∷◌, ◌++◌,
  Result, ok, err, if◌then◌else◌, ◌+◌,
}
use rem_cmd.Prelude.Text.{Text, codes}
use rem_cmd.Core.Pty.{PtySize}
use rem_cmd.Ssh.Error.{SshError}
use rem_cmd.Ssh.Plan.{ConnectionPlan}
use rem_cmd.Ssh.Connection.{
  ConnectionCommand, input, resize, files, set_performance_monitoring, disconnect, ConnectionEvent,
  shell, resized, sftp_availability_changed, ShellEvent, output, extended_output, closed_channel,
  coalesce_queued_resizes,
}
use rem_cmd.Ssh.Connection.Worker.{
  Worker, Progress, ended, going, close_shell, send_or, finish_disconnection,
}
use rem_cmd.Ssh.Connection.Setup.{StepScript, ShellScript, run_connection_plan, fail_before}
use rem_cmd.Ssh.Connection.Files.{RemoteFiles, new_files, dispatch}

-- `ShellKind` of shell_integration.rs.
pub data ShellKind : Type 0 where
  bash zsh ash : ShellKind

-- The variables of the loop; a deadline is in milliseconds, `hooks` is the calls of
-- `install_cwd_hook`, each with the start of the reader's filter.
pub record Loop : Type 0 where
  pub worker : Worker
  pub remote_files : RemoteFiles
  pub pending_command : Option ConnectionCommand
  pub transfer_probe_pending : Bool
  pub shell_probe_pending : Bool
  pub detected_shell : Option ShellKind
  pub shell_output_seen : Bool
  pub shell_integration_deadline : Option ℕ
  pub hooks : List ShellKind
  pub is_monitoring : Bool

abbrev pub start_loop : Worker → Loop
start_loop w = record {
  worker = w;
  remote_files = new_files;
  pending_command = none;
  transfer_probe_pending = true;
  shell_probe_pending = true;
  detected_shell = none;
  shell_output_seen = false;
  shell_integration_deadline = none;
  hooks = [];
  is_monitoring = false;
}

-- What answers a command: the shell's writer, the opening of an SFTP session, and the commands that
-- are queued.
pub record Answers : Type 0 where
  pub writer : Result (Unit {0}) SshError
  pub session : Result (Unit {0}) SshError
  pub queued : List ConnectionCommand

-- The branches: the command that is pending, one that is received or `none` for a closed channel,
-- the two probes, the quiet period, and an event of the shell. `ℕ` is the time.
pub data Branch : Type 0 where
  take_pending : Answers → Branch
  receive : Option ConnectionCommand → Answers → Branch
  transfer_probed : Result Bool SshError → Result Bool SshError → Branch
  shell_probed : ℕ → Result (Option ShellKind) SshError → Branch
  quiet_period_over : Result (Unit {0}) SshError → Branch
  shell_event : ℕ → ShellEvent → Branch

pub data Turn : Type 0 where
  stopped : Worker → Turn
  looping : Loop → Turn

abbrev pub resume : Loop → Progress → Turn
resume l (ended w) = stopped w
resume l (going w) = looping (record l { worker = w })

abbrev pub finish : Loop → Turn
finish l = stopped (finish_disconnection close_shell l.worker)

-- An error of the writer ends the loop.
abbrev pub written : Result (Unit {0}) SshError → Worker → Progress
written (ok _) w = going w
written (err error) w = fail_before close_shell error w

unfoldable pub on_resize :
    PtySize × Option ConnectionCommand × List ConnectionCommand
    → Result (Unit {0}) SshError
    → Loop
    → Turn
unfolding fail_before send_or
on_resize (latest_size, next_command, queued) (err error) l =
    resume l (fail_before close_shell error l.worker)
on_resize (latest_size, next_command, queued) (ok _) l =
    resume (record l { pending_command = next_command })
      (send_or close_shell (resized latest_size) l.worker)

unfoldable pub on_dispatched : Loop → (RemoteFiles × Worker) × Bool → Turn
unfolding close_shell
on_dispatched l ((remote, w), true) = looping (record l { worker = w; remote_files = remote })
on_dispatched l ((remote, w), false) = stopped (close_shell w)

unfoldable pub on_command : Option ConnectionCommand → Answers → Loop → Turn
unfolding fail_before on_resize on_dispatched dispatch finish_disconnection coalesce_queued_resizes
on_command none answers l = finish l
on_command (some disconnect) answers l = finish l
on_command (some (input bytes)) answers l = resume l (written answers.writer l.worker)
on_command (some (resize size)) answers l =
    on_resize (coalesce_queued_resizes size answers.queued) answers.writer l
on_command (some (files command)) answers l =
    on_dispatched l
      (dispatch answers.session command l.transfer_probe_pending (l.remote_files, l.worker))
on_command (some (set_performance_monitoring enabled)) answers l =
    looping (record l { is_monitoring = enabled })

-- The text shown when SFTP is not available; `Display` of an error is its message.
unfoldable pub fallback_message : Result Bool SshError → Result Bool SshError → Option Text
fallback_message (ok true) scp = none
fallback_message (ok false) (ok true) =
    some (codes "SFTP is unavailable; SCP upload fallback is available")
fallback_message (ok false) (ok false) = some (codes "SFTP and SCP are unavailable on this server")
fallback_message (err error) (ok true) = some (
    codes "Could not verify SFTP availability: "
    ++ (error.message ++ codes "; SCP upload fallback is available"))
fallback_message (err error) (ok false) = some (
    codes "Could not verify SFTP availability: " ++ (error.message ++ codes "; SCP is unavailable"))
fallback_message (ok false) (err error) =
    some (codes "SFTP is unavailable and SCP availability could not be verified: " ++ error.message)
fallback_message (err sftp_error) (err scp_error) = some (
    codes "Could not verify SFTP availability: "
    ++ (sftp_error.message ++ (codes "; could not verify SCP availability: " ++ scp_error.message)))

-- `unwrap_or(false)`.
abbrev pub verified : Result Bool SshError → Bool
verified (ok available) = available
verified (err error) = false

abbrev pub probed : Result Bool SshError → Result Bool SshError → Loop → Loop
probed sftp scp l = record l {
  transfer_probe_pending = false;
  remote_files = record l.remote_files {
    sftp_available = some (verified sftp);
    scp_available = some (verified scp);
  };
}

unfoldable pub on_transfer_probe : Result Bool SshError → Result Bool SshError → Loop → Turn
unfolding fallback_message send_or
on_transfer_probe sftp scp l = resume (probed sftp scp l) (
    send_or close_shell
      (sftp_availability_changed (verified sftp) (verified scp) (fallback_message sftp scp))
      l.worker)

abbrev pub quiet_period : ℕ
quiet_period = 120

unfoldable pub on_shell_probe : ℕ → Result (Option ShellKind) SshError → Loop → Loop
on_shell_probe now (ok (some kind)) l = record l {
  shell_probe_pending = false;
  detected_shell = some kind;
  shell_integration_deadline =
      if l.shell_output_seen then some (now + quiet_period) else l.shell_integration_deadline;
}
on_shell_probe now _ l = record l { shell_probe_pending = false }

abbrev pub install : Option ShellKind → Result (Unit {0}) SshError → Loop → Turn
install none writer l = looping l
install (some kind) writer l =
    resume (record l { detected_shell = none; hooks = kind ∷ l.hooks }) (written writer l.worker)

unfoldable pub on_quiet_period : Result (Unit {0}) SshError → Loop → Turn
unfolding fail_before
on_quiet_period writer l =
    install l.detected_shell writer (record l { shell_integration_deadline = none })

abbrev pub is_output : ShellEvent → Bool
is_output (output bytes) = true
is_output (extended_output code bytes) = true
is_output _ = false

abbrev pub is_closed : ShellEvent → Bool
is_closed closed_channel = true
is_closed _ = false

unfoldable pub note_output : ℕ → ShellEvent → Loop → Loop
note_output now e l =
    if is_output e
    then record l {
      shell_output_seen = true;
      shell_integration_deadline =
          if is_some l.detected_shell
          then some (now + quiet_period)
          else l.shell_integration_deadline;
    }
    else l

abbrev pub finish_if : Bool → Turn → Turn
finish_if true (looping l) = finish l
finish_if true (stopped w) = stopped w
finish_if false turn = turn

unfoldable pub on_shell_event : ℕ → ShellEvent → Loop → Turn
unfolding note_output send_or finish_disconnection
on_shell_event now e l =
    finish_if (is_closed e)
      (resume (note_output now e l) (send_or close_shell (shell e) (note_output now e l).worker))

-- A branch whose condition does not hold is not taken.
unfoldable pub turn : Branch → Loop → Turn
unfolding on_command on_transfer_probe on_shell_probe on_quiet_period on_shell_event
turn (take_pending answers) l =
    if is_some l.pending_command
    then on_command l.pending_command answers (record l { pending_command = none })
    else looping l
turn (receive command answers) l =
    if is_none l.pending_command then on_command command answers l else looping l
turn (transfer_probed sftp scp) l =
    if is_none l.pending_command && l.transfer_probe_pending
    then on_transfer_probe sftp scp l
    else looping l
turn (shell_probed now found) l =
    if is_none l.pending_command && l.shell_probe_pending
    then looping (on_shell_probe now found l)
    else looping l
turn (quiet_period_over writer) l =
    if is_none l.pending_command && is_some l.shell_integration_deadline
    then on_quiet_period writer l
    else looping l
turn (shell_event now e) l = if is_none l.pending_command then on_shell_event now e l else looping l

abbrev pub then_turn : Turn → (Loop → Turn) → Turn
then_turn (stopped w) next = stopped w
then_turn (looping l) next = next l

unfoldable pub run_loop : List Branch → Loop → Turn
unfolding turn
run_loop [] l = looping l
run_loop (branch ∷ branches) l = then_turn (turn branch l) (run_loop branches)

abbrev pub loop_from : List Branch → Progress → Turn
loop_from branches (ended w) = stopped w
loop_from branches (going w) = run_loop branches (start_loop w)

-- The whole of `run_connection_plan`.
unfoldable pub run_connection :
    ConnectionPlan → (ℕ → StepScript) → ShellScript → List Branch → Worker → Turn
unfolding run_loop run_connection_plan
run_connection plan network script branches w =
    loop_from branches (run_connection_plan plan network script w)
