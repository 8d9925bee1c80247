-- ===== src/Ssh/Connection/Loop/Closed.antt =====
-- What the loop of connection.rs leaves open, and the whole life of a connection.
use rem_cmd.Prelude.{
  ℕ, Bool, true, false, ◌&&◌, ◌≡◌, refl, sym, subst, Option, none, some, is_some, is_none, List, [],
  ◌∷◌, Result, ok, err, if_either, inl, inr, Bool-cases, arith,
}
use rem_cmd.Core.Pty.{PtySize}
use rem_cmd.Ssh.Error.{SshError}
use rem_cmd.Ssh.Plan.{ConnectionPlan}
use rem_cmd.Ssh.Connection.{
  ConnectionCommand, input, resize, files, set_performance_monitoring, disconnect, ConnectionEvent,
  shell, resized, ShellEvent, coalesce_queued_resizes,
}
use rem_cmd.Ssh.Connection.Worker.{Worker, Progress, ended, going, close_shell, send_or}
use rem_cmd.Ssh.Connection.Setup.{
  StepScript, ShellScript, fail_before, new_worker, run_connection_plan,
}
use rem_cmd.Ssh.Connection.Setup.Closed.{
  is_open, nothing, only_established, Holds, IsWithin, IsSettled, Closes, close_shell-Closes,
  fail_before-IsSettled, finish_disconnection-Holds,
}
use rem_cmd.Ssh.Connection.Setup.Steps.{closing-IsSettled}
use rem_cmd.Ssh.Connection.Setup.Kept.{run_connection_plan-IsSettled}
use rem_cmd.Ssh.Connection.Files.{Files}
use rem_cmd.Ssh.Connection.Files.Kept.{FilesHold, dispatch-Holds}
use rem_cmd.Ssh.Connection.Loop.{
  Loop, start_loop, Answers, Branch, take_pending, receive, transfer_probed, shell_probed,
  quiet_period_over, shell_event, Turn, stopped, looping, resume, finish, written, on_resize,
  on_dispatched, on_command, on_transfer_probe, on_shell_probe, install, on_quiet_period, is_closed,
  is_output, note_output, finish_if, on_shell_event, turn, then_turn, run_loop, probed, loop_from,
  run_connection, ShellKind,
}

-- The established transports are all that is open, and nothing is once the loop has stopped.
unfoldable IsKept : Turn → Type 0
IsKept (stopped w) = Holds nothing w
IsKept (looping l) = Holds only_established l.worker

resume-IsKept : (l : Loop) → (p : Progress) → IsSettled only_established p → IsKept (resume l p)
unfolding IsKept IsSettled
resume-IsKept l (ended w) settled = settled
resume-IsKept l (going w) settled = settled

finish-IsKept : (l : Loop) → Holds only_established l.worker → IsKept (finish l)
unfolding IsKept
finish-IsKept l holds =
    finish_disconnection-Holds only_established close_shell l.worker close_shell-Closes holds

failed-IsSettled :
    (error : SshError)
    → (w : Worker) → Holds only_established w
    → IsSettled only_established (fail_before close_shell error w)
failed-IsSettled error w holds =
    fail_before-IsSettled only_established only_established close_shell error w close_shell-Closes
      holds

sent-IsSettled :
    (e : ConnectionEvent)
    → (w : Worker) → Holds only_established w
    → IsSettled only_established (send_or close_shell e w)
sent-IsSettled e w holds =
    closing-IsSettled only_established close_shell e w close_shell-Closes holds

written-IsSettled :
    (writer : Result (Unit {0}) SshError)
    → (w : Worker) → Holds only_established w
    → IsSettled only_established (written writer w)
unfolding IsSettled
written-IsSettled (ok _) w holds = holds
written-IsSettled (err error) w holds = failed-IsSettled error w holds

on_dispatched-IsKept : (l : Loop) → (r : Files × Bool) → FilesHold r.0 → IsKept (on_dispatched l r)
unfolding on_dispatched IsKept Closes
on_dispatched-IsKept l (fs, true) holds = holds
on_dispatched-IsKept l (fs, false) holds = close_shell-Closes fs.1 holds

on_resize-IsKept :
    (r : PtySize × Option ConnectionCommand × List ConnectionCommand)
    → (writer : Result (Unit {0}) SshError) → (l : Loop) → Holds only_established l.worker
    → IsKept (on_resize r writer l)
unfolding on_resize
on_resize-IsKept (size, next, queued) (ok _) l holds =
    resume-IsKept (record l { pending_command = next }) _
      (sent-IsSettled (resized size) l.worker holds)
on_resize-IsKept (size, next, queued) (err error) l holds =
    resume-IsKept l _ (failed-IsSettled error l.worker holds)

on_command-IsKept :
    (command : Option ConnectionCommand)
    → (answers : Answers) → (l : Loop) → Holds only_established l.worker
    → IsKept (on_command command answers l)
unfolding on_command IsKept
on_command-IsKept none answers l holds = finish-IsKept l holds
on_command-IsKept (some disconnect) answers l holds = finish-IsKept l holds
on_command-IsKept (some (input bytes)) answers l holds =
    resume-IsKept l _ (written-IsSettled answers.writer l.worker holds)
on_command-IsKept (some (resize size)) answers l holds =
    on_resize-IsKept (coalesce_queued_resizes size answers.queued) answers.writer l holds
on_command-IsKept (some (files command)) answers l holds = on_dispatched-IsKept l _ (
    dispatch-Holds answers.session command l.transfer_probe_pending (l.remote_files, l.worker)
      holds)
on_command-IsKept (some (set_performance_monitoring enabled)) answers l holds = holds

on_transfer_probe-IsKept :
    (sftp scp : Result Bool SshError)
    → (l : Loop) → Holds only_established l.worker
    → IsKept (on_transfer_probe sftp scp l)
unfolding on_transfer_probe
on_transfer_probe-IsKept sftp scp l holds =
    resume-IsKept (probed sftp scp l) _ (sent-IsSettled _ l.worker holds)

on_shell_probe-worker :
    (now : ℕ)
    → (found : Result (Option ShellKind) SshError) → (l : Loop)
    → (on_shell_probe now found l).worker ≡ l.worker
unfolding on_shell_probe
on_shell_probe-worker now (ok (some kind)) l = refl
on_shell_probe-worker now (ok none) l = refl
on_shell_probe-worker now (err error) l = refl

install-IsKept :
    (found : Option ShellKind)
    → (writer : Result (Unit {0}) SshError) → (l : Loop) → Holds only_established l.worker
    → IsKept (install found writer l)
unfolding IsKept
install-IsKept none writer l holds = holds
install-IsKept (some kind) writer l holds =
    resume-IsKept (record l { detected_shell = none; hooks = kind ∷ l.hooks }) _
      (written-IsSettled writer l.worker holds)

note_output-worker :
    (now : ℕ) → (e : ShellEvent) → (l : Loop) → (note_output now e l).worker ≡ l.worker
unfolding note_output
note_output-worker now e l = if_either (λ (k : Loop). k.worker ≡ l.worker) (is_output e) refl refl

finish_if-IsKept : (b : Bool) → (t : Turn) → IsKept t → IsKept (finish_if b t)
unfolding IsKept
finish_if-IsKept true (looping l) kept = finish-IsKept l kept
finish_if-IsKept true (stopped w) kept = kept
finish_if-IsKept false t kept = kept

on_shell_event-IsKept :
    (now : ℕ)
    → (e : ShellEvent) → (l : Loop) → Holds only_established l.worker
    → IsKept (on_shell_event now e l)
unfolding on_shell_event
on_shell_event-IsKept now e l holds = finish_if-IsKept (is_closed e) _ (
    resume-IsKept (note_output now e l) _ (
      sent-IsSettled (shell e) (note_output now e l).worker
        (subst (Holds only_established) (sym (note_output-worker now e l)) holds)))

turn-IsKept :
    (branch : Branch) → (l : Loop) → Holds only_established l.worker → IsKept (turn branch l)
unfolding turn on_quiet_period IsKept
turn-IsKept (take_pending answers) l holds =
    if_either IsKept (is_some l.pending_command)
      (on_command-IsKept l.pending_command answers (record l { pending_command = none }) holds)
      holds
turn-IsKept (receive command answers) l holds =
    if_either IsKept (is_none l.pending_command) (on_command-IsKept command answers l holds) holds
turn-IsKept (transfer_probed sftp scp) l holds =
    if_either IsKept (is_none l.pending_command && l.transfer_probe_pending)
      (on_transfer_probe-IsKept sftp scp l holds) holds
turn-IsKept (shell_probed now found) l holds =
    if_either IsKept (is_none l.pending_command && l.shell_probe_pending)
      (subst (Holds only_established) (sym (on_shell_probe-worker now found l)) holds) holds
turn-IsKept (quiet_period_over writer) l holds =
    if_either IsKept (is_none l.pending_command && is_some l.shell_integration_deadline)
      (install-IsKept l.detected_shell writer (record l { shell_integration_deadline = none })
        holds)
      holds
turn-IsKept (shell_event now e) l holds =
    if_either IsKept (is_none l.pending_command) (on_shell_event-IsKept now e l holds) holds

then_turn-IsKept :
    (t : Turn)
    → (next : Loop → Turn) → ((l : Loop) → Holds only_established l.worker → IsKept (next l))
    → IsKept t
    → IsKept (then_turn t next)
unfolding IsKept
then_turn-IsKept (stopped w) next continue kept = kept
then_turn-IsKept (looping l) next continue kept = continue l kept

run_loop-IsKept :
    (branches : List Branch)
    → (l : Loop) → Holds only_established l.worker
    → IsKept (run_loop branches l)
unfolding run_loop IsKept
run_loop-IsKept [] l holds = holds
run_loop-IsKept (branch ∷ branches) l holds =
    then_turn-IsKept (turn branch l) (run_loop branches) (run_loop-IsKept branches)
      (turn-IsKept branch l holds)

loop_from-IsKept :
    (branches : List Branch)
    → (p : Progress) → IsSettled only_established p
    → IsKept (loop_from branches p)
unfolding IsSettled IsKept
loop_from-IsKept branches (ended w) settled = settled
loop_from-IsKept branches (going w) settled = run_loop-IsKept branches (start_loop w) settled

-- A connection that has stopped, in its setup or later, has closed every transport that it opened,
-- whatever the network, the user and the server answered.
pub run_connection-IsClosed :
    (plan : ConnectionPlan)
    → (network : ℕ → StepScript) → (script : ShellScript) → (branches : List Branch)
    → (size : PtySize) → (room i : ℕ) → (v : Worker)
    → run_connection plan network script branches (new_worker size room) ≡ stopped v
    → is_open i v.actions ≡ false
unfolding IsKept Holds IsWithin is_open run_connection
run_connection-IsClosed plan network script branches size room i v h =
    let settled =
      run_connection_plan-IsSettled plan network script (new_worker size room) (λ j on. on) in
    let kept =
      loop_from-IsKept branches (run_connection_plan plan network script (new_worker size room))
        settled in
    let closed_all = subst IsKept h kept i in
    elim (Bool-cases (is_open i v.actions)) [ inl on ↦ ground arith | inr off ↦ off ]
