-- ===== src/Ssh/Connection/Setup.antt =====
-- crates/remcmd-ssh/src/connection.rs, `run_connection_plan` up to the connected shell. The network
-- answers by a script for each step.
pub mod Closed
pub mod Ordered
pub mod Steps
pub mod Kept
pub mod Granted
pub mod Authenticated
use rem_cmd.Prelude.{
  ℕ, Bool, true, false, ◌&&◌, Option, none, some, List, [], ◌∷◌, ◌++◌, Result, ok, err,
  if◌then◌else◌, ◌==◌, ◌+◌, ◌-◌, suc, zero, length, is_some, not, ◌||◌,
}
use rem_cmd.Prelude.Text.{Text, codes}
use rem_cmd.Core.Pty.{PtySize}
use rem_cmd.Ssh.Error.{SshError, ConnectionStage, proxy_stage, jump_stage, target_stage, at_stage}
use rem_cmd.Ssh.Session.{
  SshSession, default_session, Outcome, connecting, authenticating, connected, disconnecting,
  disconnected, begin_connect, begin_authentication, mark_connected, begin_disconnect,
  mark_disconnected, mark_failed,
}
use rem_cmd.Ssh.Plan.{AuthMethod, ConnectionStep, ConnectionPlan, validate}
use rem_cmd.Ssh.Connection.{
  HostKeyInfo, HostKeyDecision, trust, reject, rejected_error, kind, ConnectionCommand,
  ConnectionEvent, state_changed, stage_changed, authentication_succeeded,
  host_key_verification_required, resized, failed, PendingResult, completed, hung_up, Wait,
  wait_for_operation,
}
use rem_cmd.Ssh.Connection.Worker.{
  Action, Progress, Worker, accept, act, close_shell, closed, disconnect_all, disconnect_current,
  disconnect_established, ended, fail_after, finish_disconnection, going, hang_up_after,
  keep_session, opened, report_failure, send, send_or, sent, shell_closed, trusting, ◌>>>◌,
}

-- `SshTransport::open_first` and `open_via`, tried again after each host key that is trusted: the
-- attempt that connects or fails, or an unknown key with the decision on it and the storing of it.
pub data Opening : Type 0 where
  attempt : Wait (Unit {0}) → Opening
  unknown_host_key :
      List (Option ConnectionCommand)
      → HostKeyInfo
      → Wait HostKeyDecision
      → Wait (Unit {0})
      → Opening
      → Opening

pub record StepScript : Type 0 where
  pub opening : Opening
  pub authentication : Wait (Unit {0})

-- The opening of the shell, and the answer to the resize that follows.
pub record ShellScript : Type 0 where
  pub opening : Wait (Unit {0})
  pub resizing : Result (Unit {0}) SshError

-- The three ends of what is waited for.
unfoldable pub settle :
    {A : Type 0}
    → (Worker → Worker)
    → (SshError → SshError)
    → (A → Worker → Progress)
    → PendingResult A × PtySize
    → Worker
    → Progress
unfolding fail_after hang_up_after
settle close label next (completed (ok a), size) w = next a (record w { latest_size = size })
settle close label next (completed (err error), size) w =
    fail_after close (label error) (record w { latest_size = size })
settle close label next (hung_up, size) w = hang_up_after close (record w { latest_size = size })

abbrev pub staged : ConnectionStage → SshError → SshError
staged stage error = at_stage error stage

unfoldable pub on_decision :
    HostKeyInfo → ConnectionStage → (Worker → Progress) → HostKeyDecision → Worker → Progress
unfolding fail_after disconnect_established
on_decision info stage next trust w = next (act (trusting info) w)
on_decision info stage next reject w =
    fail_after disconnect_established (at_stage (rejected_error info) stage) w

-- The `loop` around `open_first` and `open_via`.
unfoldable pub open_transport : ConnectionStage → Opening → Worker → Progress
unfolding settle send_or disconnect_established wait_for_operation on_decision
open_transport stage (attempt wait) w =
    settle disconnect_established (staged stage)
      (λ _ v. going (act (opened (length v.established)) v)) (wait_for_operation wait w.latest_size)
      w
open_transport stage (unknown_host_key commands info decision storing retry) w =
    settle disconnect_established (staged stage)
      (λ _ v. send_or disconnect_established (host_key_verification_required stage info) v >>> (λ u.
        settle disconnect_established (staged stage)
          (on_decision info stage (λ t.
            settle disconnect_established (staged stage) (λ _. open_transport stage retry)
              (wait_for_operation storing t.latest_size) t))
          (wait_for_operation decision u.latest_size) u))
      (wait_for_operation (record { commands = commands; result = ok tt }) w.latest_size) w

abbrev pub checked : (Worker → Worker) → Outcome → (Worker → Progress) → Worker → Progress
checked close (s, ok _) next w = next (record w { session = s })
checked close (s, err error) next w = fail_after close error (record w { session = s })

-- `if !authentication_started`: the first step only.
unfoldable pub start_authentication : Worker → Progress
unfolding begin_authentication disconnect_current send_or
start_authentication w =
    checked disconnect_current (begin_authentication w.session)
      (send_or disconnect_current (state_changed authenticating)) w

abbrev pub establish : Worker → Worker
establish w = record w { established = length w.established ∷ w.established }

unfoldable pub authenticate : ConnectionStep → ConnectionStage → Wait (Unit {0}) → Worker → Progress
unfolding settle disconnect_current send_or kind
authenticate step stage wait w =
    settle disconnect_current (staged stage)
      (λ _ v.
        send_or disconnect_current (authentication_succeeded stage (kind step.auth)) v
        >>> (λ u. going (establish u)))
      (wait_for_operation wait w.latest_size) w

-- The body of the loop over the steps; `first` is `step_index == 0`, which is also when the
-- authentication has not started.
unfoldable pub connect_step :
    Bool → Bool → ConnectionStep × ConnectionStage → StepScript → Worker → Progress
unfolding send_or open_transport start_authentication authenticate
connect_step first with_proxy (step, stage) script w =
    (if first && with_proxy then send_or (λ v. v) (stage_changed proxy_stage) w else going w)
    >>> send_or disconnect_established (stage_changed stage)
    >>> open_transport stage script.opening
    >>> (λ v. if first then start_authentication v else going v)
    >>> authenticate step stage script.authentication

unfoldable pub connect_steps :
    Bool → Bool → (ℕ → StepScript) → List (ConnectionStep × ConnectionStage) → Worker → Progress
unfolding connect_step
connect_steps first with_proxy network [] w = going w
connect_steps first with_proxy network (step ∷ steps) w =
    connect_step first with_proxy step (network (length w.established)) w
    >>> connect_steps false with_proxy network steps

-- The stages of the steps.
unfoldable pub jump_steps : ℕ → ℕ → List ConnectionStep → List (ConnectionStep × ConnectionStage)
jump_steps index total [] = []
jump_steps index total (step ∷ steps) =
    (step, jump_stage (index + 1) total step.profile.id) ∷ jump_steps (index + 1) total steps

unfoldable pub plan_steps : ConnectionPlan → List (ConnectionStep × ConnectionStage)
unfolding jump_steps
plan_steps plan =
    jump_steps 0 (length plan.jumps) plan.jumps
    ++ (plan.target, target_stage plan.target.profile.id) ∷ []

unfoldable pub size_eq : PtySize → PtySize → Bool
size_eq a b =
    a.columns == b.columns
    && (a.rows == b.rows && (a.pixel_width == b.pixel_width && a.pixel_height == b.pixel_height))

-- A failure that is reported before what is open is closed.
unfoldable pub fail_before : (Worker → Worker) → SshError → Worker → Progress
unfolding report_failure
fail_before close error w = ended (close (report_failure error w))

abbrev pub resize_shell : PtySize → Result (Unit {0}) SshError → Worker → Progress
resize_shell requested_size (ok _) w = going w
resize_shell requested_size (err error) w =
    if size_eq w.latest_size requested_size then going w else fail_before close_shell error w

abbrev pub mark : Outcome → Worker → Progress
mark (s, ok _) w = going (record w { session = s })
mark (s, err error) w = fail_before close_shell error (record w { session = s })

unfoldable pub finish_shell : PtySize → Result (Unit {0}) SshError → Worker → Progress
unfolding size_eq fail_before close_shell send_or mark_connected
finish_shell requested_size resizing w =
    resize_shell requested_size resizing w
    >>> (λ v. send_or close_shell (resized v.latest_size) v)
    >>> (λ v. mark (mark_connected v.session) v)
    >>> send_or close_shell (state_changed connected)

unfoldable pub shell_opened :
    Result (Unit {0}) SshError → Worker → PendingResult (Unit {0}) × PtySize → Progress
unfolding finish_shell fail_before disconnect_established finish_disconnection
shell_opened resizing w (completed (ok _), size) =
    finish_shell w.latest_size resizing (record w { latest_size = size })
shell_opened resizing w (completed (err error), size) =
    fail_before disconnect_established error (record w { latest_size = size })
shell_opened resizing w (hung_up, size) =
    ended (finish_disconnection disconnect_established (record w { latest_size = size }))

-- From `combine_chain` to the state `Connected`.
unfoldable pub open_shell : ShellScript → Worker → Progress
unfolding shell_opened wait_for_operation
open_shell script w =
    shell_opened script.resizing w (wait_for_operation script.opening w.latest_size)

abbrev pub plan_checked : Result (Unit {0}) SshError → Worker → Progress
plan_checked (ok _) w = going w
plan_checked (err error) w = fail_after (λ v. v) error w

abbrev pub new_worker : PtySize → ℕ → Worker
new_worker size room = record {
  session = default_session;
  latest_size = size;
  room = room;
  established = [];
  actions = [];
}

unfoldable pub run_connection_plan :
    ConnectionPlan → (ℕ → StepScript) → ShellScript → Worker → Progress
unfolding begin_connect send_or validate plan_steps connect_steps open_shell
run_connection_plan plan network shell w =
    checked (λ v. v) (begin_connect w.session) (send_or (λ v. v) (state_changed connecting)) w
    >>> plan_checked (validate plan)
    >>> connect_steps true (is_some plan.proxy) network (plan_steps plan)
    >>> open_shell shell
