-- ===== src/Ssh/Connection/Setup/Kept.antt =====
-- What `run_connection_plan` of connection.rs leaves open when the shell is connected, or before.
use rem_cmd.Prelude.{
  if_either, ℕ, Bool, true, false, ◌&&◌, ◌≡◌, refl, List, [], ◌∷◌, Result, ok, err, length,
  if◌then◌else◌, arith, is_some,
}
use rem_cmd.Core.Pty.{PtySize}
use rem_cmd.Ssh.Error.{SshError, ConnectionStage, proxy_stage}
use rem_cmd.Ssh.Session.{Outcome, begin_connect, mark_connected, connecting, connected}
use rem_cmd.Ssh.Plan.{ConnectionStep, ConnectionPlan, validate}
use rem_cmd.Ssh.Connection.{
  ConnectionEvent, state_changed, stage_changed, resized, PendingResult, completed, hung_up,
  wait_for_operation,
}
use rem_cmd.Ssh.Connection.Worker.{Worker, going, send_or, disconnect_established, close_shell}
use rem_cmd.Ssh.Connection.Setup.{
  StepScript, ShellScript, connect_step, connect_steps, plan_steps, size_eq, resize_shell, mark,
  finish_shell, open_shell, plan_checked, run_connection_plan, shell_opened,
}
use rem_cmd.Ssh.Connection.Setup.Closed.{
  nothing, only_established, with_current, Holds, nothing-Holds, IsSettled, then-IsSettled,
  send_or-IsSettled, finish_disconnection-Holds, disconnect_established-Closes, close_shell-Closes,
  kept-Closes, fail_after-IsSettled, fail_before-IsSettled,
}
use rem_cmd.Ssh.Connection.Setup.Steps.{
  closing-IsSettled, open_transport-IsSettled, checked-IsSettled, start_authentication-IsSettled,
  authenticate-IsSettled,
}

-- Nothing is open before the first step.
connect_step-IsSettled :
    (first with_proxy : Bool)
    → (step : ConnectionStep) → (stage : ConnectionStage) → (script : StepScript) → (w : Worker)
    → (first ≡ true → Holds nothing w)
    → Holds only_established w
    → IsSettled only_established (connect_step first with_proxy (step, stage) script w)
unfolding connect_step IsSettled
connect_step-IsSettled first with_proxy step stage script w none_open holds =
    then-IsSettled with_current only_established _ _
      (then-IsSettled with_current with_current _ _
        (then-IsSettled only_established with_current _ _
          (then-IsSettled only_established only_established _ _
            (announced first with_proxy none_open)
            (λ v.
              closing-IsSettled only_established disconnect_established (stage_changed stage) v
                disconnect_established-Closes))
          (open_transport-IsSettled stage script.opening))
        (λ v kept.
          if_either (IsSettled with_current) first (start_authentication-IsSettled v kept) kept))
      (authenticate-IsSettled step stage script.authentication)
  where
    announced :
        (f p : Bool)
        → (f ≡ true → Holds nothing w)
        → IsSettled only_established
            (if f && p then send_or (λ v. v) (stage_changed proxy_stage) w else going w)
    announced true true n =
        send_or-IsSettled only_established (λ v. v) (stage_changed proxy_stage) w (n refl) holds
    announced true false n = holds
    announced false p n = holds

connect_steps-IsSettled :
    (first with_proxy : Bool)
    → (network : ℕ → StepScript) → (steps : List (ConnectionStep × ConnectionStage)) → (w : Worker)
    → (first ≡ true → Holds nothing w)
    → Holds only_established w
    → IsSettled only_established (connect_steps first with_proxy network steps w)
unfolding connect_steps IsSettled
connect_steps-IsSettled first with_proxy network [] w none_open holds = holds
connect_steps-IsSettled first with_proxy network ((step, stage) ∷ steps) w none_open holds =
    then-IsSettled only_established only_established _ _
      (connect_step-IsSettled first with_proxy step stage (network (length w.established)) w
        none_open holds)
      (λ v. connect_steps-IsSettled false with_proxy network steps v (λ h. ground arith))

resize_shell-IsSettled :
    (size : PtySize)
    → (resizing : Result (Unit {0}) SshError) → (w : Worker) → Holds only_established w
    → IsSettled only_established (resize_shell size resizing w)
unfolding IsSettled
resize_shell-IsSettled size (ok _) w holds = holds
resize_shell-IsSettled size (err error) w holds =
    if_either (IsSettled only_established) (size_eq w.latest_size size) holds (
      fail_before-IsSettled only_established only_established close_shell error w close_shell-Closes
        holds)

mark-IsSettled :
    (o : Outcome) → (w : Worker) → Holds only_established w → IsSettled only_established (mark o w)
unfolding IsSettled Holds
mark-IsSettled (s, ok _) w holds = holds
mark-IsSettled (s, err error) w holds =
    fail_before-IsSettled only_established only_established close_shell error
      (record w { session = s }) close_shell-Closes holds

finish_shell-IsSettled :
    (size : PtySize)
    → (resizing : Result (Unit {0}) SshError) → (w : Worker) → Holds only_established w
    → IsSettled only_established (finish_shell size resizing w)
unfolding finish_shell
finish_shell-IsSettled size resizing w holds =
    then-IsSettled only_established only_established _ _
      (then-IsSettled only_established only_established _ _
        (then-IsSettled only_established only_established _ _
          (resize_shell-IsSettled size resizing w holds) (λ v. closing v (resized v.latest_size)))
        (λ v. mark-IsSettled (mark_connected v.session) v))
      (λ v. closing v (state_changed connected))
  where
    closing :
        (v : Worker)
        → (e : ConnectionEvent) → Holds only_established v
        → IsSettled only_established (send_or close_shell e v)
    closing v e = closing-IsSettled only_established close_shell e v close_shell-Closes

shell_opened-IsSettled :
    (resizing : Result (Unit {0}) SshError)
    → (w : Worker) → (r : PendingResult (Unit {0}) × PtySize) → Holds only_established w
    → IsSettled only_established (shell_opened resizing w r)
unfolding shell_opened IsSettled Holds
shell_opened-IsSettled resizing w (completed (ok _), size) holds =
    finish_shell-IsSettled w.latest_size resizing (record w { latest_size = size }) holds
shell_opened-IsSettled resizing w (completed (err error), size) holds =
    fail_before-IsSettled only_established only_established disconnect_established error
      (record w { latest_size = size }) disconnect_established-Closes holds
shell_opened-IsSettled resizing w (hung_up, size) holds =
    finish_disconnection-Holds only_established disconnect_established
      (record w { latest_size = size }) disconnect_established-Closes holds

open_shell-IsSettled :
    (script : ShellScript)
    → (w : Worker) → Holds only_established w
    → IsSettled only_established (open_shell script w)
unfolding open_shell
open_shell-IsSettled script w holds =
    shell_opened-IsSettled script.resizing w (wait_for_operation script.opening w.latest_size) holds

plan_checked-IsSettled :
    (r : Result (Unit {0}) SshError)
    → (w : Worker) → Holds nothing w
    → IsSettled nothing (plan_checked r w)
unfolding IsSettled
plan_checked-IsSettled (ok _) w holds = holds
plan_checked-IsSettled (err error) w holds =
    fail_after-IsSettled nothing nothing (λ v. v) error w kept-Closes holds

pub run_connection_plan-IsSettled :
    (plan : ConnectionPlan)
    → (network : ℕ → StepScript) → (shell : ShellScript) → (w : Worker) → Holds nothing w
    → IsSettled only_established (run_connection_plan plan network shell w)
unfolding run_connection_plan
run_connection_plan-IsSettled plan network shell w holds =
    then-IsSettled only_established only_established _ _
      (then-IsSettled nothing only_established _ _
        (then-IsSettled nothing nothing _ _
          (checked-IsSettled nothing nothing (λ v. v) (begin_connect w.session) _ w kept-Closes
            (λ v. closing-IsSettled nothing (λ u. u) (state_changed connecting) v kept-Closes)
            holds)
          (plan_checked-IsSettled (validate plan)))
        (λ v kept.
          connect_steps-IsSettled true (is_some plan.proxy) network (plan_steps plan) v (λ _. kept)
            (nothing-Holds only_established v kept)))
      (open_shell-IsSettled shell)
