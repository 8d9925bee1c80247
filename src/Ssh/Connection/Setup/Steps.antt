-- ===== src/Ssh/Connection/Setup/Steps.antt =====
-- What the parts of a step of connection.rs leave open: its transport and its authentication.
use rem_cmd.Prelude.{ok, err, length}
use rem_cmd.Core.Pty.{PtySize}
use rem_cmd.Ssh.Error.{ConnectionStage, at_stage}
use rem_cmd.Ssh.Session.{Outcome, begin_authentication, authenticating}
use rem_cmd.Ssh.Plan.{ConnectionStep}
use rem_cmd.Ssh.Connection.{
  HostKeyInfo, HostKeyDecision, trust, reject, rejected_error, kind, ConnectionEvent, state_changed,
  authentication_succeeded, host_key_verification_required, PendingResult, Wait, wait_for_operation,
}
use rem_cmd.Ssh.Connection.Worker.{
  opened, trusting, Worker, Progress, going, act, send_or, disconnect_established,
  disconnect_current,
}
use rem_cmd.Ssh.Connection.Setup.{
  Opening, attempt, unknown_host_key, settle, staged, on_decision, open_transport, checked,
  start_authentication, authenticate, establish,
}
use rem_cmd.Ssh.Connection.Setup.Closed.{
  is_open, Holding, IsWithin, opened-IsWithin, only_established, with_current, Holds, IsSettled,
  Closes, then-IsSettled, send_or-IsSettled, disconnect_established-Closes,
  disconnect_current-Closes, fail_after-IsSettled, settle-IsSettled,
}

pub closing-IsSettled :
    (h : Holding)
    → (close : Worker → Worker) → (e : ConnectionEvent) → (w : Worker) → Closes h close
    → Holds h w
    → IsSettled h (send_or close e w)
unfolding Closes
closing-IsSettled h close e w closes holds = send_or-IsSettled h close e w (closes w holds) holds

pub opened-IsSettled :
    (w : Worker)
    → Holds only_established w
    → IsSettled with_current (going (act (opened (length w.established)) w))
unfolding IsSettled Holds
opened-IsSettled w holds = opened-IsWithin (length w.established) w.established w.actions holds

pub on_decision-IsSettled :
    (info : HostKeyInfo)
    → (stage : ConnectionStage) → (next : Worker → Progress)
    → ((w : Worker) → Holds only_established w → IsSettled with_current (next w))
    → (decision : HostKeyDecision) → (w : Worker) → Holds only_established w
    → IsSettled with_current (on_decision info stage next decision w)
unfolding on_decision Holds IsWithin is_open
on_decision-IsSettled info stage next continue trust w holds =
    continue (act (trusting info) w) holds
on_decision-IsSettled info stage next continue reject w holds =
    fail_after-IsSettled only_established with_current disconnect_established
      (at_stage (rejected_error info) stage) w disconnect_established-Closes holds

-- `settle` while the established transports are open.
pub waiting-IsSettled :
    {A : Type 0}
    → (stage : ConnectionStage) → (next : A → Worker → Progress) → (r : PendingResult A × PtySize)
    → (w : Worker)
    → ((a : A) → (v : Worker) → Holds only_established v → IsSettled with_current (next a v))
    → Holds only_established w
    → IsSettled with_current (settle disconnect_established (staged stage) next r w)
waiting-IsSettled stage next r w continue =
    settle-IsSettled only_established with_current disconnect_established (staged stage) next r w
      disconnect_established-Closes continue

pub open_transport-IsSettled :
    (stage : ConnectionStage)
    → (opening : Opening) → (w : Worker) → Holds only_established w
    → IsSettled with_current (open_transport stage opening w)
unfolding open_transport
open_transport-IsSettled stage (attempt wait) w =
    waiting-IsSettled stage _ (wait_for_operation wait w.latest_size) w (λ _. opened-IsSettled)
open_transport-IsSettled stage (unknown_host_key commands info decision storing retry) w =
    waiting-IsSettled stage _ _ w (λ _ v holds.
      then-IsSettled only_established with_current _ _
        (closing-IsSettled only_established disconnect_established
          (host_key_verification_required stage info) v disconnect_established-Closes holds)
        (λ u. waiting-IsSettled stage _ (wait_for_operation decision u.latest_size) u (
          on_decision-IsSettled info stage _ (λ t.
            waiting-IsSettled stage _ (wait_for_operation storing t.latest_size) t
              (λ _. open_transport-IsSettled stage retry)))))

pub checked-IsSettled :
    (h h' : Holding)
    → (close : Worker → Worker) → (o : Outcome) → (next : Worker → Progress) → (w : Worker)
    → Closes h close
    → ((v : Worker) → Holds h v → IsSettled h' (next v))
    → Holds h w
    → IsSettled h' (checked close o next w)
unfolding Holds
checked-IsSettled h h' close (s, ok _) next w closes continue holds =
    continue (record w { session = s }) holds
checked-IsSettled h h' close (s, err error) next w closes continue holds =
    fail_after-IsSettled h h' close error (record w { session = s }) closes holds

pub start_authentication-IsSettled :
    (w : Worker) → Holds with_current w → IsSettled with_current (start_authentication w)
unfolding start_authentication
start_authentication-IsSettled w =
    checked-IsSettled with_current with_current disconnect_current (begin_authentication w.session)
      _ w disconnect_current-Closes
      (λ v.
        closing-IsSettled with_current disconnect_current (state_changed authenticating) v
          disconnect_current-Closes)

pub authenticate-IsSettled :
    (step : ConnectionStep)
    → (stage : ConnectionStage) → (wait : Wait (Unit {0})) → (w : Worker) → Holds with_current w
    → IsSettled only_established (authenticate step stage wait w)
unfolding authenticate IsSettled Holds
authenticate-IsSettled step stage wait w =
    settle-IsSettled with_current only_established disconnect_current (staged stage) _
      (wait_for_operation wait w.latest_size) w disconnect_current-Closes
      (λ _ v holds.
        then-IsSettled with_current only_established _ (λ u. going (establish u))
          (closing-IsSettled with_current disconnect_current
            (authentication_succeeded stage (kind step.auth)) v disconnect_current-Closes holds)
          (λ u kept. kept))
