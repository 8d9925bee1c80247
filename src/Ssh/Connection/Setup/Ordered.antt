-- ===== src/Ssh/Connection/Setup/Ordered.antt =====
-- The authentications that the setup of connection.rs reports, in their order.
use rem_cmd.Prelude.{
  arith, length-append, Option, some, none, Result, refl, if_either, ◌≡◌, ap, ◌∙◌, List, [], ◌∷◌,
  ◌++◌, ok, err, length, ◌==◌,
}
use rem_cmd.Core.Pty.{PtySize}
use rem_cmd.Ssh.Error.{SshError, ConnectionStage}
use rem_cmd.Ssh.Session.{Outcome}
use rem_cmd.Ssh.Plan.{ConnectionStep}
use rem_cmd.Ssh.Connection.{
  HostKeyInfo, HostKeyDecision, trust, reject, AuthMethodKind, kind, ConnectionEvent,
  authentication_succeeded, host_key_verification_required, PendingResult, completed, hung_up, Wait,
  wait_for_operation, wait_loop, ConnectionCommand, input, resize, files,
  set_performance_monitoring, disconnect,
}
use rem_cmd.Ssh.Connection.Worker.{
  Action, sent, opened, closed, trusting, shell_closed, Worker, Progress, ended, going, ◌>>>◌, act,
  accept, send_or, disconnect_established, disconnect_current, fail_after, hang_up_after,
}
use rem_cmd.Ssh.Connection.Setup.{
  Opening, attempt, unknown_host_key, settle, staged, on_decision, open_transport, checked,
  authenticate, establish,
}

abbrev pub Success : Type 0
Success = ConnectionStage × AuthMethodKind

-- The authentications that are reported, in their order.
unfoldable pub successes : List Action → List Success
successes [] = []
successes (sent (authentication_succeeded stage method) ∷ actions) =
    successes actions ++ (stage, method) ∷ []
successes (sent e ∷ actions) = successes actions
successes (opened n ∷ actions) = successes actions
successes (closed n ∷ actions) = successes actions
successes (trusting info ∷ actions) = successes actions
successes (shell_closed ∷ actions) = successes actions

-- So many have been reported, and so many transports are established.
unfoldable pub Counts : List Success → Worker → Type 0
unfolding successes
Counts l w = successes w.actions ≡ l × length w.established ≡ length l

-- If the worker goes on, it has reported some authentications.
unfoldable pub Leads : List Success → Progress → Type 0
Leads l (ended w) = Unit {0}
Leads l (going w) = Counts l w

pub then-Leads :
    (l m : List Success)
    → (p : Progress) → (next : Worker → Progress) → Leads l p
    → ((w : Worker) → Counts l w → Leads m (next w))
    → Leads m (p >>> next)
unfolding Leads
then-Leads l m (ended w) next leads continue = tt
then-Leads l m (going w) next leads continue = continue w leads

pub send_or-Leads :
    (l : List Success)
    → (close : Worker → Worker) → (e : ConnectionEvent) → (w : Worker)
    → successes (sent e ∷ w.actions) ≡ successes w.actions
    → Counts l w
    → Leads l (send_or close e w)
unfolding Leads send_or Counts
send_or-Leads l close e w quiet counts =
    if_either (Leads l) (w.room == 0) tt (quiet ∙ counts.0, counts.1)

pub settle-Leads :
    {A : Type 0}
    → (l m : List Success) → (close : Worker → Worker) → (label : SshError → SshError)
    → (next : A → Worker → Progress) → (r : PendingResult A × PtySize) → (w : Worker)
    → ((a : A) → (v : Worker) → Counts l v → Leads m (next a v))
    → Counts l w
    → Leads m (settle close label next r w)
unfolding settle fail_after hang_up_after Leads Counts
settle-Leads l m close label next (completed (ok a), size) w continue counts =
    continue a (record w { latest_size = size }) counts
settle-Leads l m close label next (completed (err error), size) w continue counts = tt
settle-Leads l m close label next (hung_up, size) w continue counts = tt

pub checked-Leads :
    (l : List Success)
    → (close : Worker → Worker) → (o : Outcome) → (e : ConnectionEvent) → (w : Worker)
    → ((actions : List Action) → successes (sent e ∷ actions) ≡ successes actions)
    → Counts l w
    → Leads l (checked close o (send_or close e) w)
unfolding fail_after Leads Counts
checked-Leads l close (s, ok _) e w quiet counts =
    send_or-Leads l close e (record w { session = s }) (quiet w.actions) counts
checked-Leads l close (s, err error) e w quiet counts = tt

pub on_decision-Leads :
    (l : List Success)
    → (info : HostKeyInfo) → (stage : ConnectionStage) → (next : Worker → Progress)
    → ((w : Worker) → Counts l w → Leads l (next w))
    → (decision : HostKeyDecision) → (w : Worker) → Counts l w
    → Leads l (on_decision info stage next decision w)
unfolding on_decision fail_after Leads Counts successes
on_decision-Leads l info stage next continue trust w counts =
    continue (act (trusting info) w) counts
on_decision-Leads l info stage next continue reject w counts = tt

pub open_transport-Leads :
    (l : List Success)
    → (stage : ConnectionStage) → (opening : Opening) → (w : Worker) → Counts l w
    → Leads l (open_transport stage opening w)
unfolding open_transport Leads Counts successes
open_transport-Leads l stage (attempt wait) w =
    settle-Leads l l disconnect_established (staged stage)
      (λ _ v. going (act (opened (length v.established)) v)) (wait_for_operation wait w.latest_size)
      w (λ _ v counts. counts)
open_transport-Leads l stage (unknown_host_key commands info decision storing retry) w =
    settle-Leads l l disconnect_established (staged stage) _ _ w (λ _ v counts.
      then-Leads l l _ _
        (send_or-Leads l disconnect_established (host_key_verification_required stage info) v refl
          counts)
        (λ u.
          settle-Leads l l disconnect_established (staged stage) _
            (wait_for_operation decision u.latest_size) u
            (on_decision-Leads l info stage _ (λ t.
              settle-Leads l l disconnect_established (staged stage) _
                (wait_for_operation storing t.latest_size) t
                (λ _. open_transport-Leads l stage retry)))))

-- What follows an authentication that is accepted.
abbrev report_success : ConnectionStep → ConnectionStage → Unit {0} → Worker → Progress
report_success step stage _ v =
    send_or disconnect_current (authentication_succeeded stage (kind step.auth)) v
    >>> (λ u. going (establish u))

report_success-Leads :
    (l : List Success)
    → (step : ConnectionStep) → (stage : ConnectionStage) → (v : Worker) → Counts l v
    → Leads (l ++ (stage, kind step.auth) ∷ []) (report_success step stage tt v)
unfolding Leads Counts successes send_or
report_success-Leads l step stage v counts =
    let e = authentication_succeeded stage (kind step.auth) in
    let added : Counts (l ++ (stage, kind step.auth) ∷ []) (establish (accept e v)) = (
      ap (λ k. k ++ (stage, kind step.auth) ∷ []) counts.0,
      omega (arith, counts.1, length-append l ((stage, kind step.auth) ∷ [])),
    ) in
    if_either (λ p. Leads (l ++ (stage, kind step.auth) ∷ []) (p >>> (λ u. going (establish u))))
      (v.room == 0) {x = ended (disconnect_current v)} {y = going (accept e v)} tt added

pub authenticate-Leads :
    (l : List Success)
    → (step : ConnectionStep) → (stage : ConnectionStage) → (wait : Wait (Unit {0})) → (w : Worker)
    → Counts l w
    → Leads (l ++ (stage, kind step.auth) ∷ []) (authenticate step stage wait w)
unfolding authenticate
authenticate-Leads l step stage wait w =
    settle-Leads l (l ++ (stage, kind step.auth) ∷ []) disconnect_current (staged stage)
      (report_success step stage) (wait_for_operation wait w.latest_size) w
      (λ _ v. report_success-Leads l step stage v)

-- If the worker goes on, the server has accepted what was waited for.
unfoldable pub Grants : Result (Unit {0}) SshError → Progress → Type 0
Grants result (ended w) = Unit {0}
Grants result (going w) = result ≡ ok tt

pub then-Grants :
    (result : Result (Unit {0}) SshError)
    → (p : Progress) → (next : Worker → Progress) → ((w : Worker) → Grants result (next w))
    → Grants result (p >>> next)
unfolding Grants
then-Grants result (ended w) next grants = tt
then-Grants result (going w) next grants = grants w

accepted-Grants : (p : Progress) → Grants (ok tt) p
unfolding Grants
accepted-Grants (ended w) = tt
accepted-Grants (going w) = refl

wait_loop-Grants :
    (stage : ConnectionStage)
    → (next : Unit {0} → Worker → Progress) → (commands : List (Option ConnectionCommand))
    → (result : Result (Unit {0}) SshError) → (size : PtySize) → (w : Worker)
    → Grants result
        (settle disconnect_current (staged stage) next (wait_loop commands result size) w)
unfolding settle fail_after hang_up_after Grants wait_loop
wait_loop-Grants stage next [] (ok tt) size w = accepted-Grants _
wait_loop-Grants stage next [] (err error) size w = tt
wait_loop-Grants stage next (some (resize latest) ∷ commands) result size w =
    wait_loop-Grants stage next commands result latest w
wait_loop-Grants stage next (some (input bytes) ∷ commands) result size w =
    wait_loop-Grants stage next commands result size w
wait_loop-Grants stage next (some (files command) ∷ commands) result size w =
    wait_loop-Grants stage next commands result size w
wait_loop-Grants stage next (some (set_performance_monitoring enabled) ∷ commands) result size w =
    wait_loop-Grants stage next commands result size w
wait_loop-Grants stage next (some disconnect ∷ commands) result size w = tt
wait_loop-Grants stage next (none ∷ commands) result size w = tt

pub authenticate-Grants :
    (step : ConnectionStep)
    → (stage : ConnectionStage) → (wait : Wait (Unit {0})) → (w : Worker)
    → Grants wait.result (authenticate step stage wait w)
unfolding authenticate wait_for_operation
authenticate-Grants step stage wait w =
    wait_loop-Grants stage (report_success step stage) wait.commands wait.result w.latest_size w
