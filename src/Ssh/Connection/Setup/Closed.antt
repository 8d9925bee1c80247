-- ===== src/Ssh/Connection/Setup/Closed.antt =====
-- Which transports are open in the setup of connection.rs, and what its parts leave open.
use rem_cmd.Prelude.{
  if_either, ℕ, Bool, true, false, ◌≡◌, List, [], ◌∷◌, ok, err, any, length, if◌then◌else◌, ◌==◌,
  arith,
}
use rem_cmd.Core.Pty.{PtySize}
use rem_cmd.Ssh.Error.{SshError}
use rem_cmd.Ssh.Session.{
  Outcome, begin_disconnect, mark_disconnected, mark_failed, disconnecting, disconnected,
}
use rem_cmd.Ssh.Connection.{
  ConnectionEvent, state_changed, failed, PendingResult, completed, hung_up,
}
use rem_cmd.Ssh.Connection.Worker.{
  Action, sent, opened, closed, trusting, shell_closed, Worker, Progress, ended, going, ◌>>>◌, act,
  send, send_or, disconnect_all, disconnect_established, disconnect_current, close_shell,
  report_failure, keep_session, finish_disconnection, fail_after, hang_up_after,
}
use rem_cmd.Ssh.Connection.Setup.{settle, fail_before}

-- Whether a transport is open after some actions, the newest first.
unfoldable pub is_open : ℕ → List Action → Bool
is_open i [] = false
is_open i (sent e ∷ actions) = is_open i actions
is_open i (trusting info ∷ actions) = is_open i actions
is_open i (shell_closed ∷ actions) = is_open i actions
is_open i (opened n ∷ actions) = let before = is_open i actions in if n == i then true else before
is_open i (closed n ∷ actions) = let before = is_open i actions in if n == i then false else before

-- All that is open is among some transports.
unfoldable pub IsWithin : List ℕ → List Action → Type 0
unfolding is_open
IsWithin held actions = (i : ℕ) → is_open i actions ≡ true → any (λ n. n == i) held ≡ true

pub closed-IsWithin :
    (n : ℕ)
    → (held : List ℕ) → (actions : List Action) → IsWithin (n ∷ held) actions
    → IsWithin held (closed n ∷ actions)
unfolding IsWithin is_open
closed-IsWithin n held actions within i is_on = let h = within i in ground arith

pub opened-IsWithin :
    (n : ℕ)
    → (held : List ℕ) → (actions : List Action) → IsWithin held actions
    → IsWithin (n ∷ held) (opened n ∷ actions)
unfolding IsWithin is_open
opened-IsWithin n held actions within i is_on = let h = within i in ground arith

-- What the worker holds: nothing, the established transports, and also the one of the step.
pub data Holding : Type 0 where
  nothing only_established with_current : Holding

abbrev pub held : Holding → List ℕ → List ℕ
held nothing ns = []
held only_established ns = ns
held with_current ns = length ns ∷ ns

unfoldable pub Holds : Holding → Worker → Type 0
unfolding IsWithin
Holds h w = IsWithin (held h w.established) w.actions

pub nothing-Holds : (h : Holding) → (w : Worker) → Holds nothing w → Holds h w
unfolding Holds IsWithin
nothing-Holds h w holds i is_on = let on = holds i is_on in ground arith

-- The end leaves nothing open, and going on leaves open what is held.
unfoldable pub IsSettled : Holding → Progress → Type 0
IsSettled h (ended w) = Holds nothing w
IsSettled h (going w) = Holds h w

-- A cleanup that closes what is held.
unfoldable pub Closes : Holding → (Worker → Worker) → Type 0
Closes h close = (w : Worker) → Holds h w → Holds nothing (close w)

pub then-IsSettled :
    (h h' : Holding)
    → (p : Progress) → (next : Worker → Progress) → IsSettled h p
    → ((w : Worker) → Holds h w → IsSettled h' (next w))
    → IsSettled h' (p >>> next)
unfolding IsSettled
then-IsSettled h h' (ended w) next settled continue = settled
then-IsSettled h h' (going w) next settled continue = continue w settled

pub send-Holds :
    (h : Holding) → (e : ConnectionEvent) → (w : Worker) → Holds h w → Holds h (send e w)
unfolding Holds send is_open IsWithin
send-Holds h e w holds = if_either (Holds h) (w.room == 0) holds holds

pub send_or-IsSettled :
    (h : Holding)
    → (close : Worker → Worker) → (e : ConnectionEvent) → (w : Worker) → Holds nothing (close w)
    → Holds h w
    → IsSettled h (send_or close e w)
unfolding Holds send_or is_open IsWithin IsSettled
send_or-IsSettled h close e w clean holds = if_either (IsSettled h) (w.room == 0) clean holds

pub keep_session-Holds :
    (h : Holding)
    → (o : Outcome) → (e : ConnectionEvent) → (w : Worker) → Holds h w
    → Holds h (keep_session o e w)
unfolding Holds
keep_session-Holds h (s, ok _) e w holds = send-Holds h e (record w { session = s }) holds
keep_session-Holds h (s, err error) e w holds = holds

pub report_failure-Holds :
    (h : Holding) → (error : SshError) → (w : Worker) → Holds h w → Holds h (report_failure error w)
unfolding report_failure Holds
report_failure-Holds h error w holds =
    send-Holds h (failed error) (record w { session = (mark_failed w.session).0 }) holds

pub finish_disconnection-Holds :
    (h : Holding)
    → (close : Worker → Worker) → (w : Worker) → Closes h close
    → Holds h w
    → Holds nothing (finish_disconnection close w)
unfolding finish_disconnection Closes
finish_disconnection-Holds h close w closes holds =
    let w₁ = keep_session (begin_disconnect w.session) (state_changed disconnecting) w in
    keep_session-Holds nothing (mark_disconnected (close w₁).session) (state_changed disconnected)
      (close w₁)
      (closes w₁
        (keep_session-Holds h (begin_disconnect w.session) (state_changed disconnecting) w holds))

-- What the cleanups close.
pub disconnect_all-Holds :
    (ns : List ℕ) → (w : Worker) → IsWithin ns w.actions → Holds nothing (disconnect_all ns w)
unfolding disconnect_all Holds
disconnect_all-Holds [] w within = within
disconnect_all-Holds (n ∷ ns) w within =
    disconnect_all-Holds ns (act (closed n) w) (closed-IsWithin n ns w.actions within)

pub disconnect_established-Closes : Closes only_established disconnect_established
unfolding Closes disconnect_established Holds
disconnect_established-Closes w holds = disconnect_all-Holds w.established w holds

pub disconnect_current-Closes : Closes with_current disconnect_current
unfolding Closes disconnect_current Holds
disconnect_current-Closes w holds =
    let n = length w.established in
    disconnect_established-Closes (act (closed n) w)
      (closed-IsWithin n w.established w.actions holds)

pub close_shell-Closes : Closes only_established close_shell
unfolding Closes close_shell Holds IsWithin is_open
close_shell-Closes w holds = disconnect_established-Closes (act shell_closed w) holds

pub kept-Closes : Closes nothing (λ w. w)
unfolding Closes
kept-Closes w holds = holds

pub fail_after-IsSettled :
    (h h' : Holding)
    → (close : Worker → Worker) → (error : SshError) → (w : Worker) → Closes h close
    → Holds h w
    → IsSettled h' (fail_after close error w)
unfolding fail_after IsSettled Closes
fail_after-IsSettled h h' close error w closes holds =
    report_failure-Holds nothing error (close w) (closes w holds)

pub fail_before-IsSettled :
    (h h' : Holding)
    → (close : Worker → Worker) → (error : SshError) → (w : Worker) → Closes h close
    → Holds h w
    → IsSettled h' (fail_before close error w)
unfolding fail_before IsSettled Closes
fail_before-IsSettled h h' close error w closes holds =
    closes (report_failure error w) (report_failure-Holds h error w holds)

pub settle-IsSettled :
    {A : Type 0}
    → (h h' : Holding) → (close : Worker → Worker) → (label : SshError → SshError)
    → (next : A → Worker → Progress) → (r : PendingResult A × PtySize) → (w : Worker)
    → Closes h close
    → ((a : A) → (v : Worker) → Holds h v → IsSettled h' (next a v))
    → Holds h w
    → IsSettled h' (settle close label next r w)
unfolding settle hang_up_after IsSettled Holds Closes
settle-IsSettled h h' close label next (completed (ok a), size) w closes continue holds =
    continue a (record w { latest_size = size }) holds
settle-IsSettled h h' close label next (completed (err error), size) w closes continue holds =
    fail_after-IsSettled h h' close (label error) (record w { latest_size = size }) closes holds
settle-IsSettled h h' close label next (hung_up, size) w closes continue holds =
    finish_disconnection-Holds nothing (λ v. v) (close (record w { latest_size = size }))
      kept-Closes (closes (record w { latest_size = size }) holds)
