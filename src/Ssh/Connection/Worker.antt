-- ===== src/Ssh/Connection/Worker.antt =====
-- crates/remcmd-ssh/src/connection.rs: the worker of a connection, its events and its cleanups, with
-- `disconnect_established` of transport.rs. Transports are numbered by their step, and what the worker
-- does outside is a list, the newest action first.
use rem_cmd.Prelude.{ℕ, List, [], ◌∷◌, ok, err, if◌then◌else◌, ◌==◌, ◌-◌, length}
use rem_cmd.Core.Pty.{PtySize}
use rem_cmd.Ssh.Error.{SshError}
use rem_cmd.Ssh.Session.{
  SshSession, Outcome, disconnecting, disconnected, begin_disconnect, mark_disconnected,
  mark_failed,
}
use rem_cmd.Ssh.Connection.{HostKeyInfo, ConnectionEvent, state_changed, failed}

pub data Action : Type 0 where
  sent : ConnectionEvent → Action
  opened closed : ℕ → Action
  trusting : HostKeyInfo → Action
  shell_closed : Action

-- `room` is how many events the receiver still takes before it is dropped; `established` has the
-- newest transport first.
pub record Worker : Type 0 where
  pub session : SshSession
  pub latest_size : PtySize
  pub room : ℕ
  pub established : List ℕ
  pub actions : List Action

-- The worker that has returned, and the one that goes on.
pub data Progress : Type 0 where
  ended going : Worker → Progress

infixl 15 ◌>>>◌
abbrev pub ◌>>>◌ : Progress → (Worker → Progress) → Progress
ended w >>> next = ended w
going w >>> next = next w

abbrev pub act : Action → Worker → Worker
act a w = record w { actions = a ∷ w.actions }

abbrev pub accept : ConnectionEvent → Worker → Worker
accept e w = record w { room = w.room - 1; actions = sent e ∷ w.actions }

-- A send whose failure is ignored.
unfoldable pub send : ConnectionEvent → Worker → Worker
send e w = if w.room == 0 then w else accept e w

-- A send whose failure ends the worker after a cleanup.
unfoldable pub send_or : (Worker → Worker) → ConnectionEvent → Worker → Progress
send_or cleanup e w = if w.room == 0 then ended (cleanup w) else going (accept e w)

-- The loop of `disconnect_established`, and `disconnect` of a combined chain.
unfoldable pub disconnect_all : List ℕ → Worker → Worker
disconnect_all [] w = w
disconnect_all (n ∷ transports) w = disconnect_all transports (act (closed n) w)

unfoldable pub disconnect_established : Worker → Worker
unfolding disconnect_all
disconnect_established w = disconnect_all w.established w

-- `transport.disconnect()` before the transport is established, and what is established.
unfoldable pub disconnect_current : Worker → Worker
unfolding disconnect_established
disconnect_current w = disconnect_established (act (closed (length w.established)) w)

-- `close_resources` with a writer.
unfoldable pub close_shell : Worker → Worker
unfolding disconnect_established
close_shell w = disconnect_established (act shell_closed w)

unfoldable pub report_failure : SshError → Worker → Worker
unfolding mark_failed send
report_failure error w = send (failed error) (record w { session = (mark_failed w.session).0 })

abbrev pub keep_session : Outcome → ConnectionEvent → Worker → Worker
keep_session (s, ok _) e w = send e (record w { session = s })
keep_session (s, err error) e w = record w { session = s }

unfoldable pub finish_disconnection : (Worker → Worker) → Worker → Worker
unfolding begin_disconnect mark_disconnected send
finish_disconnection close w =
    let w₁ = keep_session (begin_disconnect w.session) (state_changed disconnecting) w in
    let w₂ = close w₁ in keep_session (mark_disconnected w₂.session) (state_changed disconnected) w₂

-- The two ends of a step: a failure, and a request to disconnect.
unfoldable pub fail_after : (Worker → Worker) → SshError → Worker → Progress
unfolding report_failure
fail_after close error w = ended (report_failure error (close w))

unfoldable pub hang_up_after : (Worker → Worker) → Worker → Progress
unfolding finish_disconnection
hang_up_after close w = ended (finish_disconnection (λ v. v) (close w))
