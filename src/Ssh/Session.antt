-- ===== src/Ssh/Session.antt =====
-- crates/remcmd-ssh/src/session.rs: `SessionState` and `SshSession`. A method on `&mut self` returns
-- the new session with its result.
pub mod Lifecycle
use mathlib.Core.List.{List, [], ◌∷◌}
use rem_cmd.Prelude.{Bool, true, false, not, ◌++◌, Result, ok, err, if◌then◌else◌}
use rem_cmd.Prelude.Text.{Text, codes}
use rem_cmd.Ssh.Error.{SshError, ssh_error, invalid_state}

pub data SessionState : Type 0 where
  disconnected connecting authenticating connected disconnecting failed : SessionState

-- `Self::Disconnected | Self::Failed`.
unfoldable pub can_connect : SessionState → Bool
can_connect disconnected = true
can_connect failed = true
can_connect _ = false

unfoldable pub can_disconnect : SessionState → Bool
can_disconnect connecting = true
can_disconnect authenticating = true
can_disconnect connected = true
can_disconnect _ = false

-- The derived `==`.
unfoldable pub state_eq : SessionState → SessionState → Bool
state_eq disconnected disconnected = true
state_eq connecting connecting = true
state_eq authenticating authenticating = true
state_eq connected connected = true
state_eq disconnecting disconnecting = true
state_eq failed failed = true
state_eq _ _ = false

-- `{:?}` of a state.
unfoldable pub debug_name : SessionState → Text
debug_name disconnected = codes "Disconnected"
debug_name connecting = codes "Connecting"
debug_name authenticating = codes "Authenticating"
debug_name connected = codes "Connected"
debug_name disconnecting = codes "Disconnecting"
debug_name failed = codes "Failed"

pub record SshSession : Type 0 where
  pub state : SessionState

abbrev pub default_session : SshSession
default_session = record { state = disconnected }

abbrev pub Outcome : Type 0
Outcome = SshSession × Result (Unit {0}) SshError

unfoldable pub invalid_transition : SshSession → Text → SshError
unfolding debug_name
invalid_transition s operation =
    ssh_error invalid_state
      (codes "cannot " ++ (operation ++ (codes " while session is " ++ debug_name s.state)))

unfoldable pub begin_connect : SshSession → Outcome
unfolding can_connect invalid_transition
begin_connect s =
    if not (can_connect s.state)
    then (s, err (invalid_transition s (codes "start connecting")))
    else (record s { state = connecting }, ok tt)

unfoldable pub transition : SshSession → SessionState → SessionState → Text → Outcome
unfolding state_eq invalid_transition
transition s expected next operation =
    if not (state_eq s.state expected)
    then (s, err (invalid_transition s operation))
    else (record s { state = next }, ok tt)

unfoldable pub begin_authentication : SshSession → Outcome
unfolding transition
begin_authentication s = transition s connecting authenticating (codes "start authentication")

unfoldable pub mark_connected : SshSession → Outcome
unfolding transition
mark_connected s = transition s authenticating connected (codes "finish authentication")

unfoldable pub begin_disconnect : SshSession → Outcome
unfolding can_disconnect invalid_transition
begin_disconnect s =
    if not (can_disconnect s.state)
    then (s, err (invalid_transition s (codes "start disconnecting")))
    else (record s { state = disconnecting }, ok tt)

unfoldable pub mark_disconnected : SshSession → Outcome
unfolding transition
mark_disconnected s = transition s disconnecting disconnected (codes "finish disconnecting")

unfoldable pub mark_failed : SshSession → Outcome
mark_failed s = (record s { state = failed }, ok tt)
