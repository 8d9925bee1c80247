-- ===== src/Tests/ConnectionTests.antt =====
-- The setup of a connection at concrete scripts.
use rem_cmd.Prelude.{
  ◌≤◌, get_elem?, ℕ, Bool, true, List, zero, suc, false, some, [], ◌∷◌, ok, err, ◌≡◌, refl,
}
use rem_cmd.Prelude.Text.{codes, trim}
use rem_cmd.Core.Pty.{default_size}
use rem_cmd.Ssh.Error.{SshError, ssh_error, authentication, sftp}
use rem_cmd.Ssh.Session.{connected}
use rem_cmd.Ssh.Connection.{
  HostKeyInfo, trust, reject, Wait, input, closed_channel, FileCommand, create_directories_request,
}
use rem_cmd.Ssh.Connection.Worker.{Worker, Progress, ended, going}
use rem_cmd.Ssh.Connection.Setup.{
  attempt, unknown_host_key, StepScript, ShellScript, new_worker, run_connection_plan,
}
use rem_cmd.Ssh.Connection.Setup.Closed.{is_open}
use rem_cmd.Ssh.Connection.Files.{Files, new_files, dispatch}
use rem_cmd.Ssh.Connection.Files.Routing.{IsAccepting, IsRouted, dispatch-IsRouted}
use rem_cmd.Ssh.Connection.Files.Answered.{IsAnswered, dispatch-IsAnswered}
use rem_cmd.Ssh.Connection.Decisions.{
  GateStep, asks, delivers, receives, decides, new_gate, run_gate,
}
use rem_cmd.Ssh.Connection.Decisions.Matching.{IsMatching, run_gate-IsMatching}
use rem_cmd.Ssh.Connection.Loop.{
  Branch, receive, shell_event, Turn, stopped, looping, run_connection,
}
use rem_cmd.Ssh.Connection.Loop.Closed.{run_connection-IsClosed}
use rem_cmd.Ssh.Connection.Setup.Ordered.{successes}
use rem_cmd.Ssh.Connection.Setup.Authenticated.{success_at, run_connection_plan-authenticates}
use rem_cmd.Tests.SshTests.{through_bastion}

abbrev bastion_key : HostKeyInfo
bastion_key = record {
  host = codes "bastion";
  port = 22;
  algorithm = codes "ssh-ed25519";
  fingerprint = codes "SHA256:x";
}

abbrev at_once : Wait (Unit {0})
at_once = record { commands = []; result = ok tt }

abbrev denied : Wait (Unit {0})
denied = record {
  commands = [];
  result = err (ssh_error authentication (codes "permission denied"));
}

-- The key of the first step is unknown and trusted.
abbrev accepted : ℕ → StepScript
accepted zero = record {
  opening =
      unknown_host_key [] bastion_key (record { commands = []; result = ok trust }) at_once
        (attempt at_once);
  authentication = at_once;
}
accepted (suc n) = record { opening = attempt at_once; authentication = at_once }

-- The second step refuses the user.
abbrev refused : ℕ → StepScript
refused zero = accepted 0
refused (suc n) = record { opening = attempt at_once; authentication = denied }

abbrev prompt_at_once : ShellScript
prompt_at_once = record { opening = at_once; resizing = ok tt }

abbrev worker_of : Progress → Worker
worker_of (ended w) = w
worker_of (going w) = w

abbrev open_transports : Progress → List Bool
unfolding is_open
open_transports p = is_open 0 (worker_of p).actions ∷ is_open 1 (worker_of p).actions ∷ []

abbrev end_of : Turn → Worker
end_of (stopped w) = w
end_of (looping l) = l.worker

abbrev bye : List Branch
bye =
    receive (some (input (codes "exit"))) (record { writer = ok tt; session = ok tt; queued = [] })
    ∷ shell_event 5 closed_channel
    ∷ []

-- The connection is used, and the server closes its channel.
abbrev after_exit : Worker
unfolding run_connection
after_exit =
    end_of (run_connection through_bastion accepted prompt_at_once bye (new_worker default_size 20))

run_connection-IsClosed_example : is_open 1 after_exit.actions ≡ false
unfolding run_connection trim
run_connection-IsClosed_example =
    run_connection-IsClosed through_bastion accepted prompt_at_once bye default_size 20 1 after_exit
      refl

-- The second step refuses the user: both transports are closed.
refused_closed :
    open_transports
      (run_connection_plan through_bastion refused prompt_at_once (new_worker default_size 20))
    ≡ false ∷ false ∷ []
unfolding run_connection_plan trim is_open
refused_closed = refl

abbrev after_setup : Worker
unfolding run_connection_plan
after_setup =
    worker_of
      (run_connection_plan through_bastion accepted prompt_at_once (new_worker default_size 20))

run_connection_plan-authenticates_example :
    after_setup.session.state ≡ connected
    × ((k : ℕ) → k ≤ 1 → (accepted k).authentication.result ≡ ok tt)
    × get_elem? (successes after_setup.actions) 1 ≡ success_at through_bastion 1
unfolding run_connection_plan trim
run_connection_plan-authenticates_example =
    run_connection_plan-authenticates through_bastion accepted prompt_at_once default_size 20 1
      after_setup refl

-- A directory is created while SFTP cannot be opened and SCP can.
abbrev no_session : SshError
no_session = ssh_error sftp (codes "subsystem refused")

abbrev make_directory : FileCommand
make_directory = create_directories_request 7 (codes "/srv/new" ∷ [])

abbrev without_sftp : Files
without_sftp = (
  record new_files { sftp_available = some true; scp_available = some true },
  new_worker default_size 20,
)

dispatch-IsRouted_example : IsRouted (dispatch (err no_session) make_directory false without_sftp).0
unfolding IsAccepting
dispatch-IsRouted_example = dispatch-IsRouted (err no_session) make_directory false without_sftp tt

dispatch-IsAnswered_example :
    IsAnswered make_directory (dispatch (err no_session) make_directory false without_sftp)
dispatch-IsAnswered_example =
    dispatch-IsAnswered (err no_session) make_directory false without_sftp refl

-- The SCP worker gets it.
sent_by_scp :
    (dispatch (err no_session) make_directory false without_sftp).0.0.scp_worker
    ≡ some (record { is_running = true; commands = make_directory ∷ [] })
unfolding dispatch
sent_by_scp = refl

-- The first decision is taken, a second one refused, and the next question has its own.
abbrev two_questions : List GateStep
two_questions =
    asks
    ∷ decides trust
    ∷ decides reject
    ∷ delivers
    ∷ receives
    ∷ asks
    ∷ decides reject
    ∷ delivers
    ∷ receives
    ∷ []

run_gate-IsMatching_example : IsMatching (run_gate two_questions new_gate).answers
run_gate-IsMatching_example = run_gate-IsMatching two_questions

answered : (run_gate two_questions new_gate).answers ≡ (2, (2, reject)) ∷ (1, (1, trust)) ∷ []
unfolding run_gate
answered = refl
