-- ===== src/Ssh/Connection/Decisions.antt =====
-- crates/remcmd-ssh/src/connection.rs: `send_host_key_decision` of a `ConnectionHandle`, and how the
-- worker asks and waits, with every interleaving of the two.
pub mod Matching
use rem_cmd.Prelude.{
  ℕ, Bool, true, false, not, ◌&&◌, List, [], ◌∷◌, ◌++◌, Result, ok, err, if◌then◌else◌, ◌+◌,
}
use rem_cmd.Prelude.Text.{codes}
use rem_cmd.Ssh.Error.{SshError, ssh_error, invalid_state}
use rem_cmd.Ssh.Connection.{HostKeyDecision}

-- A decision with the number of the question that was asked when it was taken.
abbrev pub Taken : Type 0
Taken = ℕ × HostKeyDecision

-- `host_key_verification_pending`, the decisions that handles have taken and not yet sent, those in
-- the channel, the number of questions, and whether the worker waits and runs. `answers` has the
-- question that each decision was received for.
pub record Gate : Type 0 where
  pub is_pending : Bool
  pub in_flight : List Taken
  pub channel : List Taken
  pub question : ℕ
  pub is_waiting : Bool
  pub is_running : Bool
  pub answers : List (ℕ × Taken)

abbrev pub new_gate : Gate
new_gate = record {
  is_pending = false;
  in_flight = [];
  channel = [];
  question = 0;
  is_waiting = false;
  is_running = true;
  answers = [];
}

-- The compare and exchange of `send_host_key_decision`, and its answer.
unfoldable pub send_host_key_decision : HostKeyDecision → Gate → Gate × Result (Unit {0}) SshError
send_host_key_decision decision g =
    if g.is_pending
    then (record g { is_pending = false; in_flight = (g.question, decision) ∷ g.in_flight }, ok tt)
    else (g, err (ssh_error invalid_state (codes "SSH host-key verification is not pending")))

-- The worker asks, and goes on to wait.
unfoldable pub ask : Gate → Gate
ask g =
    if g.is_running && not g.is_waiting
    then record g { is_pending = true; is_waiting = true; question = g.question + 1 }
    else g

-- A decision that is taken reaches the channel.
abbrev pub moved : List Taken → Gate → Gate
moved [] g = g
moved (d ∷ ds) g = record g { in_flight = ds; channel = g.channel ++ d ∷ [] }

unfoldable pub deliver : Gate → Gate
deliver g = moved g.in_flight g

-- The worker receives a decision.
abbrev pub received : List Taken → Gate → Gate
received [] g = g
received (d ∷ ds) g = record g {
  is_pending = false;
  channel = ds;
  is_waiting = false;
  answers = (g.question, d) ∷ g.answers;
}

unfoldable pub receive_decision : Gate → Gate
receive_decision g = if g.is_waiting then received g.channel g else g

-- The worker returns, while it waits or later.
unfoldable pub leave : Gate → Gate
leave g = record g { is_pending = false; is_waiting = false; is_running = false }

pub data GateStep : Type 0 where
  asks delivers receives leaves : GateStep
  decides : HostKeyDecision → GateStep

unfoldable pub gate_step : GateStep → Gate → Gate
unfolding ask deliver receive_decision leave send_host_key_decision
gate_step asks g = ask g
gate_step delivers g = deliver g
gate_step receives g = receive_decision g
gate_step leaves g = leave g
gate_step (decides decision) g = (send_host_key_decision decision g).0

unfoldable pub run_gate : List GateStep → Gate → Gate
unfolding gate_step
run_gate [] g = g
run_gate (step ∷ steps) g = run_gate steps (gate_step step g)
