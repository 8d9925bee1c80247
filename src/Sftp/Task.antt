-- ===== src/Sftp/Task.antt =====
-- state.rs: one transfer of the queue, and what the queue's methods do to it.
pub mod Moves
use rem_cmd.Prelude.{
  ℕ, zero, suc, ◌+◌, ◌%◌, ◌^◌, max, min, Bool, true, false, not, ◌&&◌, Option, none, some, List, [],
  ◌∷◌, ◌++◌, if◌then◌else◌, ◌==◌, ltb, is_some, all, length, map,
}
use rem_cmd.Prelude.Text.{Text}

pub data SftpTransferDirection : Type 0 where
  upload download : SftpTransferDirection

pub data SftpTransferState : Type 0 where
  queued running cancelling conflict completed failed cancelled : SftpTransferState

unfoldable pub is_active : SftpTransferState → Bool
is_active running = true
is_active cancelling = true
is_active _ = false

unfoldable pub is_finished : SftpTransferState → Bool
is_finished completed = true
is_finished failed = true
is_finished cancelled = true
is_finished _ = false

pub record SftpTransferTask : Type 0 where
  pub id : ℕ
  pub batch_id : ℕ
  pub direction : SftpTransferDirection
  pub local_path : Text
  pub remote_path : Text
  pub overwrite : Bool
  pub state : SftpTransferState
  pub transferred : ℕ
  pub total : Option ℕ
  pub error : Option Text

-- The task that `enqueue_in_batch` pushes.
abbrev pub new_task :
    ℕ → ℕ → SftpTransferDirection → Text → Text → Bool → Option ℕ → SftpTransferTask
new_task id batch_id direction local_path remote_path overwrite expected_total = record {
  id = id;
  batch_id = batch_id;
  direction = direction;
  local_path = local_path;
  remote_path = remote_path;
  overwrite = overwrite;
  state = queued;
  transferred = 0;
  total = expected_total;
  error = none;
}

abbrev pub start : SftpTransferTask → SftpTransferTask
start t = record t { state = running; error = none }

abbrev pub is_queued : SftpTransferState → Bool
is_queued queued = true
is_queued _ = false

-- A change of one task: `none` leaves it as it is, and the caller reports the failure.
abbrev pub Change : Type 0
Change = SftpTransferTask → Option SftpTransferTask

abbrev pub when : Bool → SftpTransferTask → Option SftpTransferTask
when allowed t = if allowed then some t else none

-- The bodies of the `mark` methods behind `task_mut`.
unfoldable pub progress : ℕ → Option ℕ → Change
unfolding is_active
progress transferred total t = when (is_active t.state) (record t {
  transferred = max t.transferred transferred;
  total = if is_some total then total else t.total;
})

abbrev pub is_running : SftpTransferState → Bool
is_running running = true
is_running _ = false

abbrev pub is_conflict : SftpTransferState → Bool
is_conflict conflict = true
is_conflict _ = false

unfoldable pub to_conflict : Change
to_conflict t = when (is_running t.state) (record t { state = conflict })

unfoldable pub to_completed : ℕ → Change
unfolding is_active
to_completed bytes t =
    when (is_active t.state)
      (record t { state = completed; transferred = bytes; total = some bytes; error = none })

unfoldable pub to_failed : Text → Change
unfolding is_finished
to_failed error t =
    when (not (is_finished t.state)) (record t { state = failed; error = some error })

unfoldable pub to_cancelled : Change
unfolding is_finished
to_cancelled t = when (not (is_finished t.state)) (record t { state = cancelled; error = none })

unfoldable pub to_retry : Change
to_retry t =
    when (is_conflict t.state)
      (record t { overwrite = true; state = queued; transferred = 0; total = none; error = none })

-- The `match` of `begin_cancel`.
abbrev pub cancel_in : SftpTransferState → Change
cancel_in running t = some (record t { state = cancelling })
cancel_in queued t = some (record t { state = cancelled })
cancel_in conflict t = some (record t { state = cancelled })
cancel_in cancelling t = none
cancel_in completed t = none
cancel_in failed t = none
cancel_in cancelled t = none

unfoldable pub to_cancel : Change
to_cancel t = cancel_in t.state t

-- The result `Some(true)` for a running task, `Some(false)` for a waiting one.
abbrev pub cancel_result : Option SftpTransferTask → Option Bool
cancel_result none = none
cancel_result (some t) = elim t.state [
  | running ↦ some true
  | queued ↦ some false
  | conflict ↦ some false
  | cancelling ↦ none
  | completed ↦ none
  | failed ↦ none
  | cancelled ↦ none
]

unfoldable pub fail_one : Text → SftpTransferTask → SftpTransferTask
unfolding is_finished
fail_one error t =
    if not (is_finished t.state) then record t { state = failed; error = some error } else t
