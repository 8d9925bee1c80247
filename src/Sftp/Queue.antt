-- ===== src/Sftp/Queue.antt =====
-- state.rs: `SftpTransferQueue`. A method on `&mut self` returns the new queue with its result, and
-- `task_mut` is the first task with an id. The counters are `u64` and wrap around.
pub mod Life
pub mod Ids
pub mod Starting
use rem_cmd.Prelude.{
  ℕ, zero, suc, ◌+◌, ◌%◌, ◌^◌, max, min, Bool, true, false, not, ◌&&◌, Option, none, some, List, [],
  ◌∷◌, ◌++◌, if◌then◌else◌, ◌==◌, ltb, is_some, all, length, map,
}
use rem_cmd.Prelude.Text.{Text}
use rem_cmd.Sftp.Task.{
  Change, SftpTransferDirection, SftpTransferState, SftpTransferTask, cancel_in, cancel_result,
  fail_one, is_active, is_conflict, is_finished, is_queued, is_running, new_task, progress, start,
  to_cancel, to_cancelled, to_completed, to_conflict, to_failed, to_retry, when, upload, download,
  queued, running, cancelling, conflict, completed, failed, cancelled,
}

pub record SftpTransferQueue : Type 0 where
  pub next_id : ℕ
  pub next_batch_id : ℕ
  pub tasks : List SftpTransferTask

abbrev pub default_queue : SftpTransferQueue
default_queue = record { next_id = 0; next_batch_id = 0; tasks = [] }

-- `+= 1` on a `u64`.
abbrev pub next : ℕ → ℕ
next n = (n + 1) % 2 ^ 64

unfoldable pub begin_batch : SftpTransferQueue → SftpTransferQueue × ℕ
begin_batch q =
    let batch_id = max q.next_batch_id 1 in (record q { next_batch_id = next batch_id }, batch_id)

unfoldable pub enqueue_in_batch :
    SftpTransferQueue
    → ℕ
    → SftpTransferDirection
    → Text
    → Text
    → Bool
    → Option ℕ
    → SftpTransferQueue × ℕ
enqueue_in_batch q batch_id direction local_path remote_path overwrite expected_total =
    let id = max q.next_id 1 in
    (
      record q {
        next_id = next id;
        tasks =
            q.tasks
            ++ new_task id batch_id direction local_path remote_path overwrite expected_total ∷ [];
      },
      id,
    )

-- `find` on the mutable iterator, and the change of the task that is found.
unfoldable pub start_first : List SftpTransferTask → List SftpTransferTask × Option SftpTransferTask
start_first [] = ([], none)
start_first (t ∷ ts) =
    let (later, started) = start_first ts in
    if is_queued t.state then (start t ∷ ts, some (start t)) else (t ∷ later, started)

unfoldable pub start_next : SftpTransferQueue → SftpTransferQueue × Option SftpTransferTask
unfolding start_first
start_next q = let (tasks, started) = start_first q.tasks in (record q { tasks = tasks }, started)

unfoldable pub count_active : List SftpTransferTask → ℕ
unfolding is_active
count_active [] = 0
count_active (t ∷ ts) = (if is_active t.state then 1 else 0) + count_active ts

unfoldable pub active_count : SftpTransferQueue → ℕ
unfolding count_active
active_count q = count_active q.tasks

abbrev pub accept :
    List SftpTransferTask
    → SftpTransferTask
    → Option SftpTransferTask
    → List SftpTransferTask × Bool
accept ts t none = (t ∷ ts, false)
accept ts t (some changed) = (changed ∷ ts, true)

unfoldable pub change_task : ℕ → Change → List SftpTransferTask → List SftpTransferTask × Bool
change_task id f [] = ([], false)
change_task id f (t ∷ ts) =
    let (later, done) = change_task id f ts in
    if t.id == id then accept ts t (f t) else (t ∷ later, done)

unfoldable pub change : ℕ → Change → SftpTransferQueue → SftpTransferQueue × Bool
unfolding change_task
change id f q = let (tasks, done) = change_task id f q.tasks in (record q { tasks = tasks }, done)

unfoldable pub mark_progress : SftpTransferQueue → ℕ → ℕ → Option ℕ → SftpTransferQueue × Bool
unfolding change progress
mark_progress q id transferred total = change id (progress transferred total) q

unfoldable pub mark_conflict : SftpTransferQueue → ℕ → SftpTransferQueue × Bool
unfolding change to_conflict
mark_conflict q id = change id to_conflict q

unfoldable pub mark_completed : SftpTransferQueue → ℕ → ℕ → SftpTransferQueue × Bool
unfolding change to_completed
mark_completed q id bytes = change id (to_completed bytes) q

unfoldable pub mark_failed : SftpTransferQueue → ℕ → Text → SftpTransferQueue × Bool
unfolding change to_failed
mark_failed q id error = change id (to_failed error) q

unfoldable pub mark_cancelled : SftpTransferQueue → ℕ → SftpTransferQueue × Bool
unfolding change to_cancelled
mark_cancelled q id = change id to_cancelled q

unfoldable pub retry_with_overwrite : SftpTransferQueue → ℕ → SftpTransferQueue × Bool
unfolding change to_retry
retry_with_overwrite q id = change id to_retry q

-- The first task with an id, read only.
unfoldable pub find_task : ℕ → List SftpTransferTask → Option SftpTransferTask
find_task id [] = none
find_task id (t ∷ ts) = let later = find_task id ts in if t.id == id then some t else later

unfoldable pub begin_cancel : SftpTransferQueue → ℕ → SftpTransferQueue × Option Bool
unfolding change to_cancel find_task
begin_cancel q id = ((change id to_cancel q).0, cancel_result (find_task id q.tasks))

unfoldable pub keep_unfinished : List SftpTransferTask → List SftpTransferTask
unfolding is_finished
keep_unfinished [] = []
keep_unfinished (t ∷ ts) =
    if not (is_finished t.state) then t ∷ keep_unfinished ts else keep_unfinished ts

unfoldable pub clear_finished : SftpTransferQueue → SftpTransferQueue
unfolding keep_unfinished
clear_finished q = record q { tasks = keep_unfinished q.tasks }

unfoldable pub fail_pending : SftpTransferQueue → Text → SftpTransferQueue
unfolding fail_one
fail_pending q error = record q { tasks = map (fail_one error) q.tasks }
