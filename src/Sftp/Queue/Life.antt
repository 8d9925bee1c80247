-- ===== src/Sftp/Queue/Life.antt =====
-- The life of a transfer: which states follow which, whatever is called.
use rem_cmd.Prelude.{
  ℕ, ◌+◌, ◌≤◌, ◌<◌, ◌^◌, Bool, true, Option, none, some, List, [], ◌∷◌, ◌++◌, ◌≡◌, refl, arith,
  ◌==◌, Bool-cases, inl, inr, map,
}
use rem_cmd.Prelude.Text.{Text}
use rem_cmd.Sftp.Queue.{
  SftpTransferQueue, enqueue_in_batch, begin_batch, accept, start_first, start_next, change_task,
  mark_progress, mark_conflict, mark_completed, mark_failed, mark_cancelled, retry_with_overwrite,
  begin_cancel, keep_unfinished, clear_finished, fail_pending,
}
use rem_cmd.Sftp.Task.{
  SftpTransferDirection, queued, is_finished, SftpTransferTask, is_queued, Change, fail_one,
}
use rem_cmd.Sftp.Task.Moves.{
  Becomes, IsLawful, Move-running, fail_one-Becomes, progress-IsLawful, to_cancel-IsLawful,
  to_cancelled-IsLawful, to_completed-IsLawful, to_conflict-IsLawful, to_failed-IsLawful,
  to_retry-IsLawful, kept, moved,
}

-- The calls on a queue, with their arguments.
pub data QueueCall : Type 0 where
  begin : QueueCall
  enqueue : ℕ → SftpTransferDirection → Text → Text → Bool → Option ℕ → QueueCall
  start_one : QueueCall
  report : ℕ → ℕ → Option ℕ → QueueCall
  collide : ℕ → QueueCall
  complete : ℕ → ℕ → QueueCall
  break : ℕ → Text → QueueCall
  drop_one : ℕ → QueueCall
  retry : ℕ → QueueCall
  cancel : ℕ → QueueCall
  clear : QueueCall
  break_all : Text → QueueCall

-- The queue behind a call.
unfoldable pub after : QueueCall → SftpTransferQueue → SftpTransferQueue
unfolding begin_batch enqueue_in_batch start_next mark_progress mark_conflict mark_completed
    mark_failed mark_cancelled retry_with_overwrite begin_cancel clear_finished fail_pending
after begin q = (begin_batch q).0
after (enqueue batch direction local remote overwrite total) q =
    (enqueue_in_batch q batch direction local remote overwrite total).0
after start_one q = (start_next q).0
after (report id transferred total) q = (mark_progress q id transferred total).0
after (collide id) q = (mark_conflict q id).0
after (complete id bytes) q = (mark_completed q id bytes).0
after (break id error) q = (mark_failed q id error).0
after (drop_one id) q = (mark_cancelled q id).0
after (retry id) q = (retry_with_overwrite q id).0
after (cancel id) q = (begin_cancel q id).0
after clear q = clear_finished q
after (break_all error) q = fail_pending q error

-- The tasks of a queue and what became of them, in their order: finished ones may be gone, and a new
-- one may stand at the end, queued, with an id from `bound` on and below `bound'`.
pub data Evolves (bound bound' : ℕ) : List SftpTransferTask → List SftpTransferTask → Type 0 where
  ended : Evolves bound bound' [] []
  added :
      {t : SftpTransferTask}
      → t.state ≡ queued
      → bound ≤ t.id
      → t.id < bound'
      → Evolves bound bound' [] (t ∷ [])
  goes_on :
      {t t' : SftpTransferTask} {ts ts' : List SftpTransferTask}
      → Becomes t t'
      → Evolves bound bound' ts ts'
      → Evolves bound bound' (t ∷ ts) (t' ∷ ts')
  cleared :
      {t : SftpTransferTask} {ts ts' : List SftpTransferTask}
      → is_finished t.state ≡ true
      → Evolves bound bound' ts ts'
      → Evolves bound bound' (t ∷ ts) ts'

module _ (bound bound' : ℕ) where
  one_more :
      (ts : List SftpTransferTask) (t : SftpTransferTask)
      → t.state ≡ queued
      → bound ≤ t.id
      → t.id < bound'
      → Evolves bound bound' ts (ts ++ t ∷ [])
  one_more [] t s l h = added s l h
  one_more (u ∷ ts) t s l h = goes_on (kept refl) (one_more ts t s l h)

  same_tasks : (ts : List SftpTransferTask) → Evolves bound bound' ts ts
  same_tasks [] = ended
  same_tasks (t ∷ ts) = goes_on (kept refl) (same_tasks ts)

  start_first-Evolves : (ts : List SftpTransferTask) → Evolves bound bound' ts (start_first ts).0
  unfolding start_first
  start_first-Evolves [] = ended
  start_first-Evolves (t ∷ ts) = elim (Bool-cases (is_queued t.state)) [
    | inl first ↦ rw first (goes_on (moved refl (Move-running t.state first)) (same_tasks ts))
    | inr other ↦ rw other (goes_on (kept refl) (start_first-Evolves ts))
  ]

  accept-Evolves :
      (f : Change) (t : SftpTransferTask) (ts : List SftpTransferTask) (o : Option SftpTransferTask)
      → IsLawful f
      → f t ≡ o
      → Evolves bound bound' (t ∷ ts) (accept ts t o).0
  accept-Evolves f t ts none h e = goes_on (kept refl) (same_tasks ts)
  accept-Evolves f t ts (some t') h e = goes_on (h t t' e) (same_tasks ts)

  change_task-Evolves :
      (id : ℕ) (f : Change) (ts : List SftpTransferTask)
      → IsLawful f
      → Evolves bound bound' ts (change_task id f ts).0
  unfolding change_task
  change_task-Evolves id f [] h = ended
  change_task-Evolves id f (t ∷ ts) h = elim (Bool-cases (t.id == id)) [
    | inl found ↦ rw found (accept-Evolves f t ts (f t) h refl)
    | inr other ↦ rw other (goes_on (kept refl) (change_task-Evolves id f ts h))
  ]

keep_unfinished-Evolves :
    (bound bound' : ℕ) (ts : List SftpTransferTask) → Evolves bound bound' ts (keep_unfinished ts)
unfolding keep_unfinished
keep_unfinished-Evolves bound bound' [] = ended
keep_unfinished-Evolves bound bound' (t ∷ ts) = elim (Bool-cases (is_finished t.state)) [
  | inl finished ↦ rw finished (cleared finished (keep_unfinished-Evolves bound bound' ts))
  | inr going ↦ rw going (goes_on (kept refl) (keep_unfinished-Evolves bound bound' ts))
]

fail_all-Evolves :
    (bound bound' : ℕ) (error : Text) (ts : List SftpTransferTask)
    → Evolves bound bound' ts (map (fail_one error) ts)
fail_all-Evolves bound bound' error [] = ended
fail_all-Evolves bound bound' error (t ∷ ts) =
    goes_on (fail_one-Becomes error t) (fail_all-Evolves bound bound' error ts)

-- While ids are left, whatever is called, each task keeps its place, its id and its state or makes
-- one move of the life of a transfer, only finished tasks are removed, and only a queued task with
-- a new id is added, at the end.
pub after-Evolves :
    (c : QueueCall) (q : SftpTransferQueue)
    → q.next_id + 2 < 2 ^ 64
    → Evolves q.next_id (after c q).next_id q.tasks (after c q).tasks
unfolding after
after-Evolves begin q h = same_tasks _ _ q.tasks
after-Evolves (enqueue batch direction local remote overwrite total) q h =
    one_more _ _ q.tasks _ refl (omega arith) (ground arith)
after-Evolves start_one q h = start_first-Evolves _ _ q.tasks
after-Evolves (report id transferred total) q h =
    change_task-Evolves _ _ id _ q.tasks (progress-IsLawful transferred total)
after-Evolves (collide id) q h = change_task-Evolves _ _ id _ q.tasks to_conflict-IsLawful
after-Evolves (complete id bytes) q h =
    change_task-Evolves _ _ id _ q.tasks (to_completed-IsLawful bytes)
after-Evolves (break id error) q h = change_task-Evolves _ _ id _ q.tasks (to_failed-IsLawful error)
after-Evolves (drop_one id) q h = change_task-Evolves _ _ id _ q.tasks to_cancelled-IsLawful
after-Evolves (retry id) q h = change_task-Evolves _ _ id _ q.tasks to_retry-IsLawful
after-Evolves (cancel id) q h = change_task-Evolves _ _ id _ q.tasks to_cancel-IsLawful
after-Evolves clear q h = keep_unfinished-Evolves _ _ q.tasks
after-Evolves (break_all error) q h = fail_all-Evolves _ _ error q.tasks
