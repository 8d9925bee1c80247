-- ===== src/Sftp/Batch.antt =====
-- state.rs: `latest_batch_progress` and `latest_batch_direction`. The `fraction`, a floating-point
-- number for the progress bar, is left out.
pub mod Bounds
use rem_cmd.Prelude.{
  ℕ, zero, suc, ◌+◌, ◌-◌, ◌^◌, max, min, Bool, true, false, not, ◌&&◌, ◌||◌, Option, none, some,
  List, [], ◌∷◌, ◌++◌, if◌then◌else◌, ◌==◌, ltb, leb, is_some, all, length, map, and_then,
}
use rem_cmd.Sftp.Queue.{SftpTransferQueue}
use rem_cmd.Sftp.Task.{
  SftpTransferDirection, upload, download, SftpTransferState, failed, cancelled, is_finished,
  SftpTransferTask,
}

pub record SftpTransferBatchProgress : Type 0 where
  pub task_count : ℕ
  pub settled_count : ℕ
  pub failed_count : ℕ
  pub transferred : ℕ
  pub total : Option ℕ

abbrev pub direction_eq : SftpTransferDirection → SftpTransferDirection → Bool
direction_eq upload upload = true
direction_eq download download = true
direction_eq _ _ = false

-- `.filter(..)`.
abbrev pub filter : (SftpTransferTask → Bool) → List SftpTransferTask → List SftpTransferTask
filter p [] = []
filter p (t ∷ ts) = if p t then t ∷ filter p ts else filter p ts

-- `.filter(..).count()`.
abbrev pub count : (SftpTransferTask → Bool) → List SftpTransferTask → ℕ
count p ts = length (filter p ts)

-- `.map(|task| task.batch_id).max()`.
unfoldable pub max_batch : List SftpTransferTask → Option ℕ
max_batch [] = none
max_batch (t ∷ ts) = elim (max_batch ts) [
  | none ↦ some t.batch_id
  | some m ↦ some (max t.batch_id m)
]

abbrev pub max_u64 : ℕ
max_u64 = 2 ^ 64 - 1

abbrev pub saturating_add : ℕ → ℕ → ℕ
saturating_add a b = min (a + b) max_u64

-- `fold(0, u64::saturating_add)`, from the left.
unfoldable pub fold_add : ℕ → List ℕ → ℕ
fold_add sum [] = sum
fold_add sum (n ∷ ns) = fold_add (saturating_add sum n) ns

abbrev pub known_totals : List SftpTransferTask → List ℕ
known_totals [] = []
known_totals (t ∷ ts) = elim t.total [ none ↦ known_totals ts | some n ↦ n ∷ known_totals ts ]

-- What a task counts for: not more than its total, if that is known.
abbrev pub counted : SftpTransferTask → ℕ
counted t = elim t.total [ none ↦ t.transferred | some n ↦ min t.transferred n ]

abbrev pub is_failed : SftpTransferState → Bool
is_failed failed = true
is_failed cancelled = true
is_failed _ = false

unfoldable pub progress_of : List SftpTransferTask → SftpTransferBatchProgress
unfolding fold_add is_finished
progress_of tasks = record {
  task_count = length tasks;
  settled_count = count (λ t. is_finished t.state) tasks;
  failed_count = count (λ t. is_failed t.state) tasks;
  transferred = fold_add 0 (map counted tasks);
  total = if all (λ t. is_some t.total) tasks then some (fold_add 0 (known_totals tasks)) else none;
}

unfoldable pub latest_batch_progress :
    SftpTransferQueue → SftpTransferDirection → Option SftpTransferBatchProgress
unfolding max_batch progress_of
latest_batch_progress q direction =
    and_then (max_batch (filter (λ t. direction_eq t.direction direction) q.tasks)) λ batch_id.
      let tasks =
        filter (λ t. direction_eq t.direction direction && t.batch_id == batch_id) q.tasks in
      if ltb (length tasks) 2 then none else some (progress_of tasks)

-- `max_by_key`, which keeps the last of several maxima.
unfoldable pub last_max : SftpTransferTask → List SftpTransferTask → SftpTransferTask
last_max best [] = best
last_max best (t ∷ ts) = last_max (if leb best.batch_id t.batch_id then t else best) ts

unfoldable pub latest_batch_direction : SftpTransferQueue → Option SftpTransferDirection
unfolding last_max
latest_batch_direction q = elim q.tasks [ [] ↦ none | t ∷ ts ↦ some (last_max t ts).direction ]
