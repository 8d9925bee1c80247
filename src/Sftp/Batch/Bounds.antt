-- ===== src/Sftp/Batch/Bounds.antt =====
-- The numbers of a batch against each other.
use rem_cmd.Prelude.{
  ℕ, ◌≤◌, min, Bool, true, ◌&&◌, none, some, List, [], ◌∷◌, ◌≡◌, refl, arith, length, map, all,
  is_some, Bool-cases, Option-cases, ltb, ◌==◌, subst, inl, inr, ◌⊎◌,
}
use rem_cmd.Sftp.Queue.{SftpTransferQueue}
use rem_cmd.Sftp.Task.{
  SftpTransferState, queued, running, cancelling, conflict, completed, failed, cancelled,
  is_finished, SftpTransferTask, SftpTransferDirection,
}
use rem_cmd.Sftp.Batch.{
  SftpTransferBatchProgress, filter, count, max_batch, direction_eq, fold_add, saturating_add,
  known_totals, counted, is_failed, progress_of, latest_batch_progress,
}

-- Numbers that can be shown: failures are settled, settled tasks are tasks, there are two tasks or
-- more, and what is transferred is at most the total, if that is known.
pub record IsProgress (p : SftpTransferBatchProgress) : Type 0 where
  pub failures : p.failed_count ≤ p.settled_count
  pub settled : p.settled_count ≤ p.task_count
  pub several : 2 ≤ p.task_count
  pub within_total : (p.total ≡ none) ⊎ ((n : ℕ) × (p.total ≡ some n) × (p.transferred ≤ n))

failed-finished : (s : SftpTransferState) → is_failed s ≡ true → is_finished s ≡ true
unfolding is_finished
failed-finished failed h = refl
failed-finished cancelled h = refl
failed-finished queued h = cc
failed-finished running h = cc
failed-finished cancelling h = cc
failed-finished conflict h = cc
failed-finished completed h = cc

count-failed :
    (ts : List SftpTransferTask)
    → count (λ t. is_failed t.state) ts ≤ count (λ t. is_finished t.state) ts
count-failed [] = omega arith
count-failed (t ∷ ts) = elim (Bool-cases (is_failed t.state)) [
  | inl f ↦ ground (arith, f, failed-finished t.state f, count-failed ts)
  | inr n ↦ ground (arith, n, count-failed ts)
]

count-le : (p : SftpTransferTask → Bool) (ts : List SftpTransferTask) → count p ts ≤ length ts
count-le p [] = omega arith
count-le p (t ∷ ts) = ground (arith, count-le p ts)

fold-counted :
    (a b : ℕ) (ts : List SftpTransferTask)
    → a ≤ b
    → all (λ t. is_some t.total) ts ≡ true
    → fold_add a (map counted ts) ≤ fold_add b (known_totals ts)
unfolding fold_add
fold-counted a b [] l h = l
fold-counted a b (t ∷ ts) l h = elim (Option-cases t.total) [
  | inl e ↦ absurd (ground (arith, e, h))
  | inr (n, e) ↦ rw e (
      fold-counted (saturating_add a (min t.transferred n)) (saturating_add b n) ts (omega arith)
        (ground (arith, e, h)))
]

progress_of-IsProgress : (ts : List SftpTransferTask) → 2 ≤ length ts → IsProgress (progress_of ts)
unfolding progress_of
progress_of-IsProgress ts two = record {
  failures = count-failed ts;
  settled = count-le (λ t. is_finished t.state) ts;
  several = two;
  within_total = elim (Bool-cases (all (λ t. is_some t.total) ts)) [
    | inl known ↦ rw known (inr (_, refl, fold-counted 0 0 ts (omega arith) known))
    | inr missing ↦ rw missing (inl refl)
  ];
}

-- The progress of a batch is that of two tasks or more: its failures are settled tasks, these are
-- tasks of it, and what is transferred is at most the total, if that is known.
pub latest_batch_progress-IsProgress :
    (q : SftpTransferQueue) (direction : SftpTransferDirection) {p : SftpTransferBatchProgress}
    → latest_batch_progress q direction ≡ some p
    → IsProgress p
unfolding latest_batch_progress
latest_batch_progress-IsProgress q direction {p} h =
    elim (Option-cases (max_batch (filter (λ t. direction_eq t.direction direction) q.tasks))) [
      | inl e ↦ absurd (ground (arith, e, h))
      | inr (batch_id, e) ↦
          let tasks =
            filter (λ t. direction_eq t.direction direction && t.batch_id == batch_id) q.tasks in
          elim (Bool-cases (ltb (length tasks) 2)) [
            | inl few ↦ absurd (ground (arith, e, few, h))
            | inr several ↦
                let shown : progress_of tasks ≡ p = ground (arith, e, several, h) in
                subst IsProgress shown (progress_of-IsProgress tasks (ground (arith, several)))
          ]
    ]
