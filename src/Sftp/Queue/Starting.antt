-- ===== src/Sftp/Queue/Starting.antt =====
-- Which task is started next, and how many are active.
use rem_cmd.Prelude.{
  ◌+◌, true, false, some, List, [], ◌∷◌, ◌++◌, ◌≡◌, refl, ap, arith, if◌then◌else◌, All, Bool-cases,
  inl, inr, is_some,
}
use rem_cmd.Sftp.Queue.{SftpTransferQueue, start_first, start_next, count_active, active_count}
use rem_cmd.Sftp.Task.{
  SftpTransferState, queued, running, cancelling, conflict, completed, failed, cancelled, is_active,
  SftpTransferTask, start, is_queued,
}

-- The split of a list at its first queued task.
pub record IsFirstQueued (ts : List SftpTransferTask) (started : SftpTransferTask)
    (ts' : List SftpTransferTask) : Type 0 where
  pub before : List SftpTransferTask
  pub task : SftpTransferTask
  pub behind : List SftpTransferTask
  pub splits : ts ≡ before ++ task ∷ behind
  pub none_before : All (λ t. is_queued t.state ≡ false) before
  pub was_queued : is_queued task.state ≡ true
  pub is_started : started ≡ start task
  pub in_place : ts' ≡ before ++ started ∷ behind

start_first-IsFirstQueued :
    (ts : List SftpTransferTask) {started : SftpTransferTask}
    → (start_first ts).1 ≡ some started
    → IsFirstQueued ts started (start_first ts).0
unfolding start_first
start_first-IsFirstQueued [] h = cc
start_first-IsFirstQueued (t ∷ ts) {started} h = elim (Bool-cases (is_queued t.state)) [
  | inl first ↦ record {
    before = [];
    task = t;
    behind = ts;
    splits = refl;
    none_before = tt;
    was_queued = first;
    is_started = ground (arith, first, h);
    in_place = ground (arith, first, h);
  }
  | inr other ↦
      let later = start_first-IsFirstQueued ts {started = started} (ground (arith, other, h)) in
      record {
        before = t ∷ later.before;
        task = later.task;
        behind = later.behind;
        splits = ap (t ∷◌) later.splits;
        none_before = (other, later.none_before);
        was_queued = later.was_queued;
        is_started = later.is_started;
        in_place = rw other (ap (t ∷◌) later.in_place);
      }
]

-- The task that `start_next` returns is the first queued one, now running in its place, and
-- nothing else changes.
pub start_next-IsFirstQueued :
    (q : SftpTransferQueue) {started : SftpTransferTask}
    → (start_next q).1 ≡ some started
    → IsFirstQueued q.tasks started (start_next q).0.tasks
unfolding start_next
start_next-IsFirstQueued q h = start_first-IsFirstQueued q.tasks h

queued-inactive : (s : SftpTransferState) → is_queued s ≡ true → is_active s ≡ false
unfolding is_active
queued-inactive queued h = refl
queued-inactive running h = cc
queued-inactive cancelling h = cc
queued-inactive conflict h = cc
queued-inactive completed h = cc
queued-inactive failed h = cc
queued-inactive cancelled h = cc

count_active-start_first :
    (ts : List SftpTransferTask)
    → count_active (start_first ts).0
      ≡ count_active ts + (if is_some (start_first ts).1 then 1 else 0)
unfolding count_active start_first
count_active-start_first [] = refl
count_active-start_first (t ∷ ts) = elim (Bool-cases (is_queued t.state)) [
  | inl first ↦ ground (arith, first, queued-inactive t.state first)
  | inr other ↦ ground (arith, other, count_active-start_first ts)
]

-- Starting a task makes one more active, and with no queued task the number stays.
pub active_count-start_next :
    (q : SftpTransferQueue)
    → active_count (start_next q).0 ≡ active_count q + (if is_some (start_next q).1 then 1 else 0)
unfolding active_count start_next
active_count-start_next q = count_active-start_first q.tasks
