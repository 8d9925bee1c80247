-- ===== src/Sftp/Task/Moves.antt =====
-- The life of one transfer: which states follow which.
use rem_cmd.Prelude.{
  ℕ, Bool, true, false, not, Option, some, ◌≡◌, refl, sym, subst, arith, Bool-cases, inl, inr,
}
use rem_cmd.Prelude.Text.{Text}
use rem_cmd.Sftp.Task.{
  Change, SftpTransferState, SftpTransferTask, cancel_in, fail_one, is_active, is_conflict,
  is_finished, is_queued, is_running, progress, to_cancel, to_cancelled, to_completed, to_conflict,
  to_failed, to_retry, when, queued, running, cancelling, conflict, completed, failed, cancelled,
}

-- The states that follow each other. None follows a finished one.
pub data Move : SftpTransferState → SftpTransferState → Type 0 where
  begun : Move queued running
  collided : Move running conflict
  again : Move conflict queued
  asked : Move running cancelling
  arrived : {s : SftpTransferState} → is_active s ≡ true → Move s completed
  broken : {s : SftpTransferState} → is_finished s ≡ false → Move s failed
  dropped : {s : SftpTransferState} → is_finished s ≡ false → Move s cancelled

-- One task and what became of it: the same, more of it transferred, or one move on.
pub data Becomes (t t' : SftpTransferTask) : Type 0 where
  kept : t' ≡ t → Becomes t t'
  carried : t'.id ≡ t.id → t'.state ≡ t.state → is_active t.state ≡ true → Becomes t t'
  moved : t'.id ≡ t.id → Move t.state t'.state → Becomes t t'

pub Move-running : (s : SftpTransferState) → is_queued s ≡ true → Move s running
Move-running queued h = begun
Move-running running h = cc
Move-running cancelling h = cc
Move-running conflict h = cc
Move-running completed h = cc
Move-running failed h = cc
Move-running cancelled h = cc

pub Move-conflict : (s : SftpTransferState) → is_running s ≡ true → Move s conflict
Move-conflict running h = collided
Move-conflict queued h = cc
Move-conflict cancelling h = cc
Move-conflict conflict h = cc
Move-conflict completed h = cc
Move-conflict failed h = cc
Move-conflict cancelled h = cc

pub Move-queued : (s : SftpTransferState) → is_conflict s ≡ true → Move s queued
Move-queued conflict h = again
Move-queued queued h = cc
Move-queued running h = cc
Move-queued cancelling h = cc
Move-queued completed h = cc
Move-queued failed h = cc
Move-queued cancelled h = cc

-- A change that keeps to the moves.
abbrev pub IsLawful : Change → Type 0
IsLawful f = (t t' : SftpTransferTask) → f t ≡ some t' → Becomes t t'

pub when-eq-some :
    (b : Bool) (u : SftpTransferTask) {t : SftpTransferTask}
    → when b u ≡ some t
    → (b ≡ true) × (t ≡ u)
when-eq-some true u h = (refl, cc (h))
when-eq-some false u h = cc

pub progress-IsLawful : (transferred : ℕ) (total : Option ℕ) → IsLawful (progress transferred total)
unfolding progress
progress-IsLawful transferred total t t' e =
    let (active, same) = when-eq-some (is_active t.state) _ e in
    subst (Becomes t) (sym same) (carried refl refl active)

pub to_conflict-IsLawful : IsLawful to_conflict
unfolding to_conflict
to_conflict-IsLawful t t' e =
    let (ready, same) = when-eq-some (is_running t.state) _ e in
    subst (Becomes t) (sym same) (moved refl (Move-conflict t.state ready))

pub to_completed-IsLawful : (bytes : ℕ) → IsLawful (to_completed bytes)
unfolding to_completed
to_completed-IsLawful bytes t t' e =
    let (ready, same) = when-eq-some (is_active t.state) _ e in
    subst (Becomes t) (sym same) (moved refl (arrived ready))

pub to_failed-IsLawful : (error : Text) → IsLawful (to_failed error)
unfolding to_failed
to_failed-IsLawful error t t' e =
    let (ready, same) = when-eq-some (not (is_finished t.state)) _ e in
    subst (Becomes t) (sym same) (moved refl (broken (ground (arith, ready))))

pub to_cancelled-IsLawful : IsLawful to_cancelled
unfolding to_cancelled
to_cancelled-IsLawful t t' e =
    let (ready, same) = when-eq-some (not (is_finished t.state)) _ e in
    subst (Becomes t) (sym same) (moved refl (dropped (ground (arith, ready))))

pub to_retry-IsLawful : IsLawful to_retry
unfolding to_retry
to_retry-IsLawful t t' e =
    let (ready, same) = when-eq-some (is_conflict t.state) _ e in
    subst (Becomes t) (sym same) (moved refl (Move-queued t.state ready))

pub cancel_in-Becomes :
    (s : SftpTransferState) (t t' : SftpTransferTask)
    → t.state ≡ s
    → cancel_in s t ≡ some t'
    → Becomes t t'
unfolding is_finished
cancel_in-Becomes running t t' h e =
    moved (cc e) (subst (λ s. Move s t'.state) (sym h) (subst (Move running) (cc e) asked))
cancel_in-Becomes queued t t' h e = moved (cc e) (subst (Move t.state) (cc e) (dropped (cc h)))
cancel_in-Becomes conflict t t' h e = moved (cc e) (subst (Move t.state) (cc e) (dropped (cc h)))
cancel_in-Becomes cancelling t t' h e = cc
cancel_in-Becomes completed t t' h e = cc
cancel_in-Becomes failed t t' h e = cc
cancel_in-Becomes cancelled t t' h e = cc

pub to_cancel-IsLawful : IsLawful to_cancel
unfolding to_cancel
to_cancel-IsLawful t t' e = cancel_in-Becomes t.state t t' refl e

pub fail_one-Becomes : (error : Text) (t : SftpTransferTask) → Becomes t (fail_one error t)
unfolding fail_one
fail_one-Becomes error t = elim (Bool-cases (is_finished t.state)) [
  | inl finished ↦ rw finished (kept refl)
  | inr going ↦ rw going (moved refl (broken going))
]
