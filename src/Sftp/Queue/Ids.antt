-- ===== src/Sftp/Queue/Ids.antt =====
-- The ids of a queue's tasks, and what they keep apart.
use rem_cmd.Prelude.{
  ℕ, ◌+◌, ◌^◌, ◌≤◌, ◌<◌, true, false, none, some, List, [], ◌∷◌, ◌≡◌, ◌≢◌, refl, sym, ap, subst,
  ◌∙◌, arith, ◌==◌, ==_iff, Bool-cases, inl, inr, All, ◌⊎◌,
}
use rem_cmd.Sftp.Queue.{SftpTransferQueue, find_task}
use rem_cmd.Sftp.Task.{
  SftpTransferState, queued, running, cancelling, conflict, completed, failed, cancelled, is_active,
  is_finished, SftpTransferTask,
}
use rem_cmd.Sftp.Queue.Life.{
  QueueCall, begin, enqueue, start_one, report, collide, complete, break, drop_one, retry, cancel,
  clear, break_all, after, after-Evolves, Evolves, added, goes_on, ended, cleared,
}
use rem_cmd.Sftp.Task.Moves.{
  Becomes, kept, carried, moved, Move, begun, collided, again, asked, arrived, broken, dropped,
}

-- No task of the list has the id.
abbrev pub IsAbsent : ℕ → List SftpTransferTask → Type 0
IsAbsent id ts = All (λ t. t.id ≢ id) ts

abbrev pub AreApart : List SftpTransferTask → Type 0
AreApart [] = Unit
AreApart (t ∷ ts) = IsAbsent t.id ts × AreApart ts

-- The tasks have different ids, all of them given out before.
pub record IsQueue (q : SftpTransferQueue) : Type 0 where
  pub apart : AreApart q.tasks
  pub given : All (λ t. t.id < q.next_id) q.tasks

Becomes-id : (t t' : SftpTransferTask) → Becomes t t' → t'.id ≡ t.id
Becomes-id t t' (kept e) = ap (λ u. u.id) e
Becomes-id t t' (carried e s a) = e
Becomes-id t t' (moved e m) = e

no-Move : (s s' : SftpTransferState) → is_finished s ≡ true → Move s s' → ⊥
unfolding is_finished is_active
no-Move s s' h begun = cc
no-Move s s' h collided = cc
no-Move s s' h again = cc
no-Move s s' h asked = cc
no-Move running s' h (arrived a) = cc
no-Move cancelling s' h (arrived a) = cc
no-Move queued s' h (arrived a) = cc
no-Move conflict s' h (arrived a) = cc
no-Move completed s' h (arrived a) = cc
no-Move failed s' h (arrived a) = cc
no-Move cancelled s' h (arrived a) = cc
no-Move s s' h (broken n) = cc
no-Move s s' h (dropped n) = cc

not_active : (s : SftpTransferState) → is_finished s ≡ true → is_active s ≡ false
unfolding is_finished is_active
not_active queued h = refl
not_active running h = sym h
not_active cancelling h = sym h
not_active conflict h = refl
not_active completed h = refl
not_active failed h = refl
not_active cancelled h = refl

Becomes-finished : (t t' : SftpTransferTask) → is_finished t.state ≡ true → Becomes t t' → t' ≡ t
Becomes-finished t t' h (kept e) = e
Becomes-finished t t' h (carried i e a) = cc (not_active t.state h, a)
Becomes-finished t t' h (moved i m) = absurd (no-Move t.state t'.state h m)

module _ (bound bound' : ℕ) where
  IsAbsent-Evolves :
      (id : ℕ) (ts ts' : List SftpTransferTask)
      → id < bound
      → IsAbsent id ts
      → Evolves bound bound' ts ts'
      → IsAbsent id ts'
  IsAbsent-Evolves id [] [] l a ended = tt
  IsAbsent-Evolves id [] (t' ∷ []) l a (added s b c) = (omega arith, tt)
  IsAbsent-Evolves id [] (t' ∷ (u ∷ us)) l a x = elim x [ ]
  IsAbsent-Evolves id (t ∷ ts) (t' ∷ ts') l a (goes_on b e) =
      (omega (arith, Becomes-id t t' b, a.0), IsAbsent-Evolves id ts ts' l a.1 e)
  IsAbsent-Evolves id (t ∷ ts) ts' l a (cleared f e) = IsAbsent-Evolves id ts ts' l a.1 e

  AreApart-Evolves :
      (ts ts' : List SftpTransferTask)
      → All (λ t. t.id < bound) ts
      → AreApart ts
      → Evolves bound bound' ts ts'
      → AreApart ts'
  AreApart-Evolves [] [] g a ended = tt
  AreApart-Evolves [] (t' ∷ []) g a (added s b c) = (tt, tt)
  AreApart-Evolves [] (t' ∷ (u ∷ us)) g a x = elim x [ ]
  AreApart-Evolves (t ∷ ts) (t' ∷ ts') g a (goes_on b e) = (
    subst (λ id. IsAbsent id ts') (sym (Becomes-id t t' b))
        (IsAbsent-Evolves t.id ts ts' g.0 a.0 e),
    AreApart-Evolves ts ts' g.1 a.1 e,
  )
  AreApart-Evolves (t ∷ ts) ts' g a (cleared f e) = AreApart-Evolves ts ts' g.1 a.1 e

  given-Evolves :
      (ts ts' : List SftpTransferTask)
      → bound ≤ bound'
      → All (λ t. t.id < bound) ts
      → Evolves bound bound' ts ts'
      → All (λ t. t.id < bound') ts'
  given-Evolves [] [] l g ended = tt
  given-Evolves [] (t' ∷ []) l g (added s b c) = (c, tt)
  given-Evolves [] (t' ∷ (u ∷ us)) l g x = elim x [ ]
  given-Evolves (t ∷ ts) (t' ∷ ts') l g (goes_on b e) =
      (omega (arith, Becomes-id t t' b, g.0), given-Evolves ts ts' l g.1 e)
  given-Evolves (t ∷ ts) ts' l g (cleared f e) = given-Evolves ts ts' l g.1 e

  find-absent : (id : ℕ) (ts : List SftpTransferTask) → IsAbsent id ts → find_task id ts ≡ none
  unfolding find_task
  find-absent id [] a = refl
  find-absent id (t ∷ ts) a = ground (arith, find-absent id ts, a.0)

  find-Evolves :
      (id : ℕ) (ts ts' : List SftpTransferTask) {t : SftpTransferTask}
      → All (λ u. u.id < bound) ts
      → AreApart ts
      → Evolves bound bound' ts ts'
      → find_task id ts ≡ some t
      → is_finished t.state ≡ true
      → (find_task id ts' ≡ some t) ⊎ (find_task id ts' ≡ none)
  unfolding find_task
  find-Evolves id [] ts' g a e f h = cc
  find-Evolves id (u ∷ ts) (u' ∷ ts') {t} g a (goes_on b e) f h = elim (Bool-cases (u.id == id)) [
    | inl here ↦
        let same : u ≡ t = ground (arith, here, f) in
        let kept_one : u' ≡ u = Becomes-finished u u' (ap (λ v. is_finished v.state) same ∙ h) b in
        inl (rw kept_one (rw here (ap some same)))
    | inr other ↦
        let away : (u'.id == id) ≡ false = ap (◌== id) (Becomes-id u u' b) ∙ other in
        rw away (find-Evolves id ts ts' g.1 a.1 e (ground (arith, other, f)) h)
  ]
  find-Evolves id (u ∷ ts) ts' {t} g a (cleared d e) f h = elim (Bool-cases (u.id == id)) [
    | inl here ↦
        let same : u.id ≡ id = (==_iff u.id id).0 here in
        inr (
          find-absent id ts'
            (subst (λ i. IsAbsent i ts') same (IsAbsent-Evolves u.id ts ts' g.0 a.0 e)))
    | inr other ↦ find-Evolves id ts ts' g.1 a.1 e (ground (arith, other, f)) h
  ]

next_id-grows :
    (c : QueueCall) (q : SftpTransferQueue)
    → q.next_id + 2 < 2 ^ 64
    → q.next_id ≤ (after c q).next_id
unfolding after
next_id-grows (enqueue batch direction local remote overwrite total) q h = ground arith
next_id-grows begin q h = omega arith
next_id-grows start_one q h = omega arith
next_id-grows (report id n total) q h = omega arith
next_id-grows (collide id) q h = omega arith
next_id-grows (complete id n) q h = omega arith
next_id-grows (break id e) q h = omega arith
next_id-grows (drop_one id) q h = omega arith
next_id-grows (retry id) q h = omega arith
next_id-grows (cancel id) q h = omega arith
next_id-grows clear q h = omega arith
next_id-grows (break_all e) q h = omega arith

-- While ids are left, every call keeps the ids of the tasks different and below the next one.
pub after-IsQueue :
    (c : QueueCall) (q : SftpTransferQueue)
    → q.next_id + 2 < 2 ^ 64
    → IsQueue q
    → IsQueue (after c q)
after-IsQueue c q h i =
    let e = after-Evolves c q h in
    record {
      apart = AreApart-Evolves _ _ q.tasks (after c q).tasks i.given i.apart e;
      given = given-Evolves _ _ q.tasks (after c q).tasks (next_id-grows c q h) i.given e;
    }

-- While ids are left, a finished task of a queue whose ids are different and given out before is
-- the same after any call, or gone.
pub finished_final :
    (c : QueueCall) (q : SftpTransferQueue) (id : ℕ) {t : SftpTransferTask}
    → q.next_id + 2 < 2 ^ 64
    → IsQueue q
    → find_task id q.tasks ≡ some t
    → is_finished t.state ≡ true
    → (find_task id (after c q).tasks ≡ some t) ⊎ (find_task id (after c q).tasks ≡ none)
finished_final c q id h i f s =
    find-Evolves _ _ id q.tasks (after c q).tasks i.given i.apart (after-Evolves c q h) f s
