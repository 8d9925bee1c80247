-- ===== src/Ssh/Connection/Setup/Authenticated.antt =====
-- A run of the setup that reaches the shell has authenticated every step of its plan.
use rem_cmd.Prelude.{
  ap, arith, ◌≤◌, ◌+◌, suc, zero, length-append, map-append, Option, some, none, get_elem?,
  if◌then◌else◌, if_either, ℕ, true, ◌≡◌, refl, subst, ◌∙◌, List, [], ◌∷◌, ◌++◌, map, Bool-cases,
  inl, inr, Result, ok, err, length, ◌==◌, is_some,
}
use rem_cmd.Core.Pty.{PtySize}
use rem_cmd.Ssh.Error.{SshError, ConnectionStage, jump_stage, target_stage}
use rem_cmd.Ssh.Session.{
  begin_connect, mark_connected, connecting, authenticating, connected, transition, state_eq,
}
use rem_cmd.Ssh.Plan.{ConnectionStep, ConnectionPlan, validate}
use rem_cmd.Ssh.Connection.{
  kind, state_changed, resized, PendingResult, completed, hung_up, wait_for_operation,
}
use rem_cmd.Ssh.Connection.Worker.{
  Worker, Progress, ended, going, ◌>>>◌, send_or, close_shell, fail_after,
}
use rem_cmd.Ssh.Connection.Setup.{
  StepScript, ShellScript, plan_steps, jump_steps, size_eq, fail_before, resize_shell, mark,
  finish_shell, shell_opened, open_shell, plan_checked, new_worker, run_connection_plan,
}
use rem_cmd.Ssh.Connection.Setup.Ordered.{
  Success, successes, Counts, Leads, then-Leads, send_or-Leads, checked-Leads,
}
use rem_cmd.Ssh.Connection.Setup.Granted.{success, AreGranted, IsReached, connect_steps-IsReached}

-- The end of the setup, which also marks the session.
unfoldable IsReady : List Success → Progress → Type 0
unfolding Counts
IsReady l (ended w) = Unit {0}
IsReady l (going w) = Counts l w × w.session.state ≡ connected

mark-IsReady :
    (l : List Success) → (w : Worker) → Counts l w → IsReady l (mark (mark_connected w.session) w)
unfolding IsReady Counts mark_connected transition fail_before
mark-IsReady l w counts = elim (Bool-cases (state_eq w.session.state authenticating)) [
  | inl t ↦ rw t (counts, refl)
  | inr f ↦ rw f tt
]

then-IsReady :
    (l m : List Success)
    → (p : Progress) → (next : Worker → Progress) → Leads l p
    → ((w : Worker) → Counts l w → IsReady m (next w))
    → IsReady m (p >>> next)
unfolding Leads IsReady
then-IsReady l m (ended w) next leads continue = tt
then-IsReady l m (going w) next leads continue = continue w leads

kept-IsReady :
    (l : List Success)
    → (p : Progress) → IsReady l p
    → IsReady l (p >>> send_or close_shell (state_changed connected))
unfolding IsReady send_or Counts successes
kept-IsReady l (ended w) is_ready = tt
kept-IsReady l (going w) is_ready = if_either (IsReady l) (w.room == 0) tt is_ready

resize_shell-Leads :
    (l : List Success)
    → (size : PtySize) → (resizing : Result (Unit {0}) SshError) → (w : Worker) → Counts l w
    → Leads l (resize_shell size resizing w)
unfolding Leads fail_before
resize_shell-Leads l size (ok _) w counts = counts
resize_shell-Leads l size (err error) w counts =
    if_either (Leads l) (size_eq w.latest_size size) counts tt

finish_shell-IsReady :
    (l : List Success)
    → (size : PtySize) → (resizing : Result (Unit {0}) SshError) → (w : Worker) → Counts l w
    → IsReady l (finish_shell size resizing w)
unfolding finish_shell successes
finish_shell-IsReady l size resizing w counts = kept-IsReady l _ (
    then-IsReady l l _ _
      (then-Leads l l _ _ (resize_shell-Leads l size resizing w counts)
        (λ v. send_or-Leads l close_shell (resized v.latest_size) v refl))
      (mark-IsReady l))

shell_opened-IsReady :
    (l : List Success)
    → (resizing : Result (Unit {0}) SshError) → (w : Worker)
    → (r : PendingResult (Unit {0}) × PtySize) → Counts l w
    → IsReady l (shell_opened resizing w r)
unfolding shell_opened IsReady Counts fail_before
shell_opened-IsReady l resizing w (completed (ok _), size) counts =
    finish_shell-IsReady l w.latest_size resizing (record w { latest_size = size }) counts
shell_opened-IsReady l resizing w (completed (err error), size) counts = tt
shell_opened-IsReady l resizing w (hung_up, size) counts = tt

open_shell-IsReady :
    (l : List Success)
    → (script : ShellScript) → (w : Worker) → Counts l w
    → IsReady l (open_shell script w)
unfolding open_shell
open_shell-IsReady l script w =
    shell_opened-IsReady l script.resizing w (wait_for_operation script.opening w.latest_size)

plan_checked-Leads :
    (l : List Success)
    → (r : Result (Unit {0}) SshError) → (w : Worker) → Counts l w
    → Leads l (plan_checked r w)
unfolding Leads fail_after
plan_checked-Leads l (ok _) w counts = counts
plan_checked-Leads l (err error) w counts = tt

-- The shell, behind steps that the server has accepted.
unfoldable IsAuthenticated : (ℕ → StepScript) → List Success → Progress → Type 0
IsAuthenticated network l (ended w) = Unit {0}
IsAuthenticated network l (going w) =
    Counts l w × AreGranted network l × w.session.state ≡ connected

granted-IsAuthenticated :
    (network : ℕ → StepScript)
    → (l : List Success) → (p : Progress) → AreGranted network l
    → IsReady l p
    → IsAuthenticated network l p
unfolding IsReady IsAuthenticated
granted-IsAuthenticated network l (ended w) granted is_ready = tt
granted-IsAuthenticated network l (going w) granted (counts, state) = (counts, granted, state)

then-IsAuthenticated :
    (network : ℕ → StepScript)
    → (l : List Success) → (p : Progress) → (next : Worker → Progress) → IsReached network l p
    → ((w : Worker) → Counts l w → IsReady l (next w))
    → IsAuthenticated network l (p >>> next)
unfolding IsReached IsAuthenticated
then-IsAuthenticated network l (ended w) next reached continue = tt
then-IsAuthenticated network l (going w) next (counts, granted) continue =
    granted-IsAuthenticated network l (next w) granted (continue w counts)

before-IsReached :
    (network : ℕ → StepScript)
    → (l : List Success) → (p : Progress) → (next : Worker → Progress) → Leads [] p
    → ((w : Worker) → Counts [] w → IsReached network l (next w))
    → IsReached network l (p >>> next)
unfolding Leads IsReached
before-IsReached network l (ended w) next leads continue = tt
before-IsReached network l (going w) next leads continue = continue w leads

run_connection_plan-IsAuthenticated :
    (plan : ConnectionPlan)
    → (network : ℕ → StepScript) → (shell : ShellScript) → (w : Worker) → Counts [] w
    → IsAuthenticated network
        (map success (plan_steps plan))
        (run_connection_plan plan network shell w)
unfolding run_connection_plan successes AreGranted
run_connection_plan-IsAuthenticated plan network shell w counts =
    let reported = map success (plan_steps plan) in
    then-IsAuthenticated network reported _ _
      (before-IsReached network reported _ _
        (then-Leads [] [] _ _
          (checked-Leads [] (λ v. v) (begin_connect w.session) (state_changed connecting) w
            (λ _. refl) counts)
          (plan_checked-Leads [] (validate plan)))
        (λ v none_yet.
          connect_steps-IsReached network [] true (is_some plan.proxy) (plan_steps plan) v none_yet
            (λ i h. ground arith)))
      (open_shell-IsReady reported shell)

-- The success of the jump host that stands at an index, and behind the last one that of the target.
unfoldable pub success_at : ConnectionPlan → ℕ → Option Success
unfolding kind
success_at plan i = elim (get_elem? plan.jumps i) [
  | some jump ↦ some (jump_stage (i + 1) (length plan.jumps) jump.profile.id, kind jump.auth)
  | none ↦
      if i == length plan.jumps
      then some (target_stage plan.target.profile.id, kind plan.target.auth)
      else none
]

jump_steps-success :
    (k total : ℕ)
    → (jumps : List ConnectionStep) → (target : Success) → (i : ℕ)
    → get_elem? (map success (jump_steps k total jumps) ++ target ∷ []) i
      ≡ elim (get_elem? jumps i) [
        | some jump ↦ some (jump_stage (k + i + 1) total jump.profile.id, kind jump.auth)
        | none ↦ if i == length jumps then some target else none
      ]
unfolding jump_steps success
jump_steps-success k total [] target zero = refl
jump_steps-success k total [] target (suc i) = ground arith
jump_steps-success k total (jump ∷ jumps) target zero =
    ap (λ n. some (jump_stage n total jump.profile.id, kind jump.auth)) (omega arith)
jump_steps-success k total (jump ∷ jumps) target (suc i) =
    jump_steps-success (k + 1) total jumps target i ∙ shifted (get_elem? jumps i)
  where
    shifted :
        (o : Option ConnectionStep)
        → elim o [
          | some jump₁ ↦ some (jump_stage (k + 1 + i + 1) total jump₁.profile.id, kind jump₁.auth)
          | none ↦ if i == length jumps then some target else none
        ]
          ≡ elim o [
            | some jump₁ ↦ some (jump_stage (k + suc i + 1) total jump₁.profile.id, kind jump₁.auth)
            | none ↦ if suc i == suc (length jumps) then some target else none
          ]
    shifted none = ground arith
    shifted (some jump₁) =
        ap (λ n. some (jump_stage n total jump₁.profile.id, kind jump₁.auth)) (omega arith)

length-jump_steps :
    (k total : ℕ) → (jumps : List ConnectionStep) → length (jump_steps k total jumps) ≡ length jumps
unfolding jump_steps
length-jump_steps k total [] = refl
length-jump_steps k total (jump ∷ jumps) = ap suc (length-jump_steps (k + 1) total jumps)

length-map-success :
    (steps : List (ConnectionStep × ConnectionStage)) → length (map success steps) ≡ length steps
length-map-success [] = refl
length-map-success (step ∷ steps) = ap suc (length-map-success steps)

plan_steps-success :
    (plan : ConnectionPlan)
    → (i : ℕ) → get_elem? (map success (plan_steps plan)) i ≡ success_at plan i
unfolding plan_steps success success_at
plan_steps-success plan i =
    ap (λ l. get_elem? l i)
      (map-append success (jump_steps 0 (length plan.jumps) plan.jumps)
        ((plan.target, target_stage plan.target.profile.id) ∷ []))
    ∙ jump_steps-success 0 (length plan.jumps) plan.jumps
        (target_stage plan.target.profile.id, kind plan.target.auth) i
    ∙ numbered (get_elem? plan.jumps i)
  where
    last : Option Success
    last =
        if i == length plan.jumps
        then some (target_stage plan.target.profile.id, kind plan.target.auth)
        else none

    numbered :
        (o : Option ConnectionStep)
        → elim o [
          | some jump ↦
              some (jump_stage (0 + i + 1) (length plan.jumps) jump.profile.id, kind jump.auth)
          | none ↦ last
        ]
          ≡ elim o [
            | some jump ↦
                some (jump_stage (i + 1) (length plan.jumps) jump.profile.id, kind jump.auth)
            | none ↦ last
          ]
    numbered none = refl
    numbered (some jump) =
        ap (λ n. some (jump_stage n (length plan.jumps) jump.profile.id, kind jump.auth))
          (omega arith)

length-plan_steps :
    (plan : ConnectionPlan) → length (map success (plan_steps plan)) ≡ suc (length plan.jumps)
unfolding plan_steps
length-plan_steps plan =
    let steps = jump_steps 0 (length plan.jumps) plan.jumps in
    let target : List (ConnectionStep × ConnectionStage) =
      (plan.target, target_stage plan.target.profile.id) ∷ [] in
    omega (
      arith,
      length-map-success (steps ++ target),
      length-append steps target,
      length-jump_steps 0 (length plan.jumps) plan.jumps,
    )

-- A worker that goes on to the shell has a connected session; the server has accepted the
-- authentication of every step of the plan, the jump hosts and the target; and what was reported is one
-- success for each of them, in the order of the plan, with its stage and method and nothing behind.
pub run_connection_plan-authenticates :
    (plan : ConnectionPlan)
    → (network : ℕ → StepScript) → (shell : ShellScript) → (size : PtySize) → (room i : ℕ)
    → (v : Worker) → run_connection_plan plan network shell (new_worker size room) ≡ going v
    → v.session.state ≡ connected
      × ((k : ℕ) → k ≤ length plan.jumps → (network k).authentication.result ≡ ok tt)
      × get_elem? (successes v.actions) i ≡ success_at plan i
unfolding IsAuthenticated AreGranted Counts successes
run_connection_plan-authenticates plan network shell size room i v h =
    let reported = map success (plan_steps plan) in
    let start : Counts [] (new_worker size room) = (refl, refl) in
    let (counts, granted, state) =
      subst (IsAuthenticated network reported) h
        (run_connection_plan-IsAuthenticated plan network shell (new_worker size room) start) in
    (
      state,
      λ k below. granted k (omega (arith, below, length-plan_steps plan)),
      ap (λ l. get_elem? l i) counts.0 ∙ plan_steps-success plan i,
    )
