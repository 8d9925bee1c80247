-- ===== src/Ssh/Connection/Setup/Granted.antt =====
-- The steps of connection.rs: which authentications they report, and which the server accepts.
use rem_cmd.Prelude.{
  ap, arith, ◌<◌, length-append, if_either, ℕ, Bool, false, ◌&&◌, ◌≡◌, refl, sym, subst, ◌∙◌, List,
  [], ◌∷◌, ◌++◌, map, append_assoc, append-nil, Bool-cases, inl, inr, Result, ok, length, ◌==◌,
}
use rem_cmd.Ssh.Error.{SshError, ConnectionStage, proxy_stage}
use rem_cmd.Ssh.Session.{begin_authentication, authenticating}
use rem_cmd.Ssh.Plan.{ConnectionStep}
use rem_cmd.Ssh.Connection.{kind, state_changed, stage_changed}
use rem_cmd.Ssh.Connection.Worker.{
  Worker, Progress, ended, going, ◌>>>◌, disconnect_established, disconnect_current,
}
use rem_cmd.Ssh.Connection.Setup.{StepScript, start_authentication, connect_step, connect_steps}
use rem_cmd.Ssh.Connection.Setup.Ordered.{
  Success, successes, Counts, Leads, then-Leads, send_or-Leads, checked-Leads, open_transport-Leads,
  authenticate-Leads, Grants, then-Grants, authenticate-Grants,
}

unfoldable pub success : ConnectionStep × ConnectionStage → Success
success (step, stage) = (stage, kind step.auth)

pub connect_step-Leads :
    (l : List Success)
    → (first with_proxy : Bool) → (step : ConnectionStep) → (stage : ConnectionStage)
    → (script : StepScript) → (w : Worker) → Counts l w
    → Leads
        (l ++ (stage, kind step.auth) ∷ [])
        (connect_step first with_proxy (step, stage) script w)
unfolding connect_step start_authentication Leads Counts successes
connect_step-Leads l first with_proxy step stage script w counts =
    then-Leads l (l ++ (stage, kind step.auth) ∷ []) _ _
      (then-Leads l l _ _
        (then-Leads l l _ _
          (then-Leads l l _ _
            (if_either (Leads l) (first && with_proxy)
              (send_or-Leads l (λ v. v) (stage_changed proxy_stage) w refl counts) counts)
            (λ v. send_or-Leads l disconnect_established (stage_changed stage) v refl))
          (open_transport-Leads l stage script.opening))
        (λ v kept.
          if_either (Leads l) first
            (checked-Leads l disconnect_current (begin_authentication v.session)
              (state_changed authenticating) v (λ _. refl) kept)
            kept))
      (authenticate-Leads l step stage script.authentication)

pub connect_step-Grants :
    (first with_proxy : Bool)
    → (step : ConnectionStep) → (stage : ConnectionStage) → (script : StepScript) → (w : Worker)
    → Grants script.authentication.result (connect_step first with_proxy (step, stage) script w)
unfolding connect_step
connect_step-Grants first with_proxy step stage script w =
    then-Grants script.authentication.result _ _
      (authenticate-Grants step stage script.authentication)

-- The server has accepted the authentication of the first steps, so many as there are successes.
unfoldable pub AreGranted : (ℕ → StepScript) → List Success → Type 0
AreGranted network l = (i : ℕ) → i < length l → (network i).authentication.result ≡ ok tt

unfoldable pub IsReached : (ℕ → StepScript) → List Success → Progress → Type 0
IsReached network l (ended w) = Unit {0}
IsReached network l (going w) = Counts l w × AreGranted network l

pub snoc-AreGranted :
    (network : ℕ → StepScript)
    → (l : List Success) → (x : Success) → AreGranted network l
    → (network (length l)).authentication.result ≡ ok tt
    → AreGranted network (l ++ x ∷ [])
unfolding AreGranted
snoc-AreGranted network l x granted last i h = elim (Bool-cases (i == length l)) [
  | inl same ↦
      let e : i ≡ length l = ground arith in
      subst (λ n. (network n).authentication.result ≡ ok tt) (sym e) last
  | inr apart ↦ granted i (ground (arith, length-append l (x ∷ [])))
]

pub joined-IsReached :
    (network : ℕ → StepScript)
    → (l : List Success) → (x : Success) → (result : Result (Unit {0}) SshError) → (p : Progress)
    → result ≡ (network (length l)).authentication.result
    → AreGranted network l
    → Leads (l ++ x ∷ []) p
    → Grants result p
    → IsReached network (l ++ x ∷ []) p
unfolding IsReached Leads Grants
joined-IsReached network l x result (ended w) e granted leads grants = tt
joined-IsReached network l x result (going w) e granted leads grants =
    (leads, snoc-AreGranted network l x granted (sym e ∙ grants))

pub then-IsReached :
    (network : ℕ → StepScript)
    → (l m : List Success) → (p : Progress) → (next : Worker → Progress) → IsReached network l p
    → ((w : Worker) → Counts l w → AreGranted network l → IsReached network m (next w))
    → IsReached network m (p >>> next)
unfolding IsReached
then-IsReached network l m (ended w) next reached continue = tt
then-IsReached network l m (going w) next (counts, granted) continue = continue w counts granted

pub connect_steps-IsReached :
    (network : ℕ → StepScript)
    → (l : List Success) → (first with_proxy : Bool)
    → (steps : List (ConnectionStep × ConnectionStage)) → (w : Worker) → Counts l w
    → AreGranted network l
    → IsReached network (l ++ map success steps) (connect_steps first with_proxy network steps w)
unfolding connect_steps IsReached Counts success
connect_steps-IsReached network l first with_proxy [] w counts granted =
    subst (λ m. IsReached network m (going w)) (sym (append-nil l)) (counts, granted)
connect_steps-IsReached network l first with_proxy ((step, stage) ∷ steps) w counts granted =
    let x : Success = (stage, kind step.auth) in
    let l' = l ++ x ∷ [] in
    let script = network (length w.established) in
    subst
      (λ m. IsReached network m (connect_steps first with_proxy network ((step, stage) ∷ steps) w))
      (append_assoc l (x ∷ []) (map success steps))
      (then-IsReached network l' (l' ++ map success steps) _ _
        (joined-IsReached network l x script.authentication.result _
          (ap (λ n. (network n).authentication.result) counts.1) granted
          (connect_step-Leads l first with_proxy step stage script w counts)
          (connect_step-Grants first with_proxy step stage script w))
        (connect_steps-IsReached network l' false with_proxy steps))
