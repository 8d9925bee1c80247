-- ===== src/Ssh/Plan/ProxyCommand/Approval.antt =====
-- The approval of a ProxyCommand: what it is bound to.
use rem_cmd.Prelude.{
  true, Option, none, some, ok, err, ◌≡◌, ◌≢◌, refl, arith, All, Bool-cases, inl, inr, Result-cases,
}
use rem_cmd.Prelude.Text.{Text, text_eq, text_eq_iff}
use rem_cmd.Prelude.Utf8.{Bytes, IsChar}
use rem_cmd.Ssh.Plan.{ConnectionPlan, RuntimeProxy, http_connect, socks5, proxy_command}
use rem_cmd.Ssh.Plan.ProxyCommand.{
  ProxyCommandPreview, first_step, proxy_command_approval_digest, proxy_command_preview,
  approve_proxy_command, expand_proxy_command, stale_approval,
}

-- The text of a field has characters, and none of them is the zero that ends a field.
abbrev pub IsField : Text → Type 0
IsField f = All IsChar f × All (λ c. c ≢ 0) f

module _ (sha256 : Bytes → Bytes) where
  -- What an approval leaves behind.
  pub record Approves (plan plan' : ConnectionPlan) (digest : Text) : Type 0 where
    pub preview : ProxyCommandPreview
    pub previewed : proxy_command_preview sha256 plan' ≡ ok (some preview)
    pub approved : preview.approved ≡ true
    pub by_digest : preview.approval_digest ≡ digest
    pub same_target : plan'.target ≡ plan.target
    pub same_jumps : plan'.jumps ≡ plan.jumps

  approve_command :
      (plan plan' : ConnectionPlan) (digest command expanded : Text) (a : Option Text)
      → plan.proxy ≡ some (proxy_command command a)
      → expand_proxy_command command (first_step plan.jumps plan.target).profile ≡ ok expanded
      → approve_proxy_command sha256 plan digest ≡ (plan', ok tt)
      → Approves plan plan' digest
  unfolding approve_proxy_command proxy_command_preview
  approve_command plan plan' digest command expanded a is_command expands h =
      let first = (first_step plan.jumps plan.target).profile in
      let current = proxy_command_approval_digest sha256 command first in
      elim (Bool-cases (text_eq current digest)) [
        | inl same ↦
            let e : current ≡ digest = (text_eq_iff current digest).0 same in
            let result : plan'
                ≡ record plan { proxy = some (proxy_command command (some digest)) } =
              ground (arith, same, expands) in
            rw result (record {
              preview = record {
                expanded_command = expanded;
                approval_digest = current;
                approved = true;
              };
              previewed = ground (arith, same, expands, text_eq_iff digest current);
              approved = refl;
              by_digest = e;
              same_target = refl;
              same_jumps = refl;
            })
        | inr other ↦ absurd (ground (arith, other, expands))
      ]

  approve_options :
      (plan plan' : ConnectionPlan) (digest : Text) (p : Option RuntimeProxy)
      → plan.proxy ≡ p
      → approve_proxy_command sha256 plan digest ≡ (plan', ok tt)
      → Approves plan plan' digest
  unfolding approve_proxy_command proxy_command_preview
  approve_options plan plan' digest none e h = absurd (ground arith)
  approve_options plan plan' digest (some (http_connect _ _ _ _)) e h = absurd (ground arith)
  approve_options plan plan' digest (some (socks5 _ _ _ _)) e h = absurd (ground arith)
  approve_options plan plan' digest (some (proxy_command command a)) e h =
      elim (Result-cases
        (expand_proxy_command command (first_step plan.jumps plan.target).profile)) [
          | inl (expanded, fine) ↦ approve_command plan plan' digest command expanded a e fine h
          | inr (x, bad) ↦ absurd (ground (arith, bad))
        ]

  -- After `approve_proxy_command` succeeds the preview of the new plan is approved, by the digest
  -- that was given, and the target and the jumps are as before.
  pub approve-Approves :
      (plan plan' : ConnectionPlan) (digest : Text)
      → approve_proxy_command sha256 plan digest ≡ (plan', ok tt)
      → Approves plan plan' digest
  approve-Approves plan plan' digest h = approve_options plan plan' digest plan.proxy refl h

  -- A digest that is not the one of the current preview is refused, and the plan stays as it was.
  pub approve_stale :
      (plan : ConnectionPlan) (digest : Text) {preview : ProxyCommandPreview}
      → proxy_command_preview sha256 plan ≡ ok (some preview)
      → digest ≢ preview.approval_digest
      → approve_proxy_command sha256 plan digest ≡ (plan, err stale_approval)
  unfolding approve_proxy_command
  approve_stale plan digest {preview} h ne =
      rw h (ground (arith, text_eq_iff preview.approval_digest digest))
