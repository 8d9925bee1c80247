-- ===== src/Ssh/Plan/ProxyCommand.antt =====
-- plan.rs: the expansion of a ProxyCommand, its approval digest, and the approval of a preview.
-- `Sha256::digest` on bytes is the parameter `sha256`.
pub mod Expansion
pub mod Approval
pub mod Binding
use rem_cmd.Prelude.{
  ℕ, Bool, true, false, not, Option, none, some, List, [], ◌∷◌, ◌++◌, Result, ok, err, ◌>>=◌,
  if◌then◌else◌, ◌==◌, ◌+◌, ◌-◌, ◌/◌, ◌%◌, ltb,
}
use rem_cmd.Prelude.Text.{Text, codes, text_eq, decimal}
use rem_cmd.Prelude.Utf8.{Bytes, encode}
use rem_cmd.Core.Profile.{ConnectionProfile}
use rem_cmd.Ssh.Error.{SshError, ssh_error, configuration, proxy_command_approval}
use rem_cmd.Ssh.Plan.{
  ConnectionStep, RuntimeProxy, http_connect, socks5, proxy_command, ConnectionPlan, Checked,
  refuse,
}

abbrev pub unsupported_token : ℕ → SshError
unsupported_token c = refuse (codes "unsupported ProxyCommand token %" ++ c ∷ [])

abbrev pub incomplete_token : SshError
incomplete_token = refuse (codes "ProxyCommand ends with an incomplete % token")

-- What a `%` with the character behind it stands for.
unfoldable pub token : ConnectionProfile → ℕ → Result Text SshError
token endpoint c =
    if c == b'%'
    then ok (b'%' ∷ [])
    else if c == b'h'
    then ok endpoint.host
    else if c == b'n'
    then ok endpoint.name
    else if c == b'p'
    then ok (decimal endpoint.port)
    else if c == b'r'
    then ok endpoint.username
    else err (unsupported_token c)

-- The `while let` loop, `output` being the text pushed so far.
unfoldable pub expand_onto : ConnectionProfile → Text → Text → Result Text SshError
unfolding token
expand_onto endpoint output [] = ok output
expand_onto endpoint output (c ∷ []) =
    if not (c == b'%') then ok (output ++ c ∷ []) else err incomplete_token
expand_onto endpoint output (c ∷ d ∷ rest) =
    let plain = expand_onto endpoint (output ++ c ∷ []) (d ∷ rest) in
    let replaced = token endpoint d >>= λ t. expand_onto endpoint (output ++ t) rest in
    if not (c == b'%') then plain else replaced

unfoldable pub expand_proxy_command : Text → ConnectionProfile → Result Text SshError
unfolding expand_onto
expand_proxy_command command endpoint = expand_onto endpoint [] command

-- `{:02x}` of a byte.
abbrev hex_digit : ℕ → ℕ
hex_digit n = if ltb n 10 then b'0' + n else b'a' + (n - 10)

unfoldable pub hex : Bytes → Text
hex [] = []
hex (b ∷ bs) = hex_digit (b / 16) ∷ hex_digit (b % 16) ∷ hex bs

-- The bytes that are hashed: each field and a zero byte behind it.
unfoldable pub hash_fields : List Text → Bytes
unfolding encode
hash_fields [] = []
hash_fields (f ∷ fs) = encode f ++ (0 ∷ hash_fields fs)

abbrev pub approval_fields : Text → ConnectionProfile → List Text
approval_fields command e = command ∷ e.name ∷ e.host ∷ decimal e.port ∷ e.username ∷ []

pub record ProxyCommandPreview : Type 0 where
  pub expanded_command : Text
  pub approval_digest : Text
  pub approved : Bool

-- `self.jumps.first().unwrap_or(&self.target)`.
abbrev pub first_step : List ConnectionStep → ConnectionStep → ConnectionStep
first_step [] target = target
first_step (jump ∷ jumps) target = jump

-- `approved_digest.as_deref() == Some(digest)`.
abbrev pub is_digest : Option Text → Text → Bool
is_digest none digest = false
is_digest (some approved) digest = text_eq approved digest

abbrev pub stale_approval : SshError
stale_approval =
    ssh_error proxy_command_approval
      (codes "ProxyCommand approval no longer matches the current target parameters")

module _ (sha256 : Bytes → Bytes) where
  unfoldable pub proxy_command_approval_digest : Text → ConnectionProfile → Text
  unfolding hex hash_fields
  proxy_command_approval_digest command endpoint =
      hex (sha256 (hash_fields (approval_fields command endpoint)))

  unfoldable pub proxy_command_content_digest : Text → Text
  unfolding hex encode
  proxy_command_content_digest command = hex (sha256 (encode command))

  preview_of : Option RuntimeProxy → ConnectionStep → Result (Option ProxyCommandPreview) SshError
  unfolding proxy_command_approval_digest expand_proxy_command text_eq
  preview_of none first = ok none
  preview_of (some (http_connect h p u w)) first = ok none
  preview_of (some (socks5 h p u w)) first = ok none
  preview_of (some (proxy_command command approved)) first = do
    expanded ← expand_proxy_command command first.profile
    let digest = proxy_command_approval_digest command first.profile
    ok (
        some (record {
          expanded_command = expanded;
          approval_digest = digest;
          approved = is_digest approved digest;
        }))

  unfoldable pub proxy_command_preview :
      ConnectionPlan → Result (Option ProxyCommandPreview) SshError
  unfolding preview_of
  proxy_command_preview plan = preview_of plan.proxy (first_step plan.jumps plan.target)

  -- `*approved_digest = Some(digest)` in the variant that the preview has verified.
  abbrev pub with_approval : Option RuntimeProxy → Text → Option RuntimeProxy
  with_approval (some (proxy_command command approved)) digest =
      some (proxy_command command (some digest))
  with_approval other digest = other

  unfoldable pub approve_with :
      ConnectionPlan
      → Text
      → Result (Option ProxyCommandPreview) SshError
      → ConnectionPlan × Checked
  unfolding text_eq
  approve_with plan digest (err e) = (plan, err e)
  approve_with plan digest (ok none) =
      (plan, err (refuse (codes "the connection plan does not contain a ProxyCommand")))
  approve_with plan digest (ok (some preview)) =
      if not (text_eq preview.approval_digest digest)
      then (plan, err stale_approval)
      else (record plan { proxy = with_approval plan.proxy digest }, ok tt)

  -- On `&mut self`: the new plan, and the result.
  unfoldable pub approve_proxy_command : ConnectionPlan → Text → ConnectionPlan × Checked
  unfolding approve_with
  approve_proxy_command plan digest = approve_with plan digest (proxy_command_preview plan)
