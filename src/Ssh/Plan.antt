-- ===== src/Ssh/Plan.antt =====
-- crates/remcmd-ssh/src/plan.rs: the runtime route to a target, its validation, and the approval of
-- a ProxyCommand. SHA-256 is a parameter; secrets are their text.
pub mod Validate
pub mod ProxyCommand
use rem_cmd.Prelude.{
  ℕ, Bool, true, false, not, ◌&&◌, ◌||◌, Option, none, some, List, [], ◌∷◌, ◌++◌, Result, ok, err,
  ◌>>=◌, ◌>>◌, guard, if◌then◌else◌, ◌==◌, is_empty, ok_or, zero, suc,
}
use rem_cmd.Prelude.Text.{Text, codes, text_eq, trim}
use rem_cmd.Core.Profile.{ConnectionProfile}
use rem_cmd.Ssh.Error.{SshError, ssh_error, configuration, proxy_command_approval}

-- `AuthMethod` of auth.rs.
pub data AuthMethod : Type 0 where
  no_auth : AuthMethod
  password : Text → AuthMethod
  private_key : Text → Option Text → AuthMethod
  agent : AuthMethod

pub record ConnectionStep : Type 0 where
  pub profile : ConnectionProfile
  pub auth : AuthMethod

pub data RuntimeProxy : Type 0 where
  http_connect : Text → ℕ → Option Text → Option Text → RuntimeProxy
  socks5 : Text → ℕ → Option Text → Option Text → RuntimeProxy
  proxy_command : Text → Option Text → RuntimeProxy

abbrev pub is_proxy_command : RuntimeProxy → Bool
is_proxy_command (http_connect h p u w) = false
is_proxy_command (socks5 h p u w) = false
is_proxy_command (proxy_command c a) = true

pub record ConnectionPlan : Type 0 where
  pub target : ConnectionStep
  pub jumps : List ConnectionStep
  pub proxy : Option RuntimeProxy

-- `direct`, and `new` of a step.
abbrev pub direct : ConnectionProfile → AuthMethod → ConnectionPlan
direct p a = record { target = record { profile = p; auth = a }; jumps = []; proxy = none }

unfoldable pub set_proxy : ConnectionPlan → RuntimeProxy → ConnectionPlan
set_proxy plan p = record plan { proxy = some p }

unfoldable pub push_jump : ConnectionPlan → ConnectionStep → ConnectionPlan
push_jump plan jump = record plan { jumps = plan.jumps ++ jump ∷ [] }

abbrev pub Checked : Type 0
Checked = Result (Unit {0}) SshError

abbrev pub refuse : Text → SshError
refuse = ssh_error configuration

-- The `HashSet` of the jump ids seen so far.
abbrev pub seen_before : Text → List Text → Bool
seen_before id [] = false
seen_before id (x ∷ xs) = text_eq x id || seen_before id xs

unfoldable pub check_jumps : Text → List Text → List ConnectionStep → Checked
unfolding text_eq
check_jumps target_id jump_ids [] = ok tt
check_jumps target_id jump_ids (jump ∷ jumps) =
    let id = jump.profile.id in
    let rest = check_jumps target_id (id ∷ jump_ids) jumps in
    if text_eq id target_id
    then err (refuse (codes "a connection cannot use itself as a jump host"))
    else if seen_before id jump_ids
    then err (refuse (codes "a jump host cannot appear more than once"))
    else rest

-- `s.trim().is_empty()`.
abbrev pub is_blank : Text → Bool
is_blank s = is_empty (trim s)

unfoldable pub check_steps : List ConnectionStep → Checked
check_steps [] = ok tt
check_steps (step ∷ steps) =
    let p = step.profile in
    let rest = check_steps steps in
    if is_blank p.host || is_blank p.username || p.port == 0
    then err (refuse (codes "every connection step requires a host, port, and username"))
    else rest

abbrev pub credentials_are_valid : Option Text → Option Text → Bool
credentials_are_valid none none = true
credentials_are_valid (some username) (some w) = not (is_blank username)
credentials_are_valid _ _ = false

abbrev pub check_endpoint : Text → ℕ → Option Text → Option Text → Checked
check_endpoint host port username w =
    if is_blank host || port == 0 || not (credentials_are_valid username w)
    then err (refuse (codes "proxy host, port, username, and password configuration is incomplete"))
    else ok tt

unfoldable pub check_proxy : Option RuntimeProxy → Checked
check_proxy none = ok tt
check_proxy (some (http_connect h p u w)) = check_endpoint h p u w
check_proxy (some (socks5 h p u w)) = check_endpoint h p u w
check_proxy (some (proxy_command c a)) =
    if is_blank c then err (refuse (codes "ProxyCommand cannot be empty")) else ok tt

abbrev pub uses_proxy_command : Option RuntimeProxy → Bool
uses_proxy_command none = false
uses_proxy_command (some p) = is_proxy_command p

unfoldable pub validate : ConnectionPlan → Checked
unfolding check_jumps check_steps check_proxy
validate plan =
    if uses_proxy_command plan.proxy && not (is_empty plan.jumps)
    then err (refuse (codes "ProxyCommand and jump hosts cannot be used together"))
    else do
      check_jumps plan.target.profile.id [] plan.jumps
      check_steps (plan.jumps ++ plan.target ∷ [])
      check_proxy plan.proxy
