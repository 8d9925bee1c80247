-- ===== src/Ssh/Error.antt =====
-- crates/remcmd-ssh/src/error.rs: `SshError`. The stage is that of plan.rs, so its type stands here.
use rem_cmd.Prelude.{ℕ, Option, none, some, if◌then◌else◌, is_none}
use rem_cmd.Prelude.Text.{Text}

pub data SshErrorKind : Type 0 where
  invalid_state configuration network proxy proxy_authentication : SshErrorKind
  proxy_command_approval host_key_untrusted host_key_changed : SshErrorKind
  host_key_persistence host_key_verification authentication : SshErrorKind
  private_key_passphrase timeout protocol sftp : SshErrorKind

-- `ConnectionStage` of plan.rs.
pub data ConnectionStage : Type 0 where
  proxy_stage : ConnectionStage
  jump_stage : ℕ → ℕ → Text → ConnectionStage
  target_stage : Text → ConnectionStage

unfoldable pub profile_id : ConnectionStage → Option Text
profile_id proxy_stage = none
profile_id (jump_stage index total id) = some id
profile_id (target_stage id) = some id

pub record SshError : Type 0 where
  pub kind : SshErrorKind
  pub message : Text
  pub stage : Option ConnectionStage

-- `SshError::new`.
abbrev pub ssh_error : SshErrorKind → Text → SshError
ssh_error kind message = record { kind = kind; message = message; stage = none }

unfoldable pub at_stage : SshError → ConnectionStage → SshError
at_stage e s = if is_none e.stage then record e { stage = some s } else e
