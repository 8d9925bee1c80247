-- ===== src/Tests/SshTests.antt =====
-- Sessions, remote paths and connection plans at concrete values.
use rem_cmd.Prelude.{is_ok, false, none, some, [], ◌∷◌, ok, ◌≡◌, ◌↔◌, refl, inr}
use rem_cmd.Prelude.Text.{Text, codes, text_eq, trim_end_matches}
use rem_cmd.Core.Profile.{new_profile}
use rem_cmd.Ssh.Error.{SshError, invalid_state}
use rem_cmd.Ssh.Session.{connecting, disconnected, default_session}
use rem_cmd.Ssh.Session.Lifecycle.{
  connect, authenticate, succeed, fail, perform, drive, Edge, Holds, perform-ok_iff,
  connected_needs_handshake,
}
use rem_cmd.Ssh.LocalPath.{unix}
use rem_cmd.Ssh.RemotePath.{join_remote_relative}
use rem_cmd.Ssh.RemotePath.Join.{IsName, IsDirectory}
use rem_cmd.Ssh.Plan.{agent, ConnectionStep, socks5, ConnectionPlan, validate}
use rem_cmd.Ssh.Plan.Validate.{IsRoute, validate_iff}

perform-ok_iff_example :
    (perform connect default_session ≡ (record { state = connecting }, ok tt))
    ↔ Edge connect disconnected connecting
perform-ok_iff_example = perform-ok_iff connect default_session (record { state = connecting })

abbrev too_early : SshError
too_early = record {
  kind = invalid_state;
  message = codes "cannot finish authentication while session is Disconnected";
  stage = none;
}

connected_needs_handshake_example :
    Holds
      (connect ∷ authenticate ∷ succeed ∷ [])
      (connect ∷ fail ∷ connect ∷ authenticate ∷ connect ∷ succeed ∷ [])
unfolding drive perform
connected_needs_handshake_example =
    connected_needs_handshake (connect ∷ fail ∷ connect ∷ authenticate ∷ connect ∷ succeed ∷ [])
      refl

abbrev logs : Text
logs = codes "/var/log"

abbrev file : Text
file = codes "app.log"

file-IsName : IsName file
file-IsName = record { nonempty = refl; no_slash = refl }

logs-IsDirectory : IsDirectory logs
unfolding text_eq trim_end_matches
logs-IsDirectory = record { not_dot = refl; trimmed = inr (refl, refl) }

-- A server's answer that tries to leave the folder stays in it.
leaves_nothing :
    join_remote_relative unix (codes "/home/me") (codes "../..//etc/./passwd")
    ≡ codes "/home/me/etc/passwd"
unfolding join_remote_relative
leaves_nothing = refl

abbrev step_at : Text → Text → ConnectionStep
step_at id host = record {
  profile = new_profile id (codes "work") host 22 (codes "me");
  auth = agent;
}

abbrev pub through_bastion : ConnectionPlan
through_bastion = record {
  proxy = some (socks5 (codes "proxy.local") 1080 none none);
  jumps = step_at (codes "b") (codes "bastion") ∷ [];
  target = step_at (codes "t") (codes "inner");
}

validate_iff_example : (validate through_bastion ≡ ok tt) ↔ IsRoute through_bastion
validate_iff_example = validate_iff through_bastion

-- The target as its own jump.
abbrev in_a_circle : ConnectionPlan
in_a_circle = record through_bastion { jumps = step_at (codes "t") (codes "inner") ∷ [] }

-- It is refused.
circular : is_ok (validate in_a_circle) ≡ false
unfolding validate
circular = refl
