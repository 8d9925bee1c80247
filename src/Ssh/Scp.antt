-- ===== src/Ssh/Scp.antt =====
-- crates/remcmd-ssh/src/scp.rs: the checks of a destination, the quoting of paths, and the commands that
-- run on the server. A command is its text.
pub mod Shell
pub mod Quoting
use rem_cmd.Prelude.{
  ℕ, ◌+◌, ◌-◌, ◌*◌, Bool, true, false, not, ◌&&◌, ◌||◌, Option, none, some, List, [], ◌∷◌, ◌++◌,
  Result, ok, err, if◌then◌else◌, ◌==◌, is_empty, any, length, take, ◌>>=◌, min,
}
use rem_cmd.Prelude.Text.{Text, codes, trim_end_matches}
use rem_cmd.Prelude.Utf8.{Bytes}
use rem_cmd.Ssh.Error.{SshError, ssh_error, configuration}
use rem_cmd.Ssh.RemotePath.{is_slash, last_part}

abbrev pub max_scp_error_bytes : ℕ
max_scp_error_bytes = 16 * 1024

abbrev pub has : ℕ → Text → Bool
has c s = any (λ x. x == c) s

unfoldable pub append_scp_error : Bytes → Bytes → Bytes
append_scp_error output received =
    let remaining = max_scp_error_bytes - length output in
    output ++ take (min (length received) remaining) received

unfoldable pub validate_remote_path : Text → Result (Unit {0}) SshError
validate_remote_path path =
    if is_empty path || has 0 path || has b'\r' path || has b'\n' path
    then err (ssh_error configuration (codes "SCP destination contains unsupported characters"))
    else ok tt

unfoldable pub remote_file_name : Text → Result Text SshError
unfolding trim_end_matches last_part
remote_file_name path =
    let name = last_part (trim_end_matches is_slash path) in
    if not (is_empty name) && not (has b'\r' name) && not (has b'\n' name)
    then ok name
    else err (ssh_error configuration (codes "SCP destination does not contain a valid file name"))

-- `value.replace('\'', "'\\''")`.
unfoldable pub quote_body : Text → Text
quote_body [] = []
quote_body (c ∷ s) =
    if c == b'\'' then b'\'' ∷ b'\\' ∷ b'\'' ∷ b'\'' ∷ quote_body s else c ∷ quote_body s

unfoldable pub shell_quote : Text → Result Text SshError
unfolding quote_body
shell_quote value =
    if has 0 value
    then err (ssh_error configuration (codes "remote path contains a null byte"))
    else ok (b'\'' ∷ (quote_body value ++ b'\'' ∷ []))

-- The command of `remove_remote_file`.
unfoldable pub remove_command : Text → Result Text SshError
unfolding shell_quote
remove_command path = shell_quote path >>= λ quoted. ok (codes "rm -f -- " ++ quoted)

-- The command of `install_remote_file` on quoted paths.
abbrev pub move_text : Bool → Text → Text → Text
move_text true temporary path = codes "mv -f -- " ++ (temporary ++ b' ' ∷ path)
move_text false temporary path =
    codes "if [ -e "
    ++ (path
        ++ (codes " ]; then exit 73; else mv -- "
            ++ (temporary ++ (b' ' ∷ (path ++ codes "; fi")))))

unfoldable pub install_command : Text → Text → Bool → Result Text SshError
unfolding shell_quote
install_command temporary_path remote_path overwrite = do
  temporary ← shell_quote temporary_path
  path ← shell_quote remote_path
  ok (move_text overwrite temporary path)
