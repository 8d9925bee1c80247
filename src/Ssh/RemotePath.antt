-- ===== src/Ssh/RemotePath.antt =====
-- crates/remcmd-ssh/src/remote_path.rs. A remote path is its text.
pub mod Join
pub mod Contained
pub mod Depth
use rem_cmd.Prelude.{
  ℕ, suc, Bool, true, false, not, ◌&&◌, Option, none, some, List, [], ◌∷◌, ◌++◌, if◌then◌else◌,
  ◌==◌, ltb, length, take, drop, is_empty, and_then, ◌+◌, ◌||◌, zero,
}
use rem_cmd.Ssh.LocalPath.{Host, path_join}
use rem_cmd.Prelude.Text.{
  Text, codes, text_eq, strip_prefix, trim_end_matches, rfind, split, starts_with,
}

abbrev pub is_slash : ℕ → Bool
is_slash c = c == b'/'

abbrev pub slash : Text
slash = b'/' ∷ []

abbrev pub dot : Text
dot = b'.' ∷ []

abbrev pub dot_dot : Text
dot_dot = b'.' ∷ b'.' ∷ []

-- `Some("/".into()).filter(|_| path != "/")` and the other two arms, on the trimmed path.
abbrev parent_at : Text → Option ℕ → Option Text
parent_at path (some zero) = if text_eq path slash then none else some slash
parent_at path (some (suc i)) = some (take (suc i) path)
parent_at path none = some dot

unfoldable pub remote_parent_path : Text → Option Text
unfolding text_eq trim_end_matches rfind
remote_parent_path full =
    let path = trim_end_matches is_slash full in
    if is_empty path || text_eq path dot then none else parent_at path (rfind b'/' path)

-- `rsplit('/').next()`: what follows the last slash.
unfoldable pub last_part : Text → Text
unfolding rfind
last_part path = elim (rfind b'/' path) [ none ↦ path | some i ↦ drop (suc i) path ]

unfoldable pub remote_file_name : Text → Text
unfolding trim_end_matches last_part
remote_file_name path =
    let name = last_part (trim_end_matches is_slash path) in
    if not (is_empty name) then name else codes "download"

unfoldable pub remote_join_path : Text → Text → Text
unfolding text_eq trim_end_matches
remote_join_path directory name =
    if text_eq directory slash
    then slash ++ name
    else if text_eq directory dot
    then name
    else trim_end_matches is_slash directory ++ b'/' ∷ name

unfoldable pub remote_relative_path : Text → Text → Option Text
unfolding text_eq strip_prefix trim_end_matches
remote_relative_path root path =
    if text_eq path root
    then some []
    else and_then (strip_prefix (trim_end_matches is_slash root) path) (strip_prefix slash)

-- The components that the `filter` lets through.
abbrev pub is_plain : Text → Bool
is_plain component =
    not (is_empty component) && not (text_eq component dot) && not (text_eq component dot_dot)

unfoldable pub join_components : Host → Text → List Text → Text
unfolding path_join text_eq
join_components host path [] = path
join_components host path (c ∷ cs) =
    join_components host (if is_plain c then path_join host path c else path) cs

unfoldable pub join_remote_relative : Host → Text → Text → Text
unfolding join_components split
join_remote_relative host root relative = join_components host root (split b'/' relative)

-- `candidate.len() > 1`, where the first character is a slash: a second character is there.
unfoldable pub remote_path_is_descendant : Text → Text → Bool
unfolding text_eq strip_prefix trim_end_matches
remote_path_is_descendant parent candidate =
    if text_eq parent candidate
    then false
    else if text_eq parent slash
    then starts_with b'/' candidate && ltb 1 (length candidate)
    else elim (strip_prefix (trim_end_matches is_slash parent) candidate) [
      | none ↦ false
      | some suffix ↦ starts_with b'/' suffix
    ]

unfoldable pub count_nonempty : List Text → ℕ
count_nonempty [] = 0
count_nonempty (c ∷ cs) = (if not (is_empty c) then 1 else 0) + count_nonempty cs

unfoldable pub remote_path_depth : Text → ℕ
unfolding split count_nonempty
remote_path_depth path = count_nonempty (split b'/' path)
