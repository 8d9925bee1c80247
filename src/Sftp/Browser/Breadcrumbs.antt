-- ===== src/Sftp/Browser/Breadcrumbs.antt =====
-- state.rs: `remote_breadcrumbs`, the links above a listing.
pub mod Trail
use rem_cmd.Prelude.{ℕ, not, List, [], ◌∷◌, ◌++◌, if◌then◌else◌, is_empty, retain}
use rem_cmd.Prelude.Text.{Text, split, starts_with}
use rem_cmd.Ssh.RemotePath.{slash}

-- The loop: `target` is what the components before led to. A link is a label and a path.
unfoldable pub crumbs_from : Text → List Text → List (Text × Text)
crumbs_from target [] = []
crumbs_from target (component ∷ components) =
    let next = (target ++ slash) ++ component in (component, next) ∷ crumbs_from next components

unfoldable pub remote_breadcrumbs : Text → List (Text × Text)
unfolding crumbs_from split
remote_breadcrumbs path =
    if not (starts_with b'/' path)
    then (path, path) ∷ []
    else (slash, slash) ∷ crumbs_from [] (retain (λ c. not (is_empty c)) (split b'/' path))
