-- ===== src/Ssh/RemotePath/Depth.antt =====
-- `remote_path_depth`, by which an upload plan sorts its directories.
use mathlib.Core.List.{append-nil}
use rem_cmd.Prelude.{◌+◌, ◌≡◌, refl, ◌∙◌, ap, sym, List, [], ◌∷◌, ◌++◌, true, false, arith, all}
use rem_cmd.Prelude.Text.{Text, text_eq, split, split-append, split-free_of, trim_end_matches-rest}
use rem_cmd.Ssh.RemotePath.{is_slash, dot, count_nonempty, remote_path_depth, remote_join_path}
use rem_cmd.Ssh.RemotePath.Join.{IsName, stem, join-stem}

count_nonempty-append :
    (xs ys : List Text) → count_nonempty (xs ++ ys) ≡ count_nonempty xs + count_nonempty ys
unfolding count_nonempty
count_nonempty-append [] ys = omega arith
count_nonempty-append (x ∷ xs) ys = omega (arith, count_nonempty-append xs ys)

pub depth-append :
    (xs ys : Text)
    → remote_path_depth (xs ++ b'/' ∷ ys) ≡ remote_path_depth xs + remote_path_depth ys
unfolding remote_path_depth
depth-append xs ys =
    ap count_nonempty (split-append b'/' xs ys)
    ∙ count_nonempty-append (split b'/' xs) (split b'/' ys)

depth-slashes : (gone : Text) → all is_slash gone ≡ true → remote_path_depth gone ≡ 0
unfolding remote_path_depth split count_nonempty
depth-slashes [] h = refl
depth-slashes (c ∷ gone) h = ground (arith, depth-slashes gone)

-- Slashes at the end do not count.
depth-append_slashes :
    (xs gone : Text)
    → all is_slash gone ≡ true
    → remote_path_depth (xs ++ gone) ≡ remote_path_depth xs
depth-append_slashes xs [] h = rw append-nil
depth-append_slashes xs (c ∷ gone) h =
    let e : c ≡ b'/' = ground arith in
    rw e (omega (arith, depth-append xs gone, depth-slashes gone (ground arith)))

depth-stem : (directory : Text) → remote_path_depth (stem directory) ≡ remote_path_depth directory
depth-stem directory =
    let (gone, split_off, slashes) = trim_end_matches-rest is_slash directory in
    sym (ap remote_path_depth split_off ∙ depth-append_slashes (stem directory) gone slashes)

depth-name : (name : Text) → IsName name → remote_path_depth name ≡ 1
unfolding remote_path_depth count_nonempty
depth-name name n = rw (split-free_of b'/' name n.no_slash) (rw n.nonempty)

-- A joined path is one level deeper than its directory, for a directory other than "." and a name
-- that is not empty and has no slash.
pub depth-join :
    (directory name : Text)
    → text_eq directory dot ≡ false
    → IsName name
    → remote_path_depth (remote_join_path directory name) ≡ remote_path_depth directory + 1
depth-join directory name h n =
    rw (join-stem directory name h)
      (omega (arith, depth-append (stem directory) name, depth-stem directory, depth-name name n))
