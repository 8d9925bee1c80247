-- ===== src/Sftp/Browser/Breadcrumbs/Trail.antt =====
-- Each link is one step below the one before it.
use rem_cmd.Prelude.{
  true, false, not, some, List, [], ◌∷◌, ◌++◌, ◌≡◌, refl, arith, is_empty, retain, All, Bool-cases,
  inl, inr, append_assoc, ◌∙◌,
}
use rem_cmd.Prelude.Text.{Text, text_eq, split, split-All, starts_with, free_of, trim_end_matches}
use rem_cmd.Ssh.RemotePath.{slash, remote_parent_path, remote_join_path, remote_file_name}
use rem_cmd.Ssh.RemotePath.Join.{
  IsName, IsDirectory, stem, join-stem, trim-name, text_eq-dot, parent-join, file_name-join,
}
use rem_cmd.Sftp.Browser.Breadcrumbs.{crumbs_from, remote_breadcrumbs}

-- A trail of links from a path on: each is labelled with the name that leads to it from the one
-- before it, and that is the parent of its path.
pub data IsTrail : Text → List (Text × Text) → Type 0 where
  ended : {path : Text} → IsTrail path []
  step :
      {path name target : Text} {rest : List (Text × Text)}
      → remote_join_path path name ≡ target
      → remote_parent_path target ≡ some path
      → remote_file_name target ≡ name
      → IsTrail target rest
      → IsTrail path ((name, target) ∷ rest)

-- A directory and what stands in front of the slash that comes next.
record IsAt (target directory : Text) : Type 0 where
  is_directory : IsDirectory directory
  trimmed : stem directory ≡ target

next-IsAt :
    (target name : Text) → IsName name → IsAt (target ++ b'/' ∷ name) (target ++ b'/' ∷ name)
next-IsAt target name n =
    let kept = trim-name target name n in
    record {
      is_directory = record {
        not_dot = text_eq-dot target name;
        trimmed = inr (kept, nonempty target);
      };
      trimmed = kept;
    }
  where
    nonempty : (xs : Text) → is_empty (xs ++ b'/' ∷ name) ≡ false
    nonempty [] = refl
    nonempty (x ∷ xs) = refl

crumbs_from-IsTrail :
    (components : List Text) (target directory : Text)
    → All IsName components
    → IsAt target directory
    → IsTrail directory (crumbs_from target components)
unfolding crumbs_from
crumbs_from-IsTrail [] target directory names h = ended
crumbs_from-IsTrail (c ∷ cs) target directory names h =
    let same : (target ++ slash) ++ c ≡ target ++ b'/' ∷ c = append_assoc target slash c in
    let joined : remote_join_path directory c ≡ target ++ b'/' ∷ c =
      join-stem directory c h.is_directory.not_dot ∙ rw h.trimmed refl in
    rw same (
      step joined (rw (← joined) (parent-join directory c h.is_directory names.0))
        (rw (← joined) (file_name-join directory c h.is_directory.not_dot names.0))
        (crumbs_from-IsTrail cs (target ++ b'/' ∷ c) (target ++ b'/' ∷ c) names.1
          (next-IsAt target c names.0)))

names_of :
    (parts : List Text)
    → All (λ part. free_of b'/' part ≡ true) parts
    → All IsName (retain (λ c. not (is_empty c)) parts)
names_of [] h = tt
names_of (c ∷ cs) h = elim (Bool-cases (is_empty c)) [
  | inl gone ↦ rw gone (names_of cs h.1)
  | inr kept ↦ rw kept (record { nonempty = kept; no_slash = h.0 }, names_of cs h.1)
]

-- The links of an absolute path start at the root, and each one is labelled with the file name of its
-- path and has the path of the link before it as its parent.
pub remote_breadcrumbs-IsTrail :
    (path : Text)
    → starts_with b'/' path ≡ true
    → (rest : List (Text × Text)) × (remote_breadcrumbs path ≡ (slash, slash) ∷ rest)
      × IsTrail slash rest
unfolding remote_breadcrumbs
remote_breadcrumbs-IsTrail path h =
    let names = names_of (split b'/' path) (split-All b'/' path) in
    let root : IsAt [] slash =
      unfold text_eq trim_end_matches in
      record {
        is_directory = record { not_dot = ground arith; trimmed = inl refl };
        trimmed = ground arith;
      } in
    (_, rw (h, remote_breadcrumbs) refl, crumbs_from-IsTrail _ [] slash names root)
