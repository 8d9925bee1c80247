-- ===== src/Ssh/RemotePath/Join.antt =====
-- `remote_join_path` against the functions that take a path apart.
use rem_cmd.Prelude.{
  ℕ, suc, true, false, ◌&&◌, some, [], ◌∷◌, ◌++◌, ◌≡◌, ◌≢◌, refl, sym, ap, ◌∙◌, arith,
  if◌then◌else◌, ltb, length, drop, is_empty, all, Bool-cases, take-append, drop-append, ◌⊎◌, inl,
  inr,
}
use rem_cmd.Prelude.Text.{
  Text, text_eq, text_eq_iff, strip_prefix, strip_prefix-append, trim_end_matches, free_of,
  starts_with, trim_end_matches-append, trim_end_matches-free_of, rfind-append,
  trim_end_matches-rest,
}
use rem_cmd.Ssh.RemotePath.{
  is_slash, slash, dot, remote_parent_path, last_part, remote_file_name, remote_join_path,
  remote_relative_path, remote_path_is_descendant,
}

-- A file name as a server lists it: not empty, and no slash in it.
pub record IsName (name : Text) : Type 0 where
  pub nonempty : is_empty name ≡ false
  pub no_slash : free_of b'/' name ≡ true

-- A directory as the program keeps it: the root, or a path with no slash at its end. The current
-- directory "." has its own case in the code and is left out.
pub record IsDirectory (directory : Text) : Type 0 where
  pub not_dot : text_eq directory dot ≡ false
  pub trimmed :
      (directory ≡ slash)
      ⊎ ((trim_end_matches is_slash directory ≡ directory) × (is_empty directory ≡ false))

-- The directory with no slash behind it: empty for the root.
abbrev pub stem : Text → Text
stem directory = trim_end_matches is_slash directory

-- Both cases of a join are the stem, a slash and the name.
pub join-stem :
    (directory name : Text)
    → text_eq directory dot ≡ false
    → remote_join_path directory name ≡ stem directory ++ b'/' ∷ name
unfolding remote_join_path
join-stem directory name h = elim (Bool-cases (text_eq directory slash)) [
  | inl root ↦ rw ((text_eq_iff directory slash).0 root) (unfold text_eq trim_end_matches in refl)
  | inr other ↦ rw other (rw h refl)
]

trim_slash_name :
    (c : ℕ) (cs : Text)
    → IsName (c ∷ cs)
    → trim_end_matches is_slash (b'/' ∷ c ∷ cs) ≡ b'/' ∷ c ∷ cs
unfolding trim_end_matches
trim_slash_name c cs n = ground (arith, trim_end_matches-free_of b'/' (c ∷ cs) n.no_slash)

pub trim-name :
    (path name : Text)
    → IsName name
    → trim_end_matches is_slash (path ++ b'/' ∷ name) ≡ path ++ b'/' ∷ name
trim-name path [] n = cc (n.nonempty)
trim-name path (c ∷ cs) n =
    let e = trim_slash_name c cs n in
    trim_end_matches-append is_slash path (b'/' ∷ c ∷ cs) (λ z. cc (e, z)) ∙ rw e

last_part-name : (path name : Text) → IsName name → last_part (path ++ b'/' ∷ name) ≡ name
unfolding last_part
last_part-name path name n =
    rw (rfind-append b'/' path name n.no_slash, last_part) (drop_past path name)
  where
    drop_past : (xs ys : Text) → drop (suc (length xs)) (xs ++ b'/' ∷ ys) ≡ ys
    drop_past [] ys = refl
    drop_past (x ∷ xs) ys = drop_past xs ys

append_cancel : (xs : Text) {ys zs : Text} → xs ++ ys ≡ xs ++ zs → ys ≡ zs
append_cancel xs {ys} {zs} e = sym (drop-append xs ys) ∙ ap (drop (length xs)) e ∙ drop-append xs zs

-- The file name of a joined path is the name that was joined, for a directory other than "." and a
-- name that is not empty and has no slash.
pub file_name-join :
    (directory name : Text)
    → text_eq directory dot ≡ false
    → IsName name
    → remote_file_name (remote_join_path directory name) ≡ name
unfolding remote_file_name
file_name-join directory name h n = rw (join-stem directory name h) (
    rw (trim-name (stem directory) name n)
      (rw (last_part-name (stem directory) name n) (rw n.nonempty)))

-- A path with a slash in it is not ".".
pub text_eq-dot : (xs ys : Text) → text_eq (xs ++ b'/' ∷ ys) dot ≡ false
text_eq-dot [] ys = unfold text_eq in ground arith
text_eq-dot (x ∷ []) ys = unfold text_eq in ground arith
text_eq-dot (x ∷ (y ∷ xs)) ys = unfold text_eq in ground arith

-- The joined path before its last slash, as `remote_parent_path` cuts it.
parent-stem :
    (stem name : Text)
    → IsName name
    → remote_parent_path (stem ++ b'/' ∷ name) ≡ some (if is_empty stem then slash else stem)
unfolding remote_parent_path
parent-stem [] [] n = cc (n.nonempty)
parent-stem [] (c ∷ cs) n =
    rw (trim-name [] (c ∷ cs) n)
      (rw (rfind-append b'/' [] (c ∷ cs) n.no_slash) (unfold text_eq in refl))
parent-stem (x ∷ xs) name n = rw (trim-name (x ∷ xs) name n) (
    rw (rfind-append b'/' (x ∷ xs) name n.no_slash)
      (rw (take-append xs (b'/' ∷ name)) (rw (text_eq-dot (x ∷ xs) name))))

-- The parent of a joined path is the directory, if that is the root, or is not "." nor empty and
-- does not end in a slash, and if the name is not empty and has no slash.
pub parent-join :
    (directory name : Text)
    → IsDirectory directory
    → IsName name
    → remote_parent_path (remote_join_path directory name) ≡ some directory
parent-join directory name d n =
    rw (join-stem directory name d.not_dot)
      (parent-stem (stem directory) name n ∙ ap some (whole d.trimmed))
  where
    whole :
        (directory ≡ slash)
          ⊎ ((trim_end_matches is_slash directory ≡ directory) × (is_empty directory ≡ false))
        → (if is_empty (stem directory) then slash else stem directory) ≡ directory
    whole (inl root) = rw root (unfold trim_end_matches in refl)
    whole (inr (kept, some_text)) = rw kept (rw some_text)

-- What was joined behind the stem differs from the directory, which has only slashes there.
stem-ne-directory :
    (directory name : Text) → IsName name → stem directory ++ b'/' ∷ name ≢ directory
stem-ne-directory directory name n e =
    let (gone, split_off, slashes) = trim_end_matches-rest is_slash directory in
    no_name name gone n slashes (append_cancel (stem directory) (e ∙ split_off))
  where
    no_name : (name gone : Text) → IsName name → all is_slash gone ≡ true → b'/' ∷ name ≢ gone
    no_name [] gone n h e = cc (n.nonempty)
    no_name (c ∷ cs) gone n h e = ground (arith, n.no_slash, ap (all is_slash) e)

text_eq-false : (a b : Text) → a ≢ b → text_eq a b ≡ false
text_eq-false a b h = elim (Bool-cases (text_eq a b)) [
  | inl same ↦ absurd (h ((text_eq_iff a b).0 same))
  | inr other ↦ other
]

-- The path of a joined path relative to the directory is the name, for a directory other than "."
-- and a name that is not empty and has no slash.
pub relative-join :
    (directory name : Text)
    → text_eq directory dot ≡ false
    → IsName name
    → remote_relative_path directory (remote_join_path directory name) ≡ some name
unfolding remote_relative_path strip_prefix
relative-join directory name h n = rw (join-stem directory name h) (
    rw (text_eq-false _ _ (stem-ne-directory directory name n))
      (rw (strip_prefix-append (stem directory) (b'/' ∷ name))))

-- A joined path is a descendant of its directory, for a directory other than "." and a name that
-- is not empty and has no slash.
pub descendant-join :
    (directory name : Text)
    → text_eq directory dot ≡ false
    → IsName name
    → remote_path_is_descendant directory (remote_join_path directory name) ≡ true
unfolding remote_path_is_descendant
descendant-join directory name h n = rw (join-stem directory name h) (
    rw (text_eq-false _ _ (λ e. stem-ne-directory directory name n (sym e)))
      (elim (Bool-cases (text_eq directory slash)) [
        | inl root ↦ rw (root, (text_eq_iff directory slash).0 root) (root_case name n)
        | inr other ↦ rw other (rw (strip_prefix-append (stem directory) (b'/' ∷ name)))
      ]))
  where
    root_case :
        (name : Text)
        → IsName name
        → (starts_with b'/' (stem slash ++ b'/' ∷ name)
            && ltb 1 (length (stem slash ++ b'/' ∷ name)))
          ≡ true
    root_case [] n = cc (n.nonempty)
    root_case (c ∷ cs) n = unfold trim_end_matches in ground arith
