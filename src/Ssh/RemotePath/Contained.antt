-- ===== src/Ssh/RemotePath/Contained.antt =====
-- `join_remote_relative` and the directory that it is given.
use rem_cmd.Prelude.{
  ℕ, Bool, true, false, ◌&&◌, some, List, [], ◌∷◌, ◌++◌, ◌≡◌, refl, ap, sym, ◌∙◌, arith,
  if◌then◌else◌, ◌==◌, is_empty, All, Bool-cases, inl, inr, and_then, Option-cases, subst,
}
use rem_cmd.Prelude.Text.{
  Text, text_eq, free_of, split, split-All, strip_prefix, strip_prefix-eq-some, trim_end_matches,
  cons_head,
}
use rem_cmd.Ssh.LocalPath.{
  Host, unix, windows, separator, starts_with_drive, prefix_length, starts_in_separator, is_ended,
  path_join, append_component,
}
use rem_cmd.Ssh.RemotePath.{
  is_slash, slash, is_plain, dot, dot_dot, join_components, join_remote_relative,
  remote_relative_path,
}

-- What a host other than Unix reads as the structure of a path is not in the text.
abbrev pub is_portable : Host → Text → Bool
is_portable unix s = true
is_portable windows s = free_of b'\\' s && free_of b':' s

-- One step down: a component that is neither empty nor "." nor ".." and has no separator.
pub record IsComponent (host : Host) (component : Text) : Type 0 where
  pub nonempty : is_empty component ≡ false
  pub not_dot : text_eq component dot ≡ false
  pub not_dot_dot : text_eq component dot_dot ≡ false
  pub no_slash : free_of b'/' component ≡ true
  pub portable : is_portable host component ≡ true

-- The paths reached from a root by steps down only, each behind a separator.
pub data Under (host : Host) (root : Text) : Text → Type 0 where
  here : Under host root root
  ended :
      {path : Text} {c : Text}
      → Under host root path
      → is_ended host path ≡ true
      → IsComponent host c
      → Under host root (path ++ c)
  below :
      {path : Text} {c : Text}
      → Under host root path
      → IsComponent host c
      → Under host root (path ++ separator host ∷ c)

append-Under :
    (host : Host) (root path c : Text)
    → Under host root path
    → IsComponent host c
    → Under host root (append_component host path c)
append-Under host root path c u i = elim (Bool-cases (is_ended host path)) [
  | inl e ↦ rw e (ended u e i)
  | inr e ↦ rw e (below u i)
]

unix_relative : (c : Text) → free_of b'/' c ≡ true → starts_in_separator unix c ≡ false
unfolding starts_in_separator
unix_relative [] h = refl
unix_relative (x ∷ c) h = ground arith

windows_relative :
    (c : Text)
    → free_of b'/' c ≡ true
    → is_portable windows c ≡ true
    → starts_in_separator windows c ≡ false
unfolding starts_in_separator
windows_relative [] h p = refl
windows_relative (x ∷ c) h p = ground arith

windows_no_prefix :
    (c : Text)
    → free_of b'/' c ≡ true
    → is_portable windows c ≡ true
    → (prefix_length c == 0) ≡ true
unfolding prefix_length starts_with_drive
windows_no_prefix [] h p = refl
windows_no_prefix (x ∷ []) h p = refl
windows_no_prefix (x ∷ (y ∷ c)) h p = ground arith

-- A component is joined as a relative path.
join-append :
    (host : Host) (path c : Text)
    → IsComponent host c
    → path_join host path c ≡ append_component host path c
unfolding path_join
join-append unix path c i = rw (unix_relative c i.no_slash) refl
join-append windows path c i =
    rw (windows_no_prefix c i.no_slash i.portable)
      (rw (windows_relative c i.no_slash i.portable) refl)

join-Under :
    (host : Host) (root path c : Text)
    → Under host root path
    → IsComponent host c
    → Under host root (path_join host path c)
join-Under host root path c u i = rw (join-append host path c i) (append-Under host root path c u i)

IsComponent-of :
    (host : Host) (c : Text)
    → is_plain c ≡ true
    → free_of b'/' c ≡ true
    → is_portable host c ≡ true
    → IsComponent host c
IsComponent-of host c h f p = record {
  nonempty = ground arith;
  not_dot = ground arith;
  not_dot_dot = ground arith;
  no_slash = f;
  portable = p;
}

join_components-Under :
    (host : Host) (root path : Text) (cs : List Text)
    → Under host root path
    → All (λ c. free_of b'/' c ≡ true) cs
    → All (λ c. is_portable host c ≡ true) cs
    → Under host root (join_components host path cs)
unfolding join_components
join_components-Under host root path [] u h p = u
join_components-Under host root path (c ∷ cs) u h p = elim (Bool-cases (is_plain c)) [
  | inl plain ↦
      let deeper = join-Under host root path c u (IsComponent-of host c plain h.0 p.0) in
      rw plain (join_components-Under host root (path_join host path c) cs deeper h.1 p.1)
  | inr other ↦ rw other (join_components-Under host root path cs u h.1 p.1)
]

portable_head :
    (host : Host) (x : ℕ) (s : Text)
    → is_portable host (x ∷ s) ≡ true
    → is_portable host (x ∷ []) ≡ true × is_portable host s ≡ true
portable_head unix x s h = (refl, refl)
portable_head windows x s h = (ground arith, ground arith)

portable_cons :
    (host : Host) (x : ℕ) (s : Text)
    → is_portable host (x ∷ []) ≡ true
    → is_portable host s ≡ true
    → is_portable host (x ∷ s) ≡ true
portable_cons unix x s h p = refl
portable_cons windows x s h p = ground arith

portable_empty : (host : Host) → is_portable host [] ≡ true
portable_empty unix = refl
portable_empty windows = refl

module _ (host : Host) where
  portable_rest : (p s : Text) → is_portable host (p ++ s) ≡ true → is_portable host s ≡ true
  portable_rest [] s h = h
  portable_rest (x ∷ p) s h = portable_rest p s (portable_head host x (p ++ s) h).1

  split-portable :
      (s : Text) → is_portable host s ≡ true → All (λ c. is_portable host c ≡ true) (split b'/' s)
  unfolding split
  split-portable [] h = (portable_empty host, tt)
  split-portable (x ∷ s) h =
      let (head, tail) = portable_head host x s h in
      grow (split b'/' s) head (split-portable s tail)
    where
      grow :
          (parts : List Text)
          → is_portable host (x ∷ []) ≡ true
          → All (λ c. is_portable host c ≡ true) parts
          → All
              (λ c. is_portable host c ≡ true)
              (if x == b'/' then [] ∷ parts else cons_head x parts)
      grow [] head all = elim (Bool-cases (x == b'/')) [
        | inl same ↦ rw same (portable_empty host, tt)
        | inr other ↦ rw other (head, tt)
      ]
      grow (p ∷ ps) head all = elim (Bool-cases (x == b'/')) [
        | inl same ↦ rw same (portable_empty host, all)
        | inr other ↦ rw other (portable_cons host x p head all.0, all.1)
      ]

  stripped_twice :
      (p path relative : Text)
      → and_then (strip_prefix p path) (strip_prefix slash) ≡ some relative
      → is_portable host path ≡ true
      → is_portable host relative ≡ true
  stripped_twice p path relative e h = elim (Option-cases (strip_prefix p path)) [
    | inl missing ↦ cc (sym (ap (λ r. and_then r (strip_prefix slash)) missing) ∙ e)
    | inr (rest, stripped) ↦
        let cut = sym (ap (λ r. and_then r (strip_prefix slash)) stripped) ∙ e in
        let whole = strip_prefix-eq-some p path stripped in
        portable_rest slash relative (
          subst (λ s. is_portable host s ≡ true) (strip_prefix-eq-some slash rest cut)
            (portable_rest p rest (subst (λ s. is_portable host s ≡ true) whole h)))
  ]

  -- What is below the root of a tree is as portable as the whole path.
  pub relative-portable :
      (root path relative : Text)
      → remote_relative_path root path ≡ some relative
      → is_portable host path ≡ true
      → is_portable host relative ≡ true
  unfolding remote_relative_path
  relative-portable root path relative e h = elim (Bool-cases (text_eq path root)) [
    | inl same ↦
        let is_root : some [] ≡ some relative = rw (← e, same) refl in
        let is_empty_text : [] ≡ relative = cc (is_root) in
        subst (λ s. is_portable host s ≡ true) is_empty_text (portable_empty host)
    | inr other ↦
        let stripped : and_then (strip_prefix (trim_end_matches is_slash root) path)
              (strip_prefix slash)
            ≡ some relative =
          rw (← e, other) refl in
        stripped_twice (trim_end_matches is_slash root) path relative stripped h
  ]

-- Whatever the relative path holds, "..", empty parts and a leading slash included, the local path
-- is reached from the destination by steps down only, if on Windows no backslash and no colon is in
-- the relative path.
pub join_relative-Under :
    (host : Host) (root relative : Text)
    → is_portable host relative ≡ true
    → Under host root (join_remote_relative host root relative)
unfolding join_remote_relative
join_relative-Under host root relative h =
    join_components-Under host root root (split b'/' relative) here (split-All b'/' relative)
      (split-portable host relative h)
