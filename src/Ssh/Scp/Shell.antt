-- ===== src/Ssh/Scp/Shell.antt =====
-- How a POSIX shell reads the words of a simple command, as far as the commands of scp.rs go: blanks
-- between words, single quotes, and the backslash. A character that the shell gives a meaning of its
-- own outside of quotes has no reading here.
use rem_cmd.Prelude.{
  ℕ, zero, suc, Bool, ◌||◌, Option, none, some, List, [], ◌∷◌, if◌then◌else◌, ◌==◌, within,
}
use rem_cmd.Prelude.Text.{Text}

pub data Mode : Type 0 where
  bare quoted escaped : Mode

-- A letter, a digit, or one of `-`, `.`, `/` and `_`.
abbrev pub is_ordinary : ℕ → Bool
is_ordinary c = within b'a' b'z' c || within b'A' b'Z' c || within b'-' b'9' c || c == b'_'

abbrev pub is_blank_char : ℕ → Bool
is_blank_char c = c == b' ' || c == b'\t'

abbrev pub push : ℕ → Option (Text × Text) → Option (Text × Text)
push c none = none
push c (some (word, rest)) = some (c ∷ word, rest)

-- The word at the front, and what is left behind it.
unfoldable pub read_word : Mode → Text → Option (Text × Text)
read_word bare [] = some ([], [])
read_word quoted [] = none
read_word escaped [] = none
read_word escaped (c ∷ s) = push c (read_word bare s)
read_word quoted (c ∷ s) =
    let closed = read_word bare s in
    let inside = push c (read_word quoted s) in if c == b'\'' then closed else inside
read_word bare (c ∷ s) =
    let opened = read_word quoted s in
    let literal = read_word escaped s in
    let next = push c (read_word bare s) in
    if is_blank_char c
    then some ([], c ∷ s)
    else if c == b'\''
    then opened
    else if c == b'\\'
    then literal
    else if is_ordinary c
    then next
    else none

abbrev pub push_word : Text → Option (List Text) → Option (List Text)
push_word w none = none
push_word w (some ws) = some (w ∷ ws)

-- The words of a command, in so many steps.
unfoldable pub words : ℕ → Text → Option (List Text)
unfolding read_word
words zero s = none
words (suc n) [] = some []
words (suc n) (c ∷ s) =
    let skipped = words n s in
    if is_blank_char c then skipped else elim (read_word bare (c ∷ s)) [
      | none ↦ none
      | some (word, rest) ↦ push_word word (words n rest)
    ]
