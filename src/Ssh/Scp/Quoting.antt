-- ===== src/Ssh/Scp/Quoting.antt =====
-- The commands of scp.rs as a shell reads them.
use rem_cmd.Prelude.{
  ℕ, suc, true, false, some, [], ◌∷◌, ◌++◌, ok, ◌==◌, ==_iff, ◌≡◌, refl, ap, sym, ◌∙◌, Bool-cases,
  inl, inr, append_assoc, append-nil,
}
use rem_cmd.Prelude.Text.{Text, codes}
use rem_cmd.Ssh.Scp.{has, quote_body, shell_quote, remove_command, install_command}
use rem_cmd.Ssh.Scp.Shell.{bare, quoted, is_blank_char, push, read_word, push_word, words}

-- Nothing more of the word follows.
abbrev pub EndsWord : Text → Type 0
EndsWord [] = Unit
EndsWord (c ∷ s) = is_blank_char c ≡ true

read_end : (rest : Text) → EndsWord rest → read_word bare rest ≡ some ([], rest)
unfolding read_word
read_end [] h = refl
read_end (c ∷ s) h = rw h refl

read_body :
    (value rest : Text)
    → EndsWord rest
    → read_word quoted (quote_body value ++ b'\'' ∷ rest) ≡ some (value, rest)
unfolding read_word quote_body
read_body [] rest h = read_end rest h
read_body (c ∷ s) rest h = elim (Bool-cases (c == b'\'')) [
  | inl quote ↦ rw quote (
      ap (push b'\'') (read_body s rest h)
      ∙ ap (λ d. some (d ∷ s, rest)) (sym ((==_iff c b'\'').0 quote)))
  | inr other ↦ rw other (rw other (ap (push c) (read_body s rest h)))
]

quoted_text : Text → Text
quoted_text value = b'\'' ∷ (quote_body value ++ b'\'' ∷ [])

shell_quote-clean :
    (value : Text) → has 0 value ≡ false → shell_quote value ≡ ok (quoted_text value)
unfolding shell_quote quoted_text
shell_quote-clean value h = rw h refl

words-quoted :
    (n : ℕ) (value rest : Text)
    → EndsWord rest
    → words (suc n) (quoted_text value ++ rest) ≡ push_word value (words n rest)
unfolding words quoted_text
words-quoted n value rest h =
    let e : read_word quoted ((quote_body value ++ b'\'' ∷ []) ++ rest) ≡ some (value, rest) =
      ap (read_word quoted) (append_assoc (quote_body value) (b'\'' ∷ []) rest)
      ∙ read_body value rest h in
    rw e refl

-- What the shell reads when a file is removed.
pub record Removing (path : Text) : Type 0 where
  pub command : Text
  pub sent : remove_command path ≡ ok command
  pub read : words 8 command ≡ some (codes "rm" ∷ codes "-f" ∷ codes "--" ∷ path ∷ [])

-- For every path without a zero, whatever quotes, blanks and other characters it has, the command
-- that removes it is sent, and a shell reads it as `rm` with the options `-f` and `--` and that
-- path.
pub remove_command-Removing : (path : Text) → has 0 path ≡ false → Removing path
unfolding remove_command words
remove_command-Removing path h = record {
  command = codes "rm -f -- " ++ quoted_text path;
  sent = rw (shell_quote-clean path h) refl;
  read =
      ap (λ ws. push_word (codes "rm") (push_word (codes "-f") (push_word (codes "--") ws)))
        (ap (words 2) (sym (append-nil (quoted_text path))) ∙ words-quoted 1 path [] tt);
}

-- What the shell reads when a finished upload replaces its destination.
pub record Replacing (temporary path : Text) : Type 0 where
  pub command : Text
  pub sent : install_command temporary path true ≡ ok command
  pub read : words 11 command ≡ some (codes "mv" ∷ codes "-f" ∷ codes "--" ∷ temporary ∷ path ∷ [])

-- For two paths without zeros the command that replaces the destination is sent, and a shell reads
-- it as `mv` with the options `-f` and `--`, the temporary path and the destination.
pub install_command-Replacing :
    (temporary path : Text)
    → has 0 temporary ≡ false
    → has 0 path ≡ false
    → Replacing temporary path
unfolding install_command words
install_command-Replacing temporary path h k = record {
  command = codes "mv -f -- " ++ (quoted_text temporary ++ b' ' ∷ quoted_text path);
  sent = rw (shell_quote-clean temporary h) (rw (shell_quote-clean path k) refl);
  read =
      ap (λ ws. push_word (codes "mv") (push_word (codes "-f") (push_word (codes "--") ws)))
        (words-quoted 4 temporary (b' ' ∷ quoted_text path) refl
          ∙ ap (push_word temporary)
              (ap (words 3) (sym (append-nil (quoted_text path))) ∙ words-quoted 2 path [] tt));
}
