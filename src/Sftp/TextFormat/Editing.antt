-- ===== src/Sftp/TextFormat/Editing.antt =====
-- A file that is edited, saved and opened again.
use rem_cmd.Prelude.{
  ℕ, Bool, true, false, some, [], ◌∷◌, ◌==◌, ◌≡◌, ◌≢◌, ◌⊎◌, inl, inr, refl, ap, ◌∙◌, arith,
  Bool-cases, All,
}
use rem_cmd.Prelude.Text.{Text, free_of}
use rem_cmd.Prelude.Utf8.{encode, IsChar}
use rem_cmd.Sftp.TextFormat.{
  RemoteLineEnding, lf, cr_lf, RemoteTextFormat, contains_crlf, to_lf, to_crlf, written_text,
  decode_file, marked, encode_file,
}
use rem_cmd.Sftp.TextFormat.Saving.{IsFile, decode_file-marked, All-to_crlf}

-- A text of the editor that can be saved in a format: characters without zeros and carriage returns,
-- no byte order mark in front without one in the format, and a line break for the format CR LF.
pub record IsEdited (format : RemoteTextFormat) (text : Text) : Type 0 where
  pub chars : All IsChar text
  pub no_zero : All (λ c. c ≢ 0) text
  pub no_return : free_of b'\r' text ≡ true
  pub is_file : IsFile format.utf8_bom text
  pub has_lines : (format.line_ending ≡ lf) ⊎ (free_of b'\n' text ≡ false)

to_lf-plain : (c : ℕ) (s : Text) → c ≢ b'\r' → to_lf (c ∷ s) ≡ c ∷ to_lf s
unfolding to_lf
to_lf-plain c [] h = refl
to_lf-plain c (d ∷ s) h = ground arith

to_lf-to_crlf : (s : Text) → free_of b'\r' s ≡ true → to_lf (to_crlf s) ≡ s
unfolding to_crlf to_lf
to_lf-to_crlf [] h = refl
to_lf-to_crlf (c ∷ s) h = elim (Bool-cases (c == b'\n')) [
  | inl feed ↦ rw feed (ground (arith, feed, h, to_lf-to_crlf s))
  | inr other ↦ rw other (
      to_lf-plain c (to_crlf s) (ground (arith, h))
      ∙ ap (c ∷◌) (to_lf-to_crlf s (ground (arith, h))))
]

crlf_free : (s : Text) → free_of b'\r' s ≡ true → contains_crlf s ≡ false
unfolding contains_crlf
crlf_free [] h = refl
crlf_free (c ∷ []) h = refl
crlf_free (c ∷ (d ∷ s)) h = ground (arith, crlf_free (d ∷ s))

crlf_tail : (c : ℕ) (s : Text) → contains_crlf s ≡ true → contains_crlf (c ∷ s) ≡ true
unfolding contains_crlf
crlf_tail c [] h = cc
crlf_tail c (d ∷ s) h = ground (arith, h)

crlf_written : (s : Text) → free_of b'\n' s ≡ false → contains_crlf (to_crlf s) ≡ true
unfolding to_crlf contains_crlf
crlf_written [] h = cc
crlf_written (c ∷ s) h = elim (Bool-cases (c == b'\n')) [
  | inl feed ↦ rw feed refl
  | inr other ↦ rw other (crlf_tail c (to_crlf s) (crlf_written s (ground (arith, h, other))))
]

has_feed : (text : Text) → (cr_lf ≡ lf) ⊎ (free_of b'\n' text ≡ false) → free_of b'\n' text ≡ false
has_feed text (inl e) = cc e
has_feed text (inr h) = h

IsFile-to_crlf : (bom : Bool) (text : Text) → IsFile bom text → IsFile bom (to_crlf text)
unfolding to_crlf
IsFile-to_crlf true text h = tt
IsFile-to_crlf false [] h = refl
IsFile-to_crlf false (c ∷ s) h = elim (Bool-cases (c == b'\n')) [
  | inl feed ↦ rw feed refl
  | inr other ↦ rw other h
]

reopen_as :
    (ending : RemoteLineEnding) (bom : Bool) (text : Text)
    → IsEdited (record { utf8_bom = bom; line_ending = ending }) text
    → decode_file (marked bom (encode (written_text ending text)))
      ≡ some (record { utf8_bom = bom; line_ending = ending }, text)
reopen_as lf bom text e =
    decode_file-marked bom text e.chars e.no_zero e.is_file ∙ rw (crlf_free text e.no_return) refl
reopen_as cr_lf bom text e =
    let lines : free_of b'\n' text ≡ false = has_feed text e.has_lines in
    decode_file-marked bom (to_crlf text)
      (All-to_crlf IsChar (omega arith, inl (omega arith)) (omega arith, inl (omega arith)) text
        e.chars)
      (All-to_crlf (λ c. c ≢ 0) (omega arith) (omega arith) text e.no_zero)
      (IsFile-to_crlf bom text e.is_file)
    ∙ rw (crlf_written text lines, to_lf-to_crlf text e.no_return) refl

-- A text of the editor without zeros and carriage returns, with a line break if the format is CR
-- LF, and with no byte order mark in front if the format has none, is read back after it is saved,
-- with its format.
pub decode-encode_file :
    (format : RemoteTextFormat) (text : Text)
    → IsEdited format text
    → decode_file (encode_file format text) ≡ some (format, text)
unfolding encode_file
decode-encode_file format text e = reopen_as format.line_ending format.utf8_bom text e
