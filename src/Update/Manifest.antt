-- ===== src/Update/Manifest.antt =====
-- `manifest_digest`: the checksum of a package in a SHA256SUMS file.
pub mod Lookup
use rem_cmd.Prelude.{
  ℕ, ◌+◌, Bool, true, false, not, ◌||◌, Option, none, some, List, [], ◌∷◌, Result, ok, err,
  if◌then◌else◌, ◌==◌, within, map, is_some,
}
use rem_cmd.Prelude.Text.{Text, text_eq, lines, split_once, trim_start_matches}
use rem_cmd.Prelude.Utf8.{Bytes, decode}
use rem_cmd.Update.{UpdateError, invalid_release, is_hash}

-- `to_ascii_lowercase`.
abbrev pub to_lower : ℕ → ℕ
to_lower c = if within b'A' b'Z' c then c + 32 else c

abbrev pub file_of : Text → Text
file_of filename =
    trim_start_matches (λ c. c == b'*') (trim_start_matches (λ c. c == b' ') filename)

-- The hash of a line for the file; `continue` is `none`.
unfoldable pub hash_in : Text → Text → Option Text
unfolding split_once text_eq trim_start_matches
hash_in name line = elim (split_once b' ' line) [
  | none ↦ none
  | some (hash, filename) ↦ if not (text_eq (file_of filename) name) then none else some hash
]

-- The loop, with the digest found so far.
unfoldable pub digest_from : Text → Option Text → List Text → Result (Option Text) UpdateError
unfolding hash_in is_hash
digest_from name digest [] = ok digest
digest_from name digest (line ∷ rest) = elim (hash_in name line) [
  | none ↦ digest_from name digest rest
  | some hash ↦
      let later = digest_from name (some (map to_lower hash)) rest in
      if is_some digest || not (is_hash hash) then err invalid_release else later
]

unfoldable pub manifest_digest : Bytes → Text → Result (Option Text) UpdateError
unfolding decode lines digest_from
manifest_digest bytes name = elim (decode bytes) [
  | none ↦ err invalid_release
  | some text ↦ digest_from name none (lines text)
]
